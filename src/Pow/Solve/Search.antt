-- ===== src/Pow/Solve/Search.antt =====
-- The search finds the least nonce whose hash is the challenge (pow/deepseek_pow.go).
use deep_seek_web_to_api.Prelude.{
  ℕ, zero, suc, ◌+◌, ◌-◌, ◌≤◌, ◌<◌, ◌≡◌, refl, sym, ap, ◌∙◌, Bool, true, false, List, ◌++◌, length,
  take, drop, ltb, ◌==◌, ==_iff, if◌then◌else◌, arith, Bool-cases, inl, inr, length-append,
  length-drop, length-take,
}
use deep_seek_web_to_api.Prelude.{take-past, drop-past, take_all}
use deep_seek_web_to_api.Pow.Hash.{
  rate, zeros, initial, absorb_block, absorb_all, copy_at, pad, finish, hash_state,
}
use deep_seek_web_to_api.Pow.Hash.Blocks.{absorb_rest, absorb-append, ltb→ge}
use deep_seek_web_to_api.Pow.Hash.Buffers.{copy_at-append, take-copy_at, copy_at-full}
use deep_seek_web_to_api.Pow.Solve.{ok, nonce_state, search_nonce}

-- The buffer of one nonce is the plain buffer of the rest and the digits.
one_block :
    (rest num : List ℕ)
    → length rest ≤ rate
    → copy_at (copy_at zeros 0 (take (length rest) (copy_at zeros 0 rest))) (length rest) num
      ≡ copy_at zeros 0 (rest ++ num)
one_block rest num h = rw (take-copy_at zeros rest h) (copy_at-append zeros rest num h)

two_blocks :
    (rest num : List ℕ)
    → length rest ≤ rate
    → rate ≤ length (rest ++ num)
    → copy_at
        (copy_at zeros 0 (take (length rest) (copy_at zeros 0 rest)))
        (length rest)
        (take (rate - length rest) num)
      ≡ take rate (rest ++ num)
two_blocks rest num h k =
    one_block rest (take (rate - length rest) num) h
    ∙ copy_at-full zeros (rest ++ take (rate - length rest) num) (
        omega (
          arith,
          length-append rest num,
          length-append rest (take (rate - length rest) num),
          length-take (rate - length rest) num,
        ))
    ∙ sym (take-past rate rest num h)

nonce_state-finish :
    (base rest num : List ℕ)
    → length rest < rate
    → length num ≤ 20
    → nonce_state base rest num
      ≡ finish (
          if ltb (length (rest ++ num)) rate
          then (base, rest ++ num)
          else (absorb_block base (take rate (rest ++ num)), drop rate (rest ++ num)))
unfolding nonce_state finish
nonce_state-finish base rest num h k = elim (Bool-cases (ltb (length (rest ++ num)) rate)) [
  | inl fits ↦ rw (← length-append rest num, fits, one_block rest num (omega arith)) refl
  | inr fills ↦
      rw
        (
          ← length-append rest num,
          fills,
          two_blocks rest num (omega arith) (ltb→ge _ rate fills),
          drop-past rate rest num (omega arith),
          take_all (length (rest ++ num) - rate) (drop (rate - length rest) num)
              (omega (arith, length-append rest num, length-drop (rate - length rest) num)),
        )
        (ap
          (λ n.
            absorb_block (absorb_block base (take rate (rest ++ num)))
              (pad (copy_at zeros 0 (drop (rate - length rest) num)) n))
          (omega (arith, length-append rest num, length-drop (rate - length rest) num)))
]

-- The state of a nonce is the hash of the prefix and its digits, whichever of the two ways the
-- digits fall: the prefix that was absorbed once need not be absorbed again.
pub nonce_state-hash :
    (prefix num : List ℕ)
    → length num ≤ 20
    → let (base, rest) = absorb_all prefix in nonce_state base rest num ≡ hash_state (prefix ++ num)
unfolding hash_state
nonce_state-hash prefix num h =
    nonce_state-finish (absorb_all prefix).0 (absorb_all prefix).1 num (absorb_rest initial prefix)
      h
    ∙ ap finish (sym (absorb-append initial prefix num (omega arith)))

-- An answer is the least hit of the range.
pub search_nonce-ok :
    (cancelled hit : ℕ → Bool) (rounds n m : ℕ)
    → search_nonce cancelled hit rounds n ≡ ok m
    → (n ≤ m) × (m < n + rounds) × (hit m ≡ true) × ((j : ℕ) → n ≤ j → j < m → hit j ≡ false)
unfolding search_nonce
search_nonce-ok cancelled hit zero n m e = cc
search_nonce-ok cancelled hit (suc rounds) n m e = elim (Bool-cases (hit n)) [
  | inl h ↦
      let same : n ≡ m = ground arith in
      (omega arith, omega arith, rw (← same) h, λ j l k. absurd (omega arith))
  | inr h ↦
      let later : search_nonce cancelled hit rounds (n + 1) ≡ ok m = ground arith in
      let (low, high, found, first) = search_nonce-ok cancelled hit rounds (n + 1) m later in
      (omega arith, omega arith, found, λ j l k. before h first j l k (n == j) refl)
]
  where
    before :
        hit n ≡ false
        → ((j : ℕ) → n + 1 ≤ j → j < m → hit j ≡ false)
        → (j : ℕ) → n ≤ j
        → j < m
        → (b : Bool) → (n == j) ≡ b
        → hit j ≡ false
    before h first j l k true e = rw (← (==_iff n j).0 e) h
    before h first j l k false e = first j (ground arith) k

-- While the context lasts, a hit in the range is not missed.
pub search_nonce_complete :
    (cancelled hit : ℕ → Bool) (rounds n m : ℕ)
    → ((j : ℕ) → cancelled j ≡ false)
    → n ≤ m
    → m < n + rounds
    → hit m ≡ true
    → (r : ℕ) × (search_nonce cancelled hit rounds n ≡ ok r)
unfolding search_nonce
search_nonce_complete cancelled hit zero n m c l k h = absurd (omega arith)
search_nonce_complete cancelled hit (suc rounds) n m c l k h = elim (Bool-cases (hit n)) [
  | inl now ↦ (n, ground (arith, c n))
  | inr miss ↦
      let (r, e) =
        search_nonce_complete cancelled hit rounds (n + 1) m c (ground arith) (omega arith) h in
      (r, ground (arith, c n))
]
