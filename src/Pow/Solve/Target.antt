-- ===== src/Pow/Solve/Target.antt =====
-- The answer of the search against the bytes of the challenge (pow/deepseek_pow.go).
use deep_seek_web_to_api.Prelude.{
  ℕ, zero, suc, ◌+◌, ◌*◌, ◌/◌, ◌%◌, ◌≤◌, ◌<◌, ◌≡◌, refl, sym, ap, ◌∙◌, Bool, true, false, some,
  List, [], ◌∷◌, ◌++◌, length, take, drop, arith, Option-cases, inl, inr, All, length-drop,
  length-take, take-append-drop,
}
use deep_seek_web_to_api.Prelude.Int.{ℤ, pos_part}
use deep_seek_web_to_api.Pow.Keccak.{lane}
use deep_seek_web_to_api.Pow.Hash.{
  uint64, put_uint, absorb_all, hash_state, digest, deep_seek_hash_v1,
}
use deep_seek_web_to_api.Prelude.{take_all}
use deep_seek_web_to_api.Pow.Digits.{num_text, length-num_text}
use deep_seek_web_to_api.Pow.Solve.{
  ok, hex_digit, hex_decode, build_prefix, nonce_state, is_hit, solve_with, solve_pow,
}
use deep_seek_web_to_api.Pow.Solve.Search.{nonce_state-hash, search_nonce-ok, search_nonce_complete}

abbrev AreBytes : List ℕ → Type 0
AreBytes = All (λ b. b < 256)

hex_digit_lt : (c d : ℕ) → hex_digit c ≡ some d → d < 16
unfolding hex_digit
hex_digit_lt c d h = ground arith

-- Half as many bytes as digits.
hex_decode-AreBytes :
    (cs bytes : List ℕ)
    → hex_decode cs ≡ some bytes
    → AreBytes bytes × (2 * length bytes ≡ length cs)
unfolding hex_decode
hex_decode-AreBytes [] bytes h = ground arith
hex_decode-AreBytes (c ∷ []) bytes h = cc
hex_decode-AreBytes (c ∷ (d ∷ cs)) bytes h = elim (Option-cases (hex_digit c)) [
  | inl p ↦ absurd (ground arith)
  | inr (hi, p) ↦ elim (Option-cases (hex_digit d)) [
    | inl q ↦ absurd (ground arith)
    | inr (lo, q) ↦ elim (Option-cases (hex_decode cs)) [
      | inl r ↦ absurd (ground arith)
      | inr (rest, r) ↦
          let (fine, size) = hex_decode-AreBytes cs rest r in
          let e : bytes ≡ (hi * 16 + lo) ∷ rest = ground arith in
          rw e ((omega (arith, hex_digit_lt c hi p, hex_digit_lt d lo q), fine), omega arith)
    ]
  ]
]

put_uint-uint64 : (bytes : List ℕ) → AreBytes bytes → put_uint (length bytes) (uint64 bytes) ≡ bytes
unfolding put_uint uint64
put_uint-uint64 [] h = refl
put_uint-uint64 (b ∷ bytes) h =
    let low : (b + 256 * uint64 bytes) % 256 ≡ b = omega arith in
    let high : (b + 256 * uint64 bytes) / 256 ≡ uint64 bytes = omega arith in
    rw (low, high) (ap (λ r. b ∷ r) (put_uint-uint64 bytes h.1))

drop-nil : (n : ℕ) → drop {A = ℕ} n [] ≡ []
drop-nil zero = refl
drop-nil (suc n) = refl

drop-drop : (n m : ℕ) (xs : List ℕ) → drop n (drop m xs) ≡ drop (m + n) xs
drop-drop n zero xs = ap (λ k. drop k xs) (omega arith)
drop-drop n (suc m) [] = drop-nil n ∙ sym (drop-nil (suc m + n))
drop-drop n (suc m) (x ∷ xs) =
    let e : suc (m + n) ≡ suc m + n = omega arith in drop-drop n m xs ∙ ap (λ k. drop k (x ∷ xs)) e

-- Eight bytes from a position on, and those behind them.
piece : (n : ℕ) (t : List ℕ) → take 8 (drop n t) ++ drop (n + 8) t ≡ drop n t
piece n t = ap (λ r. take 8 (drop n t) ++ r) (sym (drop-drop 8 n t)) ∙ take-append-drop 8 (drop n t)

take-AreBytes : (n : ℕ) (xs : List ℕ) → AreBytes xs → AreBytes (take n xs)
take-AreBytes zero xs h = tt
take-AreBytes (suc n) [] h = tt
take-AreBytes (suc n) (x ∷ xs) h = (h.0, take-AreBytes n xs h.1)

drop-AreBytes : (n : ℕ) (xs : List ℕ) → AreBytes xs → AreBytes (drop n xs)
drop-AreBytes zero xs h = h
drop-AreBytes (suc n) [] h = tt
drop-AreBytes (suc n) (x ∷ xs) h = drop-AreBytes n xs h.1

-- Eight bytes of the target from a position on, written from the word that was read there.
word_back :
    (n : ℕ) (target : List ℕ)
    → AreBytes target
    → length target ≡ 32
    → n + 8 ≤ 32
    → put_uint 8 (uint64 (take 8 (drop n target))) ≡ take 8 (drop n target)
word_back n target h l k =
    let e : length (take 8 (drop n target)) ≡ 8 =
      omega (arith, length-take 8 (drop n target), length-drop n target) in
    let whole =
      put_uint-uint64 (take 8 (drop n target)) (take-AreBytes 8 _ (drop-AreBytes n target h)) in
    ap (λ j. put_uint j (uint64 (take 8 (drop n target)))) (sym e) ∙ whole

is_hit-digest :
    (target s : List ℕ)
    → AreBytes target
    → length target ≡ 32
    → is_hit target s ≡ true
    → digest s ≡ target
unfolding is_hit digest
is_hit-digest target s h l e =
    let (w0, w1, w2, w3) = words in
    rw
      (
        w0,
        w1,
        w2,
        w3,
        word_back 0 target h l (omega arith),
        word_back 8 target h l (omega arith),
        word_back 16 target h l (omega arith),
        word_back 24 target h l (omega arith),
      )
      (whole target l)
  where
    words :
        (lane s 0 ≡ uint64 (take 8 (drop 0 target)))
        × (lane s 1 ≡ uint64 (take 8 (drop 8 target)))
        × (lane s 2 ≡ uint64 (take 8 (drop 16 target)))
        × (lane s 3 ≡ uint64 (take 8 (drop 24 target)))
    words = ground arith

    whole :
        (t : List ℕ)
        → length t ≡ 32
        → take 8 (drop 0 t) ++ (take 8 (drop 8 t) ++ (take 8 (drop 16 t) ++ take 8 (drop 24 t))) ≡ t
    whole t l =
        ap (λ r. take 8 t ++ (take 8 (drop 8 t) ++ (take 8 (drop 16 t) ++ r)))
          (take_all 8 (drop 24 t) (omega (arith, length-drop 24 t)))
        ∙ ap (λ r. take 8 t ++ (take 8 (drop 8 t) ++ r)) (piece 16 t)
        ∙ ap (λ r. take 8 t ++ r) (piece 8 t)
        ∙ piece 0 t

-- The test of the loop at a nonce, on the hash of the whole text.
hit_hash :
    (target prefix : List ℕ) (j : ℕ)
    → is_hit target (nonce_state (absorb_all prefix).0 (absorb_all prefix).1 (num_text j))
      ≡ is_hit target (hash_state (prefix ++ num_text j))
hit_hash target prefix j =
    ap (is_hit target) (nonce_state-hash prefix (num_text j) (length-num_text j))

solve_with-ok :
    (cancelled : ℕ → Bool) (target prefix : List ℕ) (difficulty : ℤ) (n : ℕ)
    → solve_with cancelled target prefix difficulty ≡ ok n
    → (n < pos_part difficulty)
      × (is_hit target (hash_state (prefix ++ num_text n)) ≡ true)
      × ((j : ℕ) → j < n → is_hit target (hash_state (prefix ++ num_text j)) ≡ false)
unfolding solve_with
solve_with-ok cancelled target prefix difficulty n e =
    let (low, high, found, first) =
      search_nonce-ok cancelled
        (λ j. is_hit target (nonce_state (absorb_all prefix).0 (absorb_all prefix).1 (num_text j)))
        (pos_part difficulty) 0 n e in
    (
      omega arith,
      sym (hit_hash target prefix n) ∙ found,
      λ j k. sym (hit_hash target prefix j) ∙ first j (omega arith) k,
    )

solve_pow-target :
    (cancelled : ℕ → Bool) (challenge_hex salt : List ℕ) (expire_at difficulty : ℤ) (n : ℕ)
    → solve_pow cancelled challenge_hex salt expire_at difficulty ≡ ok n
    → (target : List ℕ) × (hex_decode challenge_hex ≡ some target)
      × (length challenge_hex ≡ 64)
      × (solve_with cancelled target (build_prefix salt expire_at) difficulty ≡ ok n)
unfolding solve_pow
solve_pow-target cancelled challenge_hex salt expire_at difficulty n e =
    elim (Option-cases (hex_decode challenge_hex)) [
      | inl p ↦ absurd (ground arith)
      | inr (target, p) ↦ (target, p, ground arith, ground arith)
    ]

-- What an answer of `SolvePow` is: the challenge is hexadecimal, the hash of the prefix with the
-- answer's digits is the challenge byte for byte, and the answer lies in the range.
pub solve_pow-ok :
    (cancelled : ℕ → Bool) (challenge_hex salt : List ℕ) (expire_at difficulty : ℤ) (n : ℕ)
    → solve_pow cancelled challenge_hex salt expire_at difficulty ≡ ok n
    → let prefix = build_prefix salt expire_at in
      (target : List ℕ) × (hex_decode challenge_hex ≡ some target)
      × (deep_seek_hash_v1 (prefix ++ num_text n) ≡ target)
      × (n < pos_part difficulty)
unfolding deep_seek_hash_v1
solve_pow-ok cancelled challenge_hex salt expire_at difficulty n e =
    let (target, decoded, size, answer) =
      solve_pow-target cancelled challenge_hex salt expire_at difficulty n e in
    let (fine, half) = hex_decode-AreBytes challenge_hex target decoded in
    let (below, found, first) =
      solve_with-ok cancelled target (build_prefix salt expire_at) difficulty n answer in
    (target, decoded, is_hit-digest target _ fine (omega arith) found, below)

-- The answer is the least one: the hash for a smaller nonce does not have the words of the challenge.
pub solve_pow-least :
    (cancelled : ℕ → Bool) (challenge_hex salt : List ℕ) (expire_at difficulty : ℤ) (n j : ℕ)
    → solve_pow cancelled challenge_hex salt expire_at difficulty ≡ ok n
    → j < n
    → (target : List ℕ) × (hex_decode challenge_hex ≡ some target)
      × (is_hit target (hash_state (build_prefix salt expire_at ++ num_text j)) ≡ false)
solve_pow-least cancelled challenge_hex salt expire_at difficulty n j e k =
    let (target, decoded, _, answer) =
      solve_pow-target cancelled challenge_hex salt expire_at difficulty n e in
    let (_, _, first) =
      solve_with-ok cancelled target (build_prefix salt expire_at) difficulty n answer in
    (target, decoded, first j k)

-- The search does not give up early: while the context lasts, a nonce of the range whose hash has
-- the words of the challenge makes it return an answer.
pub solve_pow_complete :
    (cancelled : ℕ → Bool) (challenge_hex salt : List ℕ) (expire_at difficulty : ℤ)
    (target : List ℕ) (m : ℕ)
    → ((j : ℕ) → cancelled j ≡ false)
    → length challenge_hex ≡ 64
    → hex_decode challenge_hex ≡ some target
    → m < pos_part difficulty
    → is_hit target (hash_state (build_prefix salt expire_at ++ num_text m)) ≡ true
    → (n : ℕ) × (solve_pow cancelled challenge_hex salt expire_at difficulty ≡ ok n)
unfolding solve_pow solve_with
solve_pow_complete cancelled challenge_hex salt expire_at difficulty target m c l d k h =
    let prefix = build_prefix salt expire_at in
    let (n, e) =
      search_nonce_complete cancelled
        (λ j. is_hit target (nonce_state (absorb_all prefix).0 (absorb_all prefix).1 (num_text j)))
        (pos_part difficulty) 0 m c (omega arith) (omega arith) (hit_hash target prefix m ∙ h) in
    (n, rw (l, d) e)
