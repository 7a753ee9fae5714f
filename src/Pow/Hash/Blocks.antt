-- ===== src/Pow/Hash/Blocks.antt =====
-- The hash in whole blocks: what is absorbed may be cut anywhere (pow/deepseek_hash.go).
use deep_seek_web_to_api.Prelude.{
  ℕ, zero, suc, ◌-◌, ◌*◌, ◌/◌, ◌≤◌, ◌<◌, ◌≡◌, refl, ap, ◌∙◌, List, ◌++◌, length, take, drop, leb,
  ltb, arith, length-append, length-drop, if◌then◌else◌, Bool-cases, inl, inr, true, false, ltb→lt,
}
use deep_seek_web_to_api.Prelude.{take-append, drop-append}
use deep_seek_web_to_api.Pow.Hash.{rate, absorb_block, absorb}

lt→leb : (a b : ℕ) → b < a → leb a b ≡ false
lt→leb a b h = ground arith

le→leb : (a b : ℕ) → a ≤ b → leb a b ≡ true
le→leb a b h = ground arith

pub ltb→ge : (a b : ℕ) → ltb a b ≡ false → b ≤ a
ltb→ge a b h = ground arith

-- `n` blocks from the front.
blocks : ℕ → List ℕ → List ℕ → List ℕ × List ℕ
blocks zero s rest = (s, rest)
blocks (suc n) s rest = blocks n (absorb_block s (take rate rest)) (drop rate rest)

-- The loop absorbs every whole block.
absorb-blocks :
    (fuel : ℕ) (s rest : List ℕ) (n : ℕ)
    → n * rate ≤ length rest
    → length rest < suc n * rate
    → n ≤ fuel
    → absorb fuel s rest ≡ blocks n s rest
unfolding absorb blocks
absorb-blocks zero s rest zero h k f = refl
absorb-blocks zero s rest (suc n) h k f = absurd (omega arith)
absorb-blocks (suc fuel) s rest zero h k f = rw (lt→leb rate (length rest) (omega arith)) refl
absorb-blocks (suc fuel) s rest (suc n) h k f = rw (le→leb rate (length rest) (omega arith)) (
    absorb-blocks fuel (absorb_block s (take rate rest)) (drop rate rest) n
      (omega (arith, length-drop rate rest)) (omega (arith, length-drop rate rest)) (omega arith))

blocks-append :
    (n : ℕ) (s xs ys : List ℕ)
    → n * rate ≤ length xs
    → blocks n s (xs ++ ys) ≡ ((blocks n s xs).0, (blocks n s xs).1 ++ ys)
unfolding blocks
blocks-append zero s xs ys h = refl
blocks-append (suc n) s xs ys h =
    rw (take-append rate xs ys (omega arith), drop-append rate xs ys (omega arith))
      (blocks-append n (absorb_block s (take rate xs)) (drop rate xs) ys
        (omega (arith, length-drop rate xs)))

length-blocks : (n : ℕ) (s xs : List ℕ) → length (blocks n s xs).1 ≡ length xs - n * rate
unfolding blocks
length-blocks zero s xs = omega arith
length-blocks (suc n) s xs =
    omega
      (arith, length-blocks n (absorb_block s (take rate xs)) (drop rate xs), length-drop rate xs)

-- One block more, at the end.
blocks_last :
    (n : ℕ) (s xs : List ℕ)
    → blocks (suc n) s xs
      ≡ (absorb_block (blocks n s xs).0 (take rate (blocks n s xs).1), drop rate (blocks n s xs).1)
unfolding blocks
blocks_last zero s xs = refl
blocks_last (suc n) s xs = blocks_last n (absorb_block s (take rate xs)) (drop rate xs)

-- Enough blocks for the data, and no whole block left.
absorb_all-blocks : (s xs : List ℕ) → absorb (length xs) s xs ≡ blocks (length xs / rate) s xs
absorb_all-blocks s xs =
    absorb-blocks (length xs) s xs (length xs / rate) (omega arith) (omega arith) (omega arith)

pub absorb_rest : (s xs : List ℕ) → length (absorb (length xs) s xs).1 < rate
absorb_rest s xs =
    rw (absorb_all-blocks s xs) (omega (arith, length-blocks (length xs / rate) s xs))

-- Data absorbed in two pieces: the rest of the first piece stands before the second, and if the two
-- fill a block it is absorbed too.
pub absorb-append :
    (s xs ys : List ℕ)
    → length ys < rate
    → let (base, rest) = absorb (length xs) s xs in
      absorb (length (xs ++ ys)) s (xs ++ ys) ≡ (
        if ltb (length (rest ++ ys)) rate
        then (base, rest ++ ys)
        else (absorb_block base (take rate (rest ++ ys)), drop rate (rest ++ ys)))
absorb-append s xs ys h =
    rw (absorb_all-blocks s xs) (elim (Bool-cases (ltb (length ((blocks n s xs).1 ++ ys)) rate)) [
      | inl fits ↦ rw fits (within (ltb→lt _ rate fits))
      | inr fills ↦ rw fills (beyond (ltb→ge _ rate fills))
    ])
  where
    n : ℕ
    n = length xs / rate

    cut : blocks n s (xs ++ ys) ≡ ((blocks n s xs).0, (blocks n s xs).1 ++ ys)
    cut = blocks-append n s xs ys (omega arith)

    within :
        length ((blocks n s xs).1 ++ ys) < rate
        → absorb (length (xs ++ ys)) s (xs ++ ys) ≡ ((blocks n s xs).0, (blocks n s xs).1 ++ ys)
    within k =
        absorb-blocks (length (xs ++ ys)) s (xs ++ ys) n (omega (arith, length-append xs ys))
          (omega
            (arith, length-append xs ys, length-append (blocks n s xs).1 ys, length-blocks n s xs))
          (omega (arith, length-append xs ys))
        ∙ cut

    beyond :
        rate ≤ length ((blocks n s xs).1 ++ ys)
        → absorb (length (xs ++ ys)) s (xs ++ ys) ≡ (
          absorb_block (blocks n s xs).0 (take rate ((blocks n s xs).1 ++ ys)),
          drop rate ((blocks n s xs).1 ++ ys),
        )
    beyond k =
        absorb-blocks (length (xs ++ ys)) s (xs ++ ys) (suc n)
          (omega
            (arith, length-append xs ys, length-append (blocks n s xs).1 ys, length-blocks n s xs))
          (omega (arith, length-append xs ys))
          (omega
            (arith, length-append xs ys, length-append (blocks n s xs).1 ys, length-blocks n s xs))
        ∙ blocks_last n s (xs ++ ys)
        ∙ ap (λ (r : List ℕ × List ℕ). (absorb_block r.0 (take rate r.1), drop rate r.1)) cut
