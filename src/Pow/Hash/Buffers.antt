-- ===== src/Pow/Hash/Buffers.antt =====
-- Copies into a byte buffer (pow/deepseek_hash.go, deepseek_pow.go).
use deep_seek_web_to_api.Prelude.{
  ℕ, zero, suc, ◌≤◌, ◌≡◌, refl, ap, List, [], ◌∷◌, ◌++◌, length, take, arith,
}
use deep_seek_web_to_api.Pow.Hash.{copy_at}

pub length-copy_at :
    (ds : List ℕ) (off : ℕ) (src : List ℕ) → length (copy_at ds off src) ≡ length ds
unfolding copy_at
length-copy_at [] off src = refl
length-copy_at (d ∷ ds) (suc off) src = ap suc (length-copy_at ds off src)
length-copy_at (d ∷ ds) zero [] = refl
length-copy_at (d ∷ ds) zero (x ∷ xs) = ap suc (length-copy_at ds zero xs)

copy_at-nil : (ds : List ℕ) → copy_at ds 0 [] ≡ ds
unfolding copy_at
copy_at-nil [] = refl
copy_at-nil (d ∷ ds) = refl

-- Two copies, the second behind the first, are one.
pub copy_at-append :
    (ds xs ys : List ℕ)
    → length xs ≤ length ds
    → copy_at (copy_at ds 0 xs) (length xs) ys ≡ copy_at ds 0 (xs ++ ys)
unfolding copy_at
copy_at-append ds [] ys h = ap (λ r. copy_at r 0 ys) (copy_at-nil ds)
copy_at-append [] (x ∷ xs) ys h = absurd (omega arith)
copy_at-append (d ∷ ds) (x ∷ xs) ys h = ap (λ r. x ∷ r) (copy_at-append ds xs ys (omega arith))

-- What was copied is read back.
pub take-copy_at :
    (ds xs : List ℕ) → length xs ≤ length ds → take (length xs) (copy_at ds 0 xs) ≡ xs
unfolding copy_at
take-copy_at ds [] h = refl
take-copy_at [] (x ∷ xs) h = absurd (omega arith)
take-copy_at (d ∷ ds) (x ∷ xs) h = ap (λ r. x ∷ r) (take-copy_at ds xs (omega arith))

-- A copy that fills the buffer.
pub copy_at-full : (ds xs : List ℕ) → length xs ≡ length ds → copy_at ds 0 xs ≡ xs
unfolding copy_at
copy_at-full [] [] h = refl
copy_at-full [] (x ∷ xs) h = absurd (omega arith)
copy_at-full (d ∷ ds) [] h = absurd (omega arith)
copy_at-full (d ∷ ds) (x ∷ xs) h = ap (λ r. x ∷ r) (copy_at-full ds xs (omega arith))
