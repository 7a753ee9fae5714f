-- ===== src/Sieve/Subsequence.antt =====
-- Text that is left when bytes are taken out of a text (for internal/toolstream).
use deep_seek_web_to_api.Prelude.{
  ℕ, zero, suc, ◌≤◌, Bool, true, false, [], ◌∷◌, ◌++◌, take, drop, arith, if◌then◌else◌,
}
use deep_seek_web_to_api.Sieve.Bytes.{Bytes, trim_left, trim_right}

-- The first text is the second one without some of its bytes.
pub data IsSubsequence : Bytes → Bytes → Type 0 where
  ends : IsSubsequence [] []
  keeps : {c : ℕ} {s t : Bytes} → IsSubsequence s t → IsSubsequence (c ∷ s) (c ∷ t)
  skips : {c : ℕ} {s t : Bytes} → IsSubsequence s t → IsSubsequence s (c ∷ t)

pub IsSubsequence-refl : (s : Bytes) → IsSubsequence s s
IsSubsequence-refl [] = ends
IsSubsequence-refl (c ∷ s) = keeps (IsSubsequence-refl s)

pub IsSubsequence-nil : (s : Bytes) → IsSubsequence [] s
IsSubsequence-nil [] = ends
IsSubsequence-nil (c ∷ s) = skips (IsSubsequence-nil s)

pub IsSubsequence-trans :
    {s t u : Bytes} → IsSubsequence s t → IsSubsequence t u → IsSubsequence s u
IsSubsequence-trans h ends = h
IsSubsequence-trans h (skips k) = skips (IsSubsequence-trans h k)
IsSubsequence-trans (keeps h) (keeps k) = keeps (IsSubsequence-trans h k)
IsSubsequence-trans (skips h) (keeps k) = skips (IsSubsequence-trans h k)

pub IsSubsequence-append :
    {s t u v : Bytes} → IsSubsequence s t → IsSubsequence u v → IsSubsequence (s ++ u) (t ++ v)
IsSubsequence-append ends k = k
IsSubsequence-append (keeps h) k = keeps (IsSubsequence-append h k)
IsSubsequence-append (skips h) k = skips (IsSubsequence-append h k)

pub drop-IsSubsequence : (n : ℕ) (s : Bytes) → IsSubsequence (drop n s) s
drop-IsSubsequence zero s = IsSubsequence-refl s
drop-IsSubsequence (suc n) [] = ends
drop-IsSubsequence (suc n) (c ∷ s) = skips (drop-IsSubsequence n s)

pub take-IsSubsequence : (n : ℕ) (s : Bytes) → IsSubsequence (take n s) s
take-IsSubsequence zero s = IsSubsequence-nil s
take-IsSubsequence (suc n) [] = ends
take-IsSubsequence (suc n) (c ∷ s) = keeps (take-IsSubsequence n s)

-- What stands between two positions is left out.
pub gap-IsSubsequence : (a b : ℕ) (s : Bytes) → a ≤ b → IsSubsequence (take a s ++ drop b s) s
gap-IsSubsequence zero b s h = drop-IsSubsequence b s
gap-IsSubsequence (suc a) zero s h = absurd (omega (arith, h))
gap-IsSubsequence (suc a) (suc b) [] h = ends
gap-IsSubsequence (suc a) (suc b) (c ∷ s) h = keeps (gap-IsSubsequence a b s (omega (arith, h)))

pub trim_left-IsSubsequence : (s : Bytes) → IsSubsequence (trim_left s) s
unfolding trim_left
trim_left-IsSubsequence [] = ends
trim_left-IsSubsequence (c ∷ s) = by_test _ (trim_left-IsSubsequence s)
  where
    by_test :
        (b : Bool)
        → IsSubsequence (trim_left s) s
        → IsSubsequence (if b then trim_left s else c ∷ s) (c ∷ s)
    by_test true h = skips h
    by_test false h = IsSubsequence-refl (c ∷ s)

pub trim_right-IsSubsequence : (s : Bytes) → IsSubsequence (trim_right s) s
unfolding trim_right
trim_right-IsSubsequence [] = ends
trim_right-IsSubsequence (c ∷ s) = by_test _ (trim_right-IsSubsequence s)
  where
    by_test :
        (b : Bool)
        → IsSubsequence (trim_right s) s
        → IsSubsequence (if b then [] else c ∷ trim_right s) (c ∷ s)
    by_test true h = IsSubsequence-nil (c ∷ s)
    by_test false h = keeps h
