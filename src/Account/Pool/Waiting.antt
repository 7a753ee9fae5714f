-- ===== src/Account/Pool/Waiting.antt =====
-- The wait list of the pool, as numbers of channels (internal/account/pool_waiters.go): how often a
-- channel stands in it, and its order.
use deep_seek_web_to_api.Prelude.{
  ℕ, suc, zero, ◌+◌, ◌≤◌, ◌<◌, ◌≡◌, ◌≢◌, ◌⊎◌, refl, List, [], ◌∷◌, ◌++◌, arith, inl, inr,
  Bool-cases, if◌then◌else◌, ltb, ◌==◌,
}
use deep_seek_web_to_api.Account.Pool.{without_waiter}

-- How often a channel stands on a list.
abbrev pub occurrences : ℕ → List ℕ → ℕ
occurrences x [] = 0
occurrences x (y ∷ ys) = let rest = occurrences x ys in if y == x then suc rest else rest

pub occurrences-append :
    (x : ℕ) (ys zs : List ℕ) → occurrences x (ys ++ zs) ≡ occurrences x ys + occurrences x zs
occurrences-append x [] zs = omega arith
occurrences-append x (y ∷ ys) zs = ground (arith, occurrences-append x ys zs)

pub occurrences-without_waiter :
    (x w : ℕ) (ys : List ℕ) → occurrences x (without_waiter w ys).0 ≤ occurrences x ys
unfolding without_waiter
occurrences-without_waiter x w [] = omega arith
occurrences-without_waiter x w (y ∷ ys) = ground (arith, occurrences-without_waiter x w ys)

pub without_waiter-absent :
    (w : ℕ) (ys : List ℕ) → occurrences w ys ≡ 0 → (without_waiter w ys).0 ≡ ys
unfolding without_waiter
without_waiter-absent w [] h = refl
without_waiter-absent w (y ∷ ys) h = ground (arith, without_waiter-absent w ys)

-- A channel that was made is waited on or closed at most once, and never both; a channel that was
-- not made yet is neither.
abbrev pub AreFresh : ℕ → List ℕ → List ℕ → Type 0
AreFresh next waiters closed =
    (x : ℕ)
    → (occurrences x waiters + occurrences x closed ≤ 1)
      × (next ≤ x → occurrences x waiters + occurrences x closed ≡ 0)

-- Numbers that rise, from the first on and below the second.
abbrev pub AreRising : ℕ → List ℕ → ℕ → Type 0
AreRising low [] high = low ≤ high
AreRising low (x ∷ xs) high = (low ≤ x) × AreRising (suc x) xs high

pub AreRising-le : (low high : ℕ) (xs : List ℕ) → AreRising low xs high → low ≤ high
AreRising-le low high [] h = h
AreRising-le low high (x ∷ xs) h = omega (arith, h.0, AreRising-le (suc x) high xs h.1)

pub AreRising-lower :
    (low less high : ℕ) (xs : List ℕ) → less ≤ low → AreRising low xs high → AreRising less xs high
AreRising-lower low less high [] l h = omega (arith, h, l)
AreRising-lower low less high (x ∷ xs) l h = (omega (arith, h.0, l), h.1)

pub AreRising-append :
    (low high : ℕ) (xs : List ℕ)
    → AreRising low xs high
    → AreRising low (xs ++ high ∷ []) (suc high)
AreRising-append low high [] h = (h, omega arith)
AreRising-append low high (x ∷ xs) h = (h.0, AreRising-append (suc x) high xs h.1)

pub AreRising-without_waiter :
    (low high w : ℕ) (xs : List ℕ)
    → AreRising low xs high
    → AreRising low (without_waiter w xs).0 high
unfolding without_waiter
AreRising-without_waiter low high w [] h = h
AreRising-without_waiter low high w (x ∷ xs) h = elim (Bool-cases (x == w)) [
  | inl e ↦ rw e (AreRising-lower (suc x) low high xs (omega (arith, h.0)) h.1)
  | inr e ↦ rw e (h.0, AreRising-without_waiter (suc x) high w xs h.1)
]

-- Below the first number none is in the list.
pub AreRising-none :
    (low high x : ℕ) (xs : List ℕ) → AreRising low xs high → x < low → occurrences x xs ≡ 0
AreRising-none low high x [] h l = refl
AreRising-none low high x (y ∷ ys) h l = ground (arith, h.0, AreRising-none (suc y) high x ys h.1)

-- Where a number of the list has no lower one in it, it is the first.
pub AreRising-first :
    (low high w : ℕ) (xs : List ℕ)
    → AreRising low xs high
    → occurrences w xs ≢ 0
    → ((x : ℕ) → x < w → occurrences x xs ≡ 0)
    → (rest : List ℕ) × (xs ≡ w ∷ rest)
AreRising-first low high w [] h o least = absurd (o refl)
AreRising-first low high w (x ∷ xs) h o least = elim (Bool-cases (x == w)) [
  | inl e ↦ (xs, ground (arith, e))
  | inr e ↦ elim (Bool-cases (ltb x w)) [
    | inl l ↦ absurd (ground (arith, least x (ground (arith, l))))
    | inr l ↦ absurd (o (ground (arith, e, l, AreRising-none (suc x) high w xs h.1)))
  ]
]

pub Zero-cases : (n : ℕ) → (n ≡ 0) ⊎ (n ≢ 0)
Zero-cases zero = inl refl
Zero-cases (suc n) = inr (λ e. omega (arith, e))

pub List-cases {ℓ} :
    {A : Type ℓ} (xs : List A) → (xs ≡ []) ⊎ ((x : A) × (rest : List A) × (xs ≡ x ∷ rest))
List-cases [] = inl refl
List-cases (x ∷ xs) = inr (x, xs, refl)
