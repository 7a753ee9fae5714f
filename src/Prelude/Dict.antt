-- ===== src/Prelude/Dict.antt =====
-- A Go map with string keys, as a list of entries with distinct keys. No operation of the modelled
-- code depends on the order in which a map is walked.
use deep_seek_web_to_api.Prelude.{
  ℕ, ◌+◌, ◌≤◌, ◌≡◌, refl, Option, none, some, List, [], ◌∷◌, arith, if◌then◌else◌,
}
use deep_seek_web_to_api.Prelude.Text.{String, str_eq, eq_iff}

abbrev pub Dict {ℓ} : Type ℓ → Type ℓ
Dict V = List (String × V)

module _ {ℓ} {V : Type ℓ} where
  -- v, ok := m[k]
  abbrev pub lookup : String → Dict V → Option V
  lookup k [] = none
  lookup k ((j, v) ∷ m) = if str_eq j k then some v else lookup k m

  -- m[k] = v
  abbrev pub insert : String → V → Dict V → Dict V
  insert k v [] = (k, v) ∷ []
  insert k v ((j, w) ∷ m) = if str_eq j k then (k, v) ∷ m else (j, w) ∷ insert k v m

  -- delete(m, k)
  abbrev pub delete : String → Dict V → Dict V
  delete k [] = []
  delete k ((j, w) ∷ m) = let rest = delete k m in if str_eq j k then rest else (j, w) ∷ rest

  pub lookup-insert :
      (k j : String) (v : V) (m : Dict V)
      → lookup j (insert k v m) ≡ (if str_eq k j then some v else lookup j m)
  lookup-insert k j v [] = refl
  lookup-insert k j v ((i, w) ∷ m) =
      ground (arith, eq_iff k j, eq_iff i k, eq_iff i j, lookup-insert k j v m)

  pub lookup-delete :
      (k j : String) (m : Dict V)
      → lookup j (delete k m) ≡ (if str_eq k j then none else lookup j m)
  lookup-delete k j [] = ground arith
  lookup-delete k j ((i, w) ∷ m) =
      ground (arith, eq_iff k j, eq_iff i k, eq_iff i j, lookup-delete k j m)

  -- Each key stands once.
  abbrev pub Distinct : Dict V → Type ℓ
  Distinct [] = Unit
  Distinct ((j, v) ∷ m) = (lookup j m ≡ none) × Distinct m

  pub insert-Distinct : (k : String) (v : V) (m : Dict V) → Distinct m → Distinct (insert k v m)
  insert-Distinct k v [] h = (refl, tt)
  insert-Distinct k v ((j, w) ∷ m) h =
      ground (arith, eq_iff j k, eq_iff k j, insert-Distinct k v m h.1, lookup-insert k j v m)

  pub delete-Distinct : (k : String) (m : Dict V) → Distinct m → Distinct (delete k m)
  delete-Distinct k [] h = tt
  delete-Distinct k ((j, w) ∷ m) h =
      ground (arith, delete-Distinct k m h.1, lookup-delete k j m, eq_iff k j)

  pub delete-absent : (k : String) (m : Dict V) → lookup k m ≡ none → delete k m ≡ m
  delete-absent k [] h = refl
  delete-absent k ((j, w) ∷ m) h = ground (arith, delete-absent k m)

-- m[k] where a missing key reads as 0.
abbrev pub count : String → Dict ℕ → ℕ
count k m = elim (lookup k m) [ none ↦ 0 | some n ↦ n ]

abbrev pub total : Dict ℕ → ℕ
total [] = 0
total ((k, n) ∷ m) = n + total m

pub total-insert :
    (k : String) (v : ℕ) (m : Dict ℕ) → total (insert k v m) + count k m ≡ total m + v
total-insert k v [] = omega arith
total-insert k v ((j, w) ∷ m) = ground (arith, total-insert k v m)

pub total-delete : (k : String) (m : Dict ℕ) → Distinct m → total (delete k m) + count k m ≡ total m
total-delete k [] h = omega arith
total-delete k ((j, w) ∷ m) h = ground (arith, total-delete k m h.1, eq_iff j k, delete-absent k m)

pub count-le-total : (k : String) (m : Dict ℕ) → count k m ≤ total m
count-le-total k [] = omega arith
count-le-total k ((j, w) ∷ m) = ground (arith, count-le-total k m)

pub count-insert :
    (k j : String) (v : ℕ) (m : Dict ℕ)
    → count j (insert k v m) ≡ (if str_eq k j then v else count j m)
count-insert k j v m = ground (arith, lookup-insert k j v m)

pub count-delete :
    (k j : String) (m : Dict ℕ) → count j (delete k m) ≡ (if str_eq k j then 0 else count j m)
count-delete k j m = ground (arith, lookup-delete k j m)
