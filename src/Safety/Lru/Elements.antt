-- ===== src/Safety/Lru/Elements.antt =====
-- The elements of the list and the keys of the map (internal/safetyllm/cache.go).
use deep_seek_web_to_api.Prelude.{
  ℕ, suc, ◌+◌, ◌-◌, ◌≤◌, ◌<◌, ◌≡◌, ◌≢◌, refl, ap, ◌∙◌, false, Option, none, some, List, [], ◌∷◌,
  length, ◌==◌, if◌then◌else◌, arith, Bool-cases, inl, inr, take,
}
use deep_seek_web_to_api.Prelude.Text.{String, str_eq, eq_iff}
use deep_seek_web_to_api.Safety.Lru.{CacheEntry, value_of, remove, back}

-- What a caller sees: the entries, the one used last first.
abbrev pub entries : List (ℕ × CacheEntry) → List CacheEntry
entries [] = []
entries ((i, e) ∷ order) = e ∷ entries order

abbrev pub entry_at : String → List CacheEntry → Option CacheEntry
entry_at k [] = none
entry_at k (e ∷ es) = let later = entry_at k es in if str_eq e.key k then some e else later

abbrev pub without : String → List CacheEntry → List CacheEntry
without k [] = []
without k (e ∷ es) = let rest = without k es in if str_eq e.key k then rest else e ∷ rest

-- The element of a key.
abbrev pub element_of : String → List (ℕ × CacheEntry) → Option ℕ
element_of k [] = none
element_of k ((i, e) ∷ order) =
    let later = element_of k order in if str_eq e.key k then some i else later

-- Each element and each key stands once, and the numbers are below the next one.
abbrev pub IsList : ℕ → List (ℕ × CacheEntry) → Type 0
IsList next [] = Unit
IsList next ((i, e) ∷ order) =
    (value_of i order ≡ none) × (element_of e.key order ≡ none) × (i < next) × IsList next order

pub remove-absent :
    (el : ℕ) (order : List (ℕ × CacheEntry)) → value_of el order ≡ none → remove el order ≡ order
unfolding remove value_of
remove-absent el [] h = refl
remove-absent el ((i, e) ∷ order) h = ground (arith, remove-absent el order, h)

pub without-absent :
    (k : String) (order : List (ℕ × CacheEntry))
    → element_of k order ≡ none
    → without k (entries order) ≡ entries order
without-absent k [] h = refl
without-absent k ((i, e) ∷ order) h = ground (arith, without-absent k order, h)

pub element_of-value :
    (next : ℕ) (k : String) (el : ℕ) (order : List (ℕ × CacheEntry))
    → IsList next order
    → element_of k order ≡ some el
    → value_of el order ≢ none
unfolding value_of
element_of-value next k el [] l h = cc h
element_of-value next k el ((i, e) ∷ order) (once, single, below, l) h =
    λ absent. ground (arith, element_of-value next k el order l, h, absent)

-- The element of a key has the entry of that key.
pub value_of-entry :
    (next : ℕ) (k : String) (el : ℕ) (order : List (ℕ × CacheEntry))
    → IsList next order
    → element_of k order ≡ some el
    → value_of el order ≡ entry_at k (entries order)
unfolding value_of
value_of-entry next k el [] l h = refl
value_of-entry next k el ((i, e) ∷ order) (once, single, below, l) h =
    ground (arith, value_of-entry next k el order l, element_of-value next k el order l, h, once)

-- Where the element of a key leaves the list, the entry of that key leaves what is seen.
pub remove-without :
    (next : ℕ) (k : String) (el : ℕ) (order : List (ℕ × CacheEntry))
    → IsList next order
    → element_of k order ≡ some el
    → entries (remove el order) ≡ without k (entries order)
unfolding remove value_of
remove-without next k el [] l h = refl
remove-without next k el ((i, e) ∷ order) (once, single, below, l) h =
    elim (Bool-cases (str_eq e.key k)) [
      | inl b ↦ ground (
        arith,
        eq_iff e.key k,
        b,
        h,
        once,
        single,
        remove-absent el order,
        without-absent k order,
      )
      | inr b ↦
          ground (
            arith,
            b,
            h,
            once,
            element_of-value next k el order l,
            remove-without next k el order l,
          )
    ]

pub value_of-remove :
    (el i : ℕ) (order : List (ℕ × CacheEntry))
    → value_of i (remove el order) ≡ (if el == i then none else value_of i order)
unfolding remove value_of
value_of-remove el i [] = ground arith
value_of-remove el i ((j, e) ∷ order) = ground (arith, value_of-remove el i order)

pub element_of-remove :
    (next : ℕ) (k j : String) (el : ℕ) (order : List (ℕ × CacheEntry))
    → IsList next order
    → element_of k order ≡ some el
    → element_of j (remove el order) ≡ (if str_eq k j then none else element_of j order)
unfolding remove value_of
element_of-remove next k j el [] l h = cc h
element_of-remove next k j el ((i, e) ∷ order) (once, single, below, l) h =
    elim (Bool-cases (str_eq e.key k)) [
      | inl b ↦ ground (
        arith,
        eq_iff e.key k,
        eq_iff e.key j,
        eq_iff k j,
        b,
        h,
        once,
        single,
        remove-absent el order,
      )
      | inr b ↦ ground (
        arith,
        eq_iff e.key k,
        eq_iff e.key j,
        eq_iff k j,
        b,
        h,
        once,
        element_of-value next k el order l,
        element_of-remove next k j el order l,
      )
    ]

pub remove-IsList :
    (next : ℕ) (k : String) (el : ℕ) (order : List (ℕ × CacheEntry))
    → IsList next order
    → element_of k order ≡ some el
    → IsList next (remove el order)
unfolding remove value_of
remove-IsList next k el [] l h = tt
remove-IsList next k el ((i, e) ∷ order) (once, single, below, l) h =
    elim (Bool-cases (str_eq e.key k)) [
      | inl b ↦ ground (arith, eq_iff e.key k, b, h, once, single, l, remove-absent el order)
      | inr b ↦ ground (
        arith,
        b,
        h,
        once,
        single,
        below,
        remove-IsList next k el order l,
        value_of-remove el i order,
        element_of-remove next k e.key el order l,
        eq_iff k e.key,
        eq_iff e.key k,
        element_of-value next k el order l,
      )
    ]

pub element_of-below :
    (next : ℕ) (k : String) (el : ℕ) (order : List (ℕ × CacheEntry))
    → IsList next order
    → element_of k order ≡ some el
    → el < next
element_of-below next k el [] l h = cc h
element_of-below next k el ((i, e) ∷ order) (once, single, below, l) h =
    ground (arith, element_of-below next k el order l, h, below)

pub value_of-fresh :
    (next : ℕ) (order : List (ℕ × CacheEntry)) → IsList next order → value_of next order ≡ none
unfolding value_of
value_of-fresh next [] l = refl
value_of-fresh next ((i, e) ∷ order) (once, single, below, l) =
    ground (arith, value_of-fresh next order l, below)

pub IsList-suc :
    (next : ℕ) (order : List (ℕ × CacheEntry)) → IsList next order → IsList (next + 1) order
IsList-suc next [] l = tt
IsList-suc next ((i, e) ∷ order) (once, single, below, l) =
    (once, single, omega (arith, below), IsList-suc next order l)

-- The key of an entry that is found.
pub entry_at-key :
    (k : String) (es : List CacheEntry) (e : CacheEntry) → entry_at k es ≡ some e → e.key ≡ k
entry_at-key k [] e h = cc h
entry_at-key k (x ∷ es) e h = ground (arith, eq_iff x.key k, entry_at-key k es e, h)

pub entry_at-absent :
    (k : String) (order : List (ℕ × CacheEntry))
    → element_of k order ≡ none
    → entry_at k (entries order) ≡ none
entry_at-absent k [] h = refl
entry_at-absent k ((i, e) ∷ order) h = ground (arith, entry_at-absent k order, h)

-- The entry at the back is that of its key, and what is seen without it is all but the last entry.
pub back-last :
    (next : ℕ) (el : ℕ) (e : CacheEntry) (order : List (ℕ × CacheEntry))
    → IsList next order
    → back order ≡ some (el, e)
    → (element_of e.key order ≡ some el)
      × (without e.key (entries order) ≡ take (length order - 1) (entries order))
unfolding back
back-last next el e [] l h = cc h
back-last next el e ((i, x) ∷ []) l h = ground (arith, h, eq_iff x.key e.key)
back-last next el e ((i, x) ∷ y ∷ order) (once, single, below, l) h =
    let (found, last) = back-last next el e (y ∷ order) l h in
    let apart : str_eq x.key e.key ≡ false = ground (arith, found, single, eq_iff x.key e.key) in
    let one_less : suc (length (y ∷ order) - 1) ≡ suc (length (y ∷ order)) - 1 = omega arith in
    rw apart (found, ap (λ r. x ∷ r) last ∙ ap (λ n. take n (x ∷ entries (y ∷ order))) one_less)

pub back-none : (order : List (ℕ × CacheEntry)) → back order ≡ none → order ≡ []
unfolding back
back-none [] h = refl
back-none (x ∷ []) h = cc h
back-none (x ∷ y ∷ order) h = let wrong = back-none (y ∷ order) h in cc wrong

pub length-entries : (order : List (ℕ × CacheEntry)) → length (entries order) ≡ length order
length-entries [] = refl
length-entries ((i, e) ∷ order) = ap suc (length-entries order)

length-without-le :
    (k : String) (order : List (ℕ × CacheEntry)) → length (without k (entries order)) ≤ length order
length-without-le k [] = omega arith
length-without-le k ((i, e) ∷ order) = ground (arith, length-without-le k order)

-- What is seen without a key that it has is shorter.
pub length-without :
    (k : String) (el : ℕ) (order : List (ℕ × CacheEntry))
    → element_of k order ≡ some el
    → length (without k (entries order)) < length order
length-without k el [] h = cc h
length-without k el ((i, e) ∷ order) h =
    ground (arith, h, length-without k el order, length-without-le k order)
