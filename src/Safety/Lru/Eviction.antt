-- ===== src/Safety/Lru/Eviction.antt =====
-- The map agrees with the list, and the loop that evicts (internal/safetyllm/cache.go).
use deep_seek_web_to_api.Prelude.{
  ℕ, zero, suc, ◌+◌, ◌-◌, ◌≤◌, ◌<◌, ◌≡◌, refl, sym, ap, ◌∙◌, none, some, List, [], ◌∷◌, length, leb,
  if◌then◌else◌, arith, Bool-cases, Option-cases, inl, inr, take,
}
use deep_seek_web_to_api.Prelude.Text.{String, str_eq, eq_iff}
use deep_seek_web_to_api.Prelude.Dict.{lookup, insert, delete, lookup-insert, lookup-delete}
use deep_seek_web_to_api.Safety.Lru.{CacheEntry, LruCache, remove, back, evict}
use deep_seek_web_to_api.Safety.Lru.Elements.{
  entries, without, element_of, IsList, remove-without, value_of-remove, element_of-remove,
  remove-IsList, element_of-below, value_of-fresh, IsList-suc, back-last, back-none, length-entries,
  length-without,
}

-- The list is one, and the map takes each key to its element.
abbrev pub Agrees : LruCache → Type 0
Agrees c = IsList c.next c.order × ((k : String) → lookup k c.items ≡ element_of k c.order)

-- The element of a key leaves the list and the map.
pub dropped-Agrees :
    (k : String) (el : ℕ) (c : LruCache)
    → Agrees c
    → element_of k c.order ≡ some el
    → Agrees (record c { items = delete k c.items; order = remove el c.order })
dropped-Agrees k el c (l, same) h = (
  remove-IsList c.next k el c.order l h,
  λ j.
      lookup-delete k j c.items
      ∙ ap (λ r. if str_eq k j then none else r) (same j)
      ∙ sym (element_of-remove c.next k j el c.order l h),
)

-- The element of a key moves to the front, with an entry of that key.
pub front-Agrees :
    (k : String) (el : ℕ) (e : CacheEntry) (c : LruCache)
    → Agrees c
    → element_of k c.order ≡ some el
    → e.key ≡ k
    → Agrees (record c { order = (el, e) ∷ remove el c.order })
front-Agrees k el e c (l, same) h named = (
  (
    ground (arith, value_of-remove el el c.order),
    ground (arith, element_of-remove c.next k e.key el c.order l h, named, eq_iff k e.key),
    element_of-below c.next k el c.order l h,
    remove-IsList c.next k el c.order l h,
  ),
  λ j.
      same j
      ∙ ground (
        arith,
        element_of-remove c.next k j el c.order l h,
        h,
        named,
        eq_iff e.key j,
        eq_iff k j,
      ),
)

-- A new element at the front, for a key that has none.
pub pushed-Agrees :
    (e : CacheEntry) (c : LruCache)
    → Agrees c
    → element_of e.key c.order ≡ none
    → Agrees (record c {
      items = insert e.key c.next c.items;
      order = (c.next, e) ∷ c.order;
      next = c.next + 1;
    })
pushed-Agrees e c (l, same) h = (
  (value_of-fresh c.next c.order l, h, omega arith, IsList-suc c.next c.order l),
  λ j.
      lookup-insert e.key j c.next c.items
      ∙ ap (λ r. if str_eq e.key j then some c.next else r) (same j),
)

-- Fewer of the first entries.
take-fewer : (m n : ℕ) (es : List CacheEntry) → m ≤ n → take m (take n es) ≡ take m es
take-fewer zero n es h = refl
take-fewer (suc m) zero es h = absurd (omega arith)
take-fewer (suc m) (suc n) [] h = refl
take-fewer (suc m) (suc n) (e ∷ es) h = ap (λ r. e ∷ r) (take-fewer m n es (omega arith))

pub take-all : (n : ℕ) (es : List CacheEntry) → length es ≤ n → take n es ≡ es
take-all zero [] h = refl
take-all zero (e ∷ es) h = absurd (omega (arith, h))
take-all (suc n) [] h = refl
take-all (suc n) (e ∷ es) h = ap (λ r. e ∷ r) (take-all n es (omega (arith, h)))

removed-shorter :
    (next : ℕ) (k : String) (el : ℕ) (order : List (ℕ × CacheEntry))
    → IsList next order
    → element_of k order ≡ some el
    → length (remove el order) < length order
removed-shorter next k el order l h =
    let same : length (entries (remove el order)) ≡ length (without k (entries order)) =
      ap (λ r. length r) (remove-without next k el order l h) in
    omega (arith, same, length-entries (remove el order), length-without k el order h)

-- The loop leaves the first entries, as many as are allowed.
pub evict-refines :
    (fuel : ℕ) (c : LruCache)
    → Agrees c
    → length c.order ≤ c.max + fuel
    → Agrees (evict fuel c)
      × (entries (evict fuel c).order ≡ take c.max (entries c.order))
      × ((evict fuel c).max ≡ c.max)
unfolding evict
evict-refines zero c agrees enough = (
  agrees,
  sym (take-all c.max (entries c.order) (omega (arith, enough, length-entries c.order))),
  refl,
)
evict-refines (suc fuel) c (l, same) enough = elim (Bool-cases (leb (length c.order) c.max)) [
  | inl b ↦
      rw (evict, b)
        (
          (l, same),
          sym (take-all c.max (entries c.order) (ground (arith, b, length-entries c.order))),
          refl,
        )
  | inr b ↦ elim (Option-cases (back c.order)) [
    | inl e ↦
        let empty = back-none c.order e in
        let short : length c.order ≡ 0 = ap (λ r. length r) empty in
        absurd (ground (arith, b, short))
    | inr ((el, e), h) ↦
        let (found, last) = back-last c.next el e c.order l h in
        let rest : LruCache = record c {
          items = delete e.key c.items;
          order = remove el c.order;
        } in
        let less = remove-without c.next e.key el c.order l found ∙ last in
        let cut : length (remove el c.order) < length c.order =
          removed-shorter c.next e.key el c.order l found in
        let shorter : length rest.order ≤ c.max + fuel = omega (arith, cut, enough) in
        let (agrees, kept, max) =
          evict-refines fuel rest (dropped-Agrees e.key el c (l, same) found) shorter in
        rw (evict, b, h)
          (
            agrees,
            kept
                ∙ ap (λ r. take c.max r) less
                ∙ take-fewer c.max (length c.order - 1) (entries c.order) (ground (arith, b)),
            max,
          )
  ]
]
