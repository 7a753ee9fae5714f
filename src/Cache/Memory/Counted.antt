-- ===== src/Cache/Memory/Counted.antt =====
-- The bytes that are counted are those of the items (internal/responsecache/cache.go).
use deep_seek_web_to_api.Prelude.{
  ℕ, ◌+◌, ◌-◌, ◌≤◌, ◌≡◌, refl, ◌&&◌, not, none, some, List, [], ◌∷◌, length, ltb, leb, ◌==◌, arith,
  Bool-cases, Option-cases, inl, inr,
}
use Prim.Native.Nat.{min}
use deep_seek_web_to_api.Prelude.Text.{String, str_eq, is_empty, eq_iff}
use deep_seek_web_to_api.Prelude.Dict.{
  Dict, lookup, insert, delete, lookup-delete, Distinct, insert-Distinct, delete-Distinct,
  delete-absent,
}
use deep_seek_web_to_api.Cache.Memory.{
  MemoryEntry, Cache, add_to_session, remove_from_session, drop_item, is_over, sweep_items,
  sweep_memory, bump_single_entry_expiry, bump_siblings, bump_session, bump_memory_expiry,
  replace_old, refresh_session, store_item,
}

-- The bytes of all items, and those of one.
abbrev pub sizes : Dict MemoryEntry → ℕ
sizes [] = 0
sizes ((k, item) ∷ items) = item.size + sizes items

abbrev pub size_at : String → Dict MemoryEntry → ℕ
size_at k items = elim (lookup k items) [ none ↦ 0 | some item ↦ item.size ]

sizes-insert :
    (k : String) (item : MemoryEntry) (items : Dict MemoryEntry)
    → sizes (insert k item items) + size_at k items ≡ sizes items + item.size
sizes-insert k item [] = omega arith
sizes-insert k item ((j, other) ∷ items) = ground (arith, sizes-insert k item items)

sizes-delete :
    (k : String) (items : Dict MemoryEntry)
    → Distinct items
    → sizes (delete k items) + size_at k items ≡ sizes items
sizes-delete k [] h = omega arith
sizes-delete k ((j, other) ∷ items) h =
    ground (arith, sizes-delete k items h.1, eq_iff j k, delete-absent k items)

pub size_at-le : (k : String) (items : Dict MemoryEntry) → size_at k items ≤ sizes items
size_at-le k [] = omega arith
size_at-le k ((j, other) ∷ items) = ground (arith, size_at-le k items)

-- The bytes counted are those of the items, and each key has one item.
abbrev pub IsCounted : Cache → Type 0
IsCounted c = (c.memory_bytes ≡ sizes c.items) × Distinct c.items

pub drop_item-IsCounted :
    (key : String) (item : MemoryEntry) (c : Cache)
    → lookup key c.items ≡ some item
    → IsCounted c
    → IsCounted (drop_item key item c)
unfolding drop_item remove_from_session
drop_item-IsCounted key item c found (bytes, once) =
    let size : size_at key c.items ≡ item.size = rw (size_at, found) refl in
    (omega (arith, bytes, size, sizes-delete key c.items once), delete-Distinct key c.items once)

-- All that the one map holds stands in the other.
abbrev pub IsPart : Dict MemoryEntry → Dict MemoryEntry → Type 0
IsPart part items =
    (k : String) (item : MemoryEntry) → lookup k part ≡ some item → lookup k items ≡ some item

pub IsPart-head :
    (key : String) (item : MemoryEntry) (rest items : Dict MemoryEntry)
    → IsPart ((key, item) ∷ rest) items
    → lookup key items ≡ some item
IsPart-head key item rest items part = part key item (ground (arith, eq_iff key key))

pub IsPart-rest :
    (key : String) (item : MemoryEntry) (rest items : Dict MemoryEntry)
    → lookup key rest ≡ none
    → IsPart ((key, item) ∷ rest) items
    → IsPart rest items
IsPart-rest key item rest items once part k other h =
    part k other (ground (arith, eq_iff key k, h, once))

-- An item that the part does not hold may leave the map.
pub IsPart-delete :
    (key : String) (rest items : Dict MemoryEntry)
    → lookup key rest ≡ none
    → IsPart rest items
    → IsPart rest (delete key items)
IsPart-delete key rest items once part k other h =
    ground (arith, eq_iff key k, h, once, part k other h, lookup-delete key k items)

sweep_items-IsCounted :
    (rest : Dict MemoryEntry) (now : ℕ) (c : Cache)
    → Distinct rest
    → IsPart rest c.items
    → IsCounted c
    → IsCounted (sweep_items rest now c)
unfolding sweep_items drop_item remove_from_session
sweep_items-IsCounted [] now c once part counted = counted
sweep_items-IsCounted ((key, item) ∷ rest) now c (first, once) part counted =
    let found = IsPart-head key item rest c.items part in
    let later = IsPart-rest key item rest c.items first part in
    elim (Bool-cases (is_over now item)) [
      | inl e ↦
          rw (sweep_items, e)
            (sweep_items-IsCounted rest now (drop_item key item c) once
              (IsPart-delete key rest c.items first later)
              (drop_item-IsCounted key item c found counted))
      | inr e ↦ rw (sweep_items, e) (sweep_items-IsCounted rest now c once later counted)
    ]

pub sweep_memory-IsCounted : (now : ℕ) (c : Cache) → IsCounted c → IsCounted (sweep_memory now c)
unfolding sweep_memory
sweep_memory-IsCounted now c counted =
    sweep_items-IsCounted c.items now c counted.1 (λ k item h. h) counted

bump_single-IsCounted :
    (key : String) (item : MemoryEntry) (now ttl : ℕ) (c : Cache)
    → lookup key c.items ≡ some item
    → IsCounted c
    → IsCounted (bump_single_entry_expiry key item now ttl c)
unfolding bump_single_entry_expiry
bump_single-IsCounted key item now ttl c found (bytes, once) =
    let extended = min (now + ttl) item.entry.disk_expires_at in
    let longer : MemoryEntry = record item { memory_expires_at = extended } in
    let size : size_at key c.items ≡ item.size = rw (size_at, found) refl in
    elim (Bool-cases (ltb item.memory_expires_at extended)) [
      | inl e ↦
          rw (bump_single_entry_expiry, e)
            (
              omega (arith, bytes, size, sizes-insert key longer c.items),
              insert-Distinct key longer c.items once,
            )
      | inr e ↦ rw (bump_single_entry_expiry, e) (bytes, once)
    ]

bump_siblings-IsCounted :
    (siblings : List String) (key : String) (now ttl : ℕ) (c : Cache)
    → IsCounted c
    → IsCounted (bump_siblings siblings key now ttl c)
unfolding bump_siblings
bump_siblings-IsCounted [] key now ttl c counted = counted
bump_siblings-IsCounted (sibling ∷ rest) key now ttl c counted =
    elim (Bool-cases (str_eq sibling key)) [
      | inl b ↦ rw (bump_siblings, b) (bump_siblings-IsCounted rest key now ttl c counted)
      | inr b ↦ elim (Option-cases (lookup sibling c.items)) [
        | inl e ↦ rw (bump_siblings, b, e) (bump_siblings-IsCounted rest key now ttl c counted)
        | inr (item, e) ↦
            rw (bump_siblings, b, e)
              (bump_siblings-IsCounted rest key now ttl
                (bump_single_entry_expiry sibling item now ttl c)
                (bump_single-IsCounted sibling item now ttl c e counted))
      ]
    ]

bump_session-IsCounted :
    (session key : String) (now : ℕ) (c : Cache)
    → IsCounted c
    → IsCounted (bump_session session key now c)
unfolding bump_session
bump_session-IsCounted session key now c counted = elim (Bool-cases (is_empty session)) [
  | inl b ↦ rw (bump_session, b) counted
  | inr b ↦ elim (Option-cases (lookup session c.session_entries)) [
    | inl e ↦ rw (bump_session, b, e) counted
    | inr (siblings, e) ↦ elim (Bool-cases (leb (length siblings) 1)) [
      | inl g ↦ rw (bump_session, b, e, g) counted
      | inr g ↦
          rw (bump_session, b, e, g)
            (bump_siblings-IsCounted siblings key now c.memory_ttl c counted)
    ]
  ]
]

pub bump_memory_expiry-IsCounted :
    (key : String) (now : ℕ) (c : Cache) → IsCounted c → IsCounted (bump_memory_expiry key now c)
unfolding bump_memory_expiry
bump_memory_expiry-IsCounted key now c counted = elim (Option-cases (lookup key c.items)) [
  | inl e ↦ rw (bump_memory_expiry, e) counted
  | inr (item, e) ↦ elim (Bool-cases (c.memory_ttl == 0)) [
    | inl b ↦ rw (bump_memory_expiry, e, b) counted
    | inr b ↦
        rw (bump_memory_expiry, e, b)
          (bump_session-IsCounted item.session_key key now
            (bump_single_entry_expiry key item now c.memory_ttl c)
            (bump_single-IsCounted key item now c.memory_ttl c e counted))
  ]
]

pub refresh_session-IsCounted :
    (session key : String) (now : ℕ) (c : Cache)
    → IsCounted c
    → IsCounted (refresh_session session key now c)
unfolding refresh_session
refresh_session-IsCounted session key now c counted = elim (Bool-cases (is_empty session)) [
  | inl b ↦ rw (refresh_session, b) counted
  | inr b ↦ elim (Option-cases (lookup session c.session_entries)) [
    | inl e ↦ rw (refresh_session, b, e) counted
    | inr (siblings, e) ↦
        rw (refresh_session, b, e) (bump_siblings-IsCounted siblings key now c.memory_ttl c counted)
  ]
]

replace_old-bytes :
    (key session : String) (c : Cache)
    → ((replace_old key session c).items ≡ c.items)
      × ((replace_old key session c).memory_bytes ≡ c.memory_bytes - size_at key c.items)
unfolding replace_old remove_from_session
replace_old-bytes key session c = elim (Option-cases (lookup key c.items)) [
  | inl e ↦ rw (replace_old, size_at, e) (refl, omega arith)
  | inr (old, e) ↦
      elim (Bool-cases (not (is_empty old.session_key) && not (str_eq old.session_key session))) [
        | inl b ↦ rw (replace_old, size_at, e, b) (refl, refl)
        | inr b ↦ rw (replace_old, size_at, e, b) (refl, refl)
      ]
]

pub store_item-IsCounted :
    (key : String) (item : MemoryEntry) (c : Cache)
    → IsCounted c
    → IsCounted (store_item key item c)
unfolding store_item add_to_session
store_item-IsCounted key item c (bytes, once) =
    let (same, lighter) = replace_old-bytes key item.session_key c in
    rw same (
      omega (arith, bytes, lighter, sizes-insert key item c.items, size_at-le key c.items),
      insert-Distinct key item c.items once,
    )
