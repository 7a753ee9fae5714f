-- ===== src/Cache/Memory/Lighter.antt =====
-- The calls that take no bytes more (internal/responsecache/cache.go).
use deep_seek_web_to_api.Prelude.{
  ℕ, ◌+◌, ◌≤◌, ◌≡◌, refl, ◌∙◌, List, [], ◌∷◌, length, ltb, leb, ◌==◌, arith, Bool-cases,
  Option-cases, inl, inr,
}
use Prim.Native.Nat.{min}
use deep_seek_web_to_api.Prelude.Text.{String, str_eq, is_empty}
use deep_seek_web_to_api.Prelude.Dict.{Dict, lookup}
use deep_seek_web_to_api.Cache.Memory.{
  MemoryEntry, Cache, remove_from_session, drop_item, is_over, sweep_items,
  bump_single_entry_expiry, bump_siblings, bump_session, bump_memory_expiry, refresh_session,
}

-- No more bytes than before, under the same limit.
abbrev pub IsLighter : Cache → Cache → Type 0
IsLighter c d = (d.memory_max_bytes ≡ c.memory_max_bytes) × (d.memory_bytes ≤ c.memory_bytes)

IsLighter-trans : (c d e : Cache) → IsLighter c d → IsLighter d e → IsLighter c e
IsLighter-trans c d e (same, less) (same', less') = (same' ∙ same, omega (arith, less, less'))

pub drop_item-IsLighter :
    (key : String) (item : MemoryEntry) (c : Cache) → IsLighter c (drop_item key item c)
unfolding drop_item remove_from_session
drop_item-IsLighter key item c = (refl, omega arith)

pub sweep_items-IsLighter :
    (rest : Dict MemoryEntry) (now : ℕ) (c : Cache) → IsLighter c (sweep_items rest now c)
unfolding sweep_items
sweep_items-IsLighter [] now c = (refl, omega arith)
sweep_items-IsLighter ((key, item) ∷ rest) now c = elim (Bool-cases (is_over now item)) [
  | inl e ↦
      rw (sweep_items, e)
        (IsLighter-trans c (drop_item key item c) (sweep_items rest now (drop_item key item c))
          (drop_item-IsLighter key item c) (sweep_items-IsLighter rest now (drop_item key item c)))
  | inr e ↦ rw (sweep_items, e) (sweep_items-IsLighter rest now c)
]

bump_single-IsLighter :
    (key : String) (item : MemoryEntry) (now ttl : ℕ) (c : Cache)
    → IsLighter c (bump_single_entry_expiry key item now ttl c)
unfolding bump_single_entry_expiry
bump_single-IsLighter key item now ttl c =
    elim (Bool-cases (ltb item.memory_expires_at (min (now + ttl) item.entry.disk_expires_at))) [
      | inl e ↦ rw (bump_single_entry_expiry, e) (refl, omega arith)
      | inr e ↦ rw (bump_single_entry_expiry, e) (refl, omega arith)
    ]

bump_siblings-IsLighter :
    (siblings : List String) (key : String) (now ttl : ℕ) (c : Cache)
    → IsLighter c (bump_siblings siblings key now ttl c)
unfolding bump_siblings
bump_siblings-IsLighter [] key now ttl c = (refl, omega arith)
bump_siblings-IsLighter (sibling ∷ rest) key now ttl c = elim (Bool-cases (str_eq sibling key)) [
  | inl b ↦ rw (bump_siblings, b) (bump_siblings-IsLighter rest key now ttl c)
  | inr b ↦ elim (Option-cases (lookup sibling c.items)) [
    | inl e ↦ rw (bump_siblings, b, e) (bump_siblings-IsLighter rest key now ttl c)
    | inr (item, e) ↦
        let bumped = bump_single_entry_expiry sibling item now ttl c in
        rw (bump_siblings, b, e)
          (IsLighter-trans c bumped (bump_siblings rest key now ttl bumped)
            (bump_single-IsLighter sibling item now ttl c)
            (bump_siblings-IsLighter rest key now ttl bumped))
  ]
]

pub refresh_session-IsLighter :
    (session key : String) (now : ℕ) (c : Cache) → IsLighter c (refresh_session session key now c)
unfolding refresh_session
refresh_session-IsLighter session key now c = elim (Bool-cases (is_empty session)) [
  | inl b ↦ rw (refresh_session, b) (refl, omega arith)
  | inr b ↦ elim (Option-cases (lookup session c.session_entries)) [
    | inl e ↦ rw (refresh_session, b, e) (refl, omega arith)
    | inr (siblings, e) ↦
        rw (refresh_session, b, e) (bump_siblings-IsLighter siblings key now c.memory_ttl c)
  ]
]

bump_session-IsLighter :
    (session key : String) (now : ℕ) (c : Cache) → IsLighter c (bump_session session key now c)
unfolding bump_session
bump_session-IsLighter session key now c = elim (Bool-cases (is_empty session)) [
  | inl b ↦ rw (bump_session, b) (refl, omega arith)
  | inr b ↦ elim (Option-cases (lookup session c.session_entries)) [
    | inl e ↦ rw (bump_session, b, e) (refl, omega arith)
    | inr (siblings, e) ↦ elim (Bool-cases (leb (length siblings) 1)) [
      | inl g ↦ rw (bump_session, b, e, g) (refl, omega arith)
      | inr g ↦ rw (bump_session, b, e, g) (bump_siblings-IsLighter siblings key now c.memory_ttl c)
    ]
  ]
]

pub bump_memory_expiry-IsLighter :
    (key : String) (now : ℕ) (c : Cache) → IsLighter c (bump_memory_expiry key now c)
unfolding bump_memory_expiry
bump_memory_expiry-IsLighter key now c = elim (Option-cases (lookup key c.items)) [
  | inl e ↦ rw (bump_memory_expiry, e) (refl, omega arith)
  | inr (item, e) ↦ elim (Bool-cases (c.memory_ttl == 0)) [
    | inl b ↦ rw (bump_memory_expiry, e, b) (refl, omega arith)
    | inr b ↦
        let bumped = bump_single_entry_expiry key item now c.memory_ttl c in
        rw (bump_memory_expiry, e, b)
          (IsLighter-trans c bumped (bump_session item.session_key key now bumped)
            (bump_single-IsLighter key item now c.memory_ttl c)
            (bump_session-IsLighter item.session_key key now bumped))
  ]
]
