-- ===== src/Cache/Memory/Roundtrip.antt =====
-- An entry that is stored is found (internal/responsecache/cache.go).
use deep_seek_web_to_api.Prelude.{
  ℕ, ◌+◌, ◌≤◌, ◌<◌, ◌≡◌, refl, ◌∙◌, true, false, ◌&&◌, ◌||◌, not, Option, some, List, [], ◌∷◌, ltb,
  leb, ◌==◌, arith, Bool-cases, Option-cases, inl, inr, ◌⊎◌,
}
use Prim.Native.Nat.{min}
use deep_seek_web_to_api.Prelude.Text.{String, str_eq, is_empty, eq_iff}
use deep_seek_web_to_api.Prelude.Dict.{Dict, lookup, lookup-insert, lookup-delete, Distinct}
use deep_seek_web_to_api.Cache.Memory.{
  Entry, MemoryEntry, Cache, memory, add_to_session, remove_from_session, drop_item, is_over,
  sweep_items, sweep_memory, bump_single_entry_expiry, bump_siblings, enforce_memory_limit,
  replace_old, refresh_session, store_item, put_memory, get, get_memory, memory_size,
}
use deep_seek_web_to_api.Cache.Memory.Counted.{IsPart, IsPart-head, IsPart-rest, IsPart-delete}
use deep_seek_web_to_api.Cache.Memory.Bounds.{IsWithin, put_memory-IsWithin}
use deep_seek_web_to_api.Cache.Memory.Lighter.{sweep_items-IsLighter, refresh_session-IsLighter}

sweep_items-keeps :
    (rest : Dict MemoryEntry) (now : ℕ) (c : Cache) (key : String) (item : MemoryEntry)
    → Distinct rest
    → IsPart rest c.items
    → lookup key c.items ≡ some item
    → is_over now item ≡ false
    → lookup key (sweep_items rest now c).items ≡ some item
unfolding sweep_items drop_item remove_from_session
sweep_items-keeps [] now c key item once part found fresh = found
sweep_items-keeps ((k, other) ∷ rest) now c key item (first, once) part found fresh =
    let head = IsPart-head k other rest c.items part in
    let later = IsPart-rest k other rest c.items first part in
    elim (Bool-cases (is_over now other)) [
      | inr e ↦ rw (sweep_items, e) (sweep_items-keeps rest now c key item once later found fresh)
      | inl e ↦
          let apart : str_eq k key ≡ false = ground (arith, eq_iff k key, head, found, e, fresh) in
          rw (sweep_items, e)
            (sweep_items-keeps rest now (drop_item k other c) key item once
              (IsPart-delete k rest c.items first later)
              (lookup-delete k key c.items ∙ rw apart found) fresh)
    ]

bump_single-keeps :
    (sibling key : String) (item : MemoryEntry) (now ttl : ℕ) (c : Cache)
    → str_eq sibling key ≡ false
    → lookup key (bump_single_entry_expiry sibling item now ttl c).items ≡ lookup key c.items
unfolding bump_single_entry_expiry
bump_single-keeps sibling key item now ttl c b =
    let extended = min (now + ttl) item.entry.disk_expires_at in
    let longer : MemoryEntry = record item { memory_expires_at = extended } in
    elim (Bool-cases (ltb item.memory_expires_at extended)) [
      | inl e ↦
          rw (bump_single_entry_expiry, e) (lookup-insert sibling key longer c.items ∙ rw b refl)
      | inr e ↦ rw (bump_single_entry_expiry, e) refl
    ]

bump_siblings-keeps :
    (siblings : List String) (key : String) (now ttl : ℕ) (c : Cache)
    → lookup key (bump_siblings siblings key now ttl c).items ≡ lookup key c.items
unfolding bump_siblings
bump_siblings-keeps [] key now ttl c = refl
bump_siblings-keeps (sibling ∷ rest) key now ttl c = elim (Bool-cases (str_eq sibling key)) [
  | inl b ↦ rw (bump_siblings, b) (bump_siblings-keeps rest key now ttl c)
  | inr b ↦ elim (Option-cases (lookup sibling c.items)) [
    | inl e ↦ rw (bump_siblings, b, e) (bump_siblings-keeps rest key now ttl c)
    | inr (item, e) ↦
        rw (bump_siblings, b, e)
          (bump_siblings-keeps rest key now ttl (bump_single_entry_expiry sibling item now ttl c)
            ∙ bump_single-keeps sibling key item now ttl c b)
  ]
]

refresh_session-keeps :
    (session key : String) (now : ℕ) (c : Cache)
    → lookup key (refresh_session session key now c).items ≡ lookup key c.items
unfolding refresh_session
refresh_session-keeps session key now c = elim (Bool-cases (is_empty session)) [
  | inl b ↦ rw (refresh_session, b) refl
  | inr b ↦ elim (Option-cases (lookup session c.session_entries)) [
    | inl e ↦ rw (refresh_session, b, e) refl
    | inr (siblings, e) ↦
        rw (refresh_session, b, e) (bump_siblings-keeps siblings key now c.memory_ttl c)
  ]
]

replace_old-lighter :
    (key session : String) (c : Cache)
    → ((replace_old key session c).items ≡ c.items)
      × ((replace_old key session c).memory_bytes ≤ c.memory_bytes)
      × ((replace_old key session c).memory_max_bytes ≡ c.memory_max_bytes)
unfolding replace_old remove_from_session
replace_old-lighter key session c = elim (Option-cases (lookup key c.items)) [
  | inl e ↦ rw (replace_old, e) (refl, omega arith, refl)
  | inr (old, e) ↦
      elim (Bool-cases (not (is_empty old.session_key) && not (str_eq old.session_key session))) [
        | inl b ↦ rw (replace_old, e, b) (refl, omega arith, refl)
        | inr b ↦ rw (replace_old, e, b) (refl, omega arith, refl)
      ]
]

store_item-found :
    (key : String) (item : MemoryEntry) (c : Cache)
    → (lookup key (store_item key item c).items ≡ some item)
      × ((store_item key item c).memory_bytes ≤ c.memory_bytes + item.size)
      × ((store_item key item c).memory_max_bytes ≡ c.memory_max_bytes)
unfolding store_item add_to_session
store_item-found key item c =
    let (same, less, limit) = replace_old-lighter key item.session_key c in
    (
      ground (
        arith,
        eq_iff key key,
        lookup-insert key key item (replace_old key item.session_key c).items,
      ),
      omega (arith, less),
      limit,
    )

sweep_items-ttl :
    (rest : Dict MemoryEntry) (now : ℕ) (c : Cache)
    → (sweep_items rest now c).memory_ttl ≡ c.memory_ttl
unfolding sweep_items drop_item remove_from_session
sweep_items-ttl [] now c = refl
sweep_items-ttl ((key, item) ∷ rest) now c = elim (Bool-cases (is_over now item)) [
  | inl e ↦ rw (sweep_items, e) (sweep_items-ttl rest now (drop_item key item c))
  | inr e ↦ rw (sweep_items, e) (sweep_items-ttl rest now c)
]

-- An entry that fits is not evicted when it is stored.
put_memory-found :
    (key session : String) (entry : Entry) (now : ℕ) (c : Cache)
    → (c.memory_max_bytes ≡ 0) ⊎ (c.memory_bytes + memory_size entry ≤ c.memory_max_bytes)
    → now < min (now + (sweep_memory now c).memory_ttl) entry.disk_expires_at
    → lookup key (put_memory key session entry now c).items
      ≡ some (record {
        entry = entry;
        memory_expires_at = min (now + (sweep_memory now c).memory_ttl) entry.disk_expires_at;
        size = memory_size entry;
        session_key = session;
      })
unfolding put_memory enforce_memory_limit sweep_memory
put_memory-found key session entry now c fits lives =
    let swept = sweep_memory now c in
    let expires_at = min (now + swept.memory_ttl) entry.disk_expires_at in
    let item : MemoryEntry = record {
      entry = entry;
      memory_expires_at = expires_at;
      size = memory_size entry;
      session_key = session;
    } in
    let (limit, less) = sweep_items-IsLighter c.items now c in
    let (found, heavier, limit') = store_item-found key item swept in
    let stored = refresh_session session key now (store_item key item swept) in
    let (limit'', less') = refresh_session-IsLighter session key now (store_item key item swept) in
    let room : (not (swept.memory_max_bytes == 0) && ltb swept.memory_max_bytes (memory_size entry))
        ≡ false =
      ground (arith, fits, limit) in
    let lives' : ltb now expires_at ≡ true = ground (arith, lives) in
    let whole : ((stored.memory_max_bytes == 0) || leb stored.memory_bytes stored.memory_max_bytes)
        ≡ true =
      ground (arith, fits, limit, less, heavier, limit', limit'', less') in
    rw (put_memory, room, lives', enforce_memory_limit, whole)
      (refresh_session-keeps session key now (store_item key item swept) ∙ found)

-- An entry that is stored under a key is found in memory until its time to live or its time on disk is
-- over, with what else the memory holds within the limit, where it is one; the cache is one whose bytes
-- are counted.
pub get-put_memory :
    (get_disk : String → ℕ → Option Entry) (limit : ℕ) (key session : String) (entry : Entry)
    (now later : ℕ) (c : Cache)
    → IsWithin limit c
    → is_empty key ≡ false
    → (limit ≡ 0) ⊎ (c.memory_bytes + memory_size entry ≤ limit)
    → now ≤ later
    → later < now + c.memory_ttl
    → later < entry.disk_expires_at
    → (get get_disk key later (put_memory key session entry now c)).1 ≡ some (entry, memory)
unfolding get get_memory sweep_memory
get-put_memory get_disk limit key session entry now later c within named fits order lives stays =
    let put = put_memory key session entry now c in
    let ttl : (sweep_memory now c).memory_ttl ≡ c.memory_ttl = sweep_items-ttl c.items now c in
    let expires_at = min (now + (sweep_memory now c).memory_ttl) entry.disk_expires_at in
    let item : MemoryEntry = record {
      entry = entry;
      memory_expires_at = expires_at;
      size = memory_size entry;
      session_key = session;
    } in
    let room : (c.memory_max_bytes ≡ 0)
        ⊎ (c.memory_bytes + memory_size entry ≤ c.memory_max_bytes) =
      rw (within.1) fits in
    let found =
      put_memory-found key session entry now c room (omega (arith, ttl, order, lives, stays)) in
    let fresh : is_over later item ≡ false = ground (arith, ttl, lives, stays) in
    let put_within = put_memory-IsWithin limit key session entry now c within in
    let kept =
      sweep_items-keeps put.items later put key item put_within.0.1 (λ k other h. h) found fresh in
    rw (get, get_memory, named, kept, fresh) refl
