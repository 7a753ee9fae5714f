-- ===== src/Cache/Memory.antt =====
-- internal/responsecache/cache.go: the part of `Cache` in memory. A key is one that `normalizeKey` has
-- passed, empty where it was refused. `memoryBytes` is a number: Memory.Counted shows that nothing is
-- taken off it that is not in it. Counters for each path are left out.
pub mod Counted
pub mod Lighter
pub mod Bounds
pub mod Roundtrip
use deep_seek_web_to_api.Prelude.{
  ℕ, zero, suc, ◌+◌, ◌-◌, Bool, true, false, ◌&&◌, ◌||◌, not, Option, none, some, List, [], ◌∷◌,
  length, ltb, leb, ◌==◌, if◌then◌else◌,
}
use Prim.Native.Nat.{min}
pub use deep_seek_web_to_api.Cache.Entry.{Entry, MemoryEntry, Cache, memory_size}
unfoldable pub use deep_seek_web_to_api.Cache.Entry.{add_to_session, remove_from_session}
use deep_seek_web_to_api.Prelude.Text.{String, str_eq, is_empty}
use deep_seek_web_to_api.Prelude.Dict.{Dict, lookup, insert, delete}

-- An item leaves the memory, its bytes and its session.
unfoldable pub drop_item : String → MemoryEntry → Cache → Cache
drop_item key item c =
    remove_from_session item.session_key key
      (record c { items = delete key c.items; memory_bytes = c.memory_bytes - item.size })

-- !now.Before(item.memoryExpiresAt) || !now.Before(item.entry.DiskExpiresAt)
abbrev pub is_over : ℕ → MemoryEntry → Bool
is_over now item = not (ltb now item.memory_expires_at) || not (ltb now item.entry.disk_expires_at)

-- The loop of `sweepMemoryLocked` over the items that there were.
unfoldable pub sweep_items : Dict MemoryEntry → ℕ → Cache → Cache
sweep_items [] now c = c
sweep_items ((key, item) ∷ rest) now c =
    sweep_items rest now (if is_over now item then drop_item key item c else c)

unfoldable pub sweep_memory : ℕ → Cache → Cache
sweep_memory now c = sweep_items c.items now c

unfoldable pub bump_single_entry_expiry : String → MemoryEntry → ℕ → ℕ → Cache → Cache
bump_single_entry_expiry key item now ttl c =
    let extended = min (now + ttl) item.entry.disk_expires_at in
    if ltb item.memory_expires_at extended
    then record c { items = insert key (record item { memory_expires_at = extended }) c.items }
    else c

-- The other entries of a session.
unfoldable pub bump_siblings : List String → String → ℕ → ℕ → Cache → Cache
bump_siblings [] key now ttl c = c
bump_siblings (sibling ∷ rest) key now ttl c =
    if str_eq sibling key then bump_siblings rest key now ttl c else elim (lookup sibling c.items) [
      | none ↦ bump_siblings rest key now ttl c
      | some item ↦ bump_siblings rest key now ttl (bump_single_entry_expiry sibling item now ttl c)
    ]

-- The siblings of a hit, where the session has more than one entry.
unfoldable pub bump_session : String → String → ℕ → Cache → Cache
bump_session session key now c =
    if is_empty session then c else elim (lookup session c.session_entries) [
      | none ↦ c
      | some siblings ↦
          if leb (length siblings) 1
          then c
          else let bumped = bump_siblings siblings key now c.memory_ttl c in
            record bumped { session_hits = bumped.session_hits + 1 }
    ]

unfoldable pub bump_memory_expiry : String → ℕ → Cache → Cache
bump_memory_expiry key now c = elim (lookup key c.items) [
  | none ↦ c
  | some item ↦
      if c.memory_ttl == 0
      then c
      else bump_session item.session_key key now
          (bump_single_entry_expiry key item now c.memory_ttl c)
]

-- The candidates, the first deadline first.
abbrev insert_by_deadline : String → MemoryEntry → Dict MemoryEntry → Dict MemoryEntry
insert_by_deadline k i [] = (k, i) ∷ []
insert_by_deadline k i ((j, h) ∷ rest) =
    let later = insert_by_deadline k i rest in
    if leb i.memory_expires_at h.memory_expires_at then (k, i) ∷ (j, h) ∷ rest else (j, h) ∷ later

unfoldable pub by_deadline : Dict MemoryEntry → Dict MemoryEntry
by_deadline [] = []
by_deadline ((k, i) ∷ rest) = insert_by_deadline k i (by_deadline rest)

unfoldable pub evict : Dict MemoryEntry → Cache → Cache
evict [] c = c
evict ((key, item) ∷ rest) c =
    if leb c.memory_bytes c.memory_max_bytes then c else elim (lookup key c.items) [
      | none ↦ evict rest c
      | some found ↦ evict rest (drop_item key item c)
    ]

unfoldable pub enforce_memory_limit : Cache → Cache
enforce_memory_limit c =
    if (c.memory_max_bytes == 0) || leb c.memory_bytes c.memory_max_bytes
    then c
    else evict (by_deadline c.items) c

-- The bytes and the session of the item that a key had are taken away.
unfoldable pub replace_old : String → String → Cache → Cache
replace_old key session c = elim (lookup key c.items) [
  | none ↦ c
  | some old ↦
      let lighter : Cache = record c { memory_bytes = c.memory_bytes - old.size } in
      if not (is_empty old.session_key) && not (str_eq old.session_key session)
      then remove_from_session old.session_key key lighter
      else lighter
]

-- The siblings of a new entry.
unfoldable pub refresh_session : String → String → ℕ → Cache → Cache
refresh_session session key now c =
    if is_empty session then c else elim (lookup session c.session_entries) [
      | none ↦ c
      | some siblings ↦ bump_siblings siblings key now c.memory_ttl c
    ]

unfoldable pub store_item : String → MemoryEntry → Cache → Cache
store_item key item c =
    let cleared = replace_old key item.session_key c in
    add_to_session item.session_key key (record cleared {
      items = insert key item cleared.items;
      memory_bytes = cleared.memory_bytes + item.size;
    })

-- `putMemoryWithPolicySession`
unfoldable pub put_memory : String → String → Entry → ℕ → Cache → Cache
put_memory key session entry now c =
    let swept = sweep_memory now c in
    let expires_at = min (now + swept.memory_ttl) entry.disk_expires_at in
    let item : MemoryEntry = record {
      entry = entry;
      memory_expires_at = expires_at;
      size = memory_size entry;
      session_key = session;
    } in
    if not (swept.memory_max_bytes == 0) && ltb swept.memory_max_bytes (memory_size entry)
    then swept
    else if ltb now expires_at
    then enforce_memory_limit (refresh_session session key now (store_item key item swept))
    else swept

pub data Source : Type 0 where
  memory : Source
  disk : Source

-- The part of `getWithPolicy` behind a miss in memory; `get_disk` reads the disk.
unfoldable pub get_from_disk :
    (String → ℕ → Option Entry) → String → ℕ → Cache → Cache × Option (Entry × Source)
get_from_disk get_disk key now c = elim (get_disk key now) [
  | none ↦ (record c { misses = c.misses + 1 }, none)
  | some entry ↦
      let stored = put_memory key "" entry now c in
      (
        record stored { hits = stored.hits + 1; disk_hits = stored.disk_hits + 1 },
        some (entry, disk),
      )
]

-- The part of `getWithPolicy` that looks into memory, under the mutex.
unfoldable pub get_memory : String → ℕ → Cache → Cache × Option (Entry × Source)
get_memory key now c =
    let swept = sweep_memory now c in
    elim (lookup key swept.items) [
      | none ↦ (swept, none)
      | some item ↦
          if is_over now item
          then (drop_item key item swept, none)
          else let bumped = bump_memory_expiry key now swept in
            (
              record bumped { hits = bumped.hits + 1; memory_hits = bumped.memory_hits + 1 },
              some (item.entry, memory),
            )
    ]

-- `getWithPolicy`, where no other goroutine comes between its two parts.
unfoldable pub get :
    (String → ℕ → Option Entry) → String → ℕ → Cache → Cache × Option (Entry × Source)
get get_disk key now c =
    if is_empty key
    then (c, none)
    else let (looked, found) = get_memory key now c in
      elim found [ none ↦ get_from_disk get_disk key now looked | some hit ↦ (looked, some hit) ]
