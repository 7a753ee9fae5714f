-- ===== src/Cache/Memory/Bounds.antt =====
-- The limit of the memory (internal/responsecache/cache.go).
use deep_seek_web_to_api.Prelude.{
  ℕ, ◌+◌, ◌≤◌, ◌≡◌, refl, ap, ◌∙◌, ◌&&◌, ◌||◌, not, Option, none, some, List, [], ◌∷◌, ltb, leb,
  ◌==◌, arith, Bool-cases, Option-cases, inl, inr, if◌then◌else◌,
}
use Prim.Native.Nat.{min}
use deep_seek_web_to_api.Prelude.Text.{String, str_eq, is_empty, eq_iff}
use deep_seek_web_to_api.Prelude.Dict.{Dict, lookup, lookup-delete, Distinct}
use deep_seek_web_to_api.Cache.Memory.{
  Entry, MemoryEntry, Cache, add_to_session, remove_from_session, drop_item, is_over, sweep_items,
  sweep_memory, bump_memory_expiry, insert_by_deadline, by_deadline, evict, enforce_memory_limit,
  replace_old, refresh_session, store_item, put_memory, get_from_disk, get_memory, get, memory_size,
}
use deep_seek_web_to_api.Cache.Memory.Lighter.{
  IsLighter, drop_item-IsLighter, sweep_items-IsLighter, bump_memory_expiry-IsLighter,
  refresh_session-IsLighter,
}
use deep_seek_web_to_api.Cache.Memory.Counted.{
  IsCounted, IsPart, sizes, drop_item-IsCounted, sweep_memory-IsCounted,
  bump_memory_expiry-IsCounted, refresh_session-IsCounted, store_item-IsCounted,
}

lookup-insert_by_deadline :
    (key : String) (item : MemoryEntry) (rest : Dict MemoryEntry) (k : String)
    → lookup key rest ≡ none
    → lookup k (insert_by_deadline key item rest)
      ≡ (if str_eq key k then some item else lookup k rest)
lookup-insert_by_deadline key item [] k h = refl
lookup-insert_by_deadline key item ((j, other) ∷ rest) k h =
    ground
      (arith, eq_iff key k, eq_iff j k, eq_iff j key, lookup-insert_by_deadline key item rest k)

insert_by_deadline-Distinct :
    (key : String) (item : MemoryEntry) (rest : Dict MemoryEntry)
    → lookup key rest ≡ none
    → Distinct rest
    → Distinct (insert_by_deadline key item rest)
insert_by_deadline-Distinct key item [] h once = (refl, tt)
insert_by_deadline-Distinct key item ((j, other) ∷ rest) h once = ground (
  arith,
  once,
  eq_iff key j,
  eq_iff j key,
  insert_by_deadline-Distinct key item rest,
  lookup-insert_by_deadline key item rest j,
)

-- Sorting keeps what stands under each key.
by_deadline-lookup :
    (items : Dict MemoryEntry)
    → Distinct items
    → Distinct (by_deadline items) × ((k : String) → lookup k (by_deadline items) ≡ lookup k items)
unfolding by_deadline
by_deadline-lookup [] once = (tt, λ k. refl)
by_deadline-lookup ((key, item) ∷ rest) (first, once) =
    let (sorted, same) = by_deadline-lookup rest once in
    let absent = same key ∙ first in
    (
      insert_by_deadline-Distinct key item (by_deadline rest) absent sorted,
      λ k.
          lookup-insert_by_deadline key item (by_deadline rest) k absent
          ∙ ap (λ r. if str_eq key k then some item else r) (same k),
    )

sizes-empty : (items : Dict MemoryEntry) → IsPart items [] → sizes items ≡ 0
sizes-empty [] part = refl
sizes-empty ((key, item) ∷ rest) part =
    let found : lookup key ((key, item) ∷ rest) ≡ some item = ground (arith, eq_iff key key) in
    let wrong : none ≡ some item = part key item found in cc wrong

-- Eviction in any order of all the items ends within the limit.
evict-within :
    (rest : Dict MemoryEntry) (c : Cache)
    → Distinct rest
    → IsPart c.items rest
    → IsCounted c
    → IsCounted (evict rest c)
      × ((evict rest c).memory_max_bytes ≡ c.memory_max_bytes)
      × ((evict rest c).memory_bytes ≤ c.memory_max_bytes)
unfolding evict drop_item remove_from_session
evict-within [] c once part counted =
    (counted, refl, omega (arith, counted.0, sizes-empty c.items part))
evict-within ((key, item) ∷ rest) c (first, once) part counted =
    elim (Bool-cases (leb c.memory_bytes c.memory_max_bytes)) [
      | inl b ↦ rw (evict, b) (counted, refl, ground (arith, b))
      | inr b ↦ elim (Option-cases (lookup key c.items)) [
        | inl e ↦
            rw (evict, b, e)
              (evict-within rest c once
                (λ k other h. ground (arith, eq_iff key k, part k other h, h, e)) counted)
        | inr (found, e) ↦
            rw (evict, b, e)
              (evict-within rest (drop_item key item c) once
                (λ k other h.
                  ground (arith, eq_iff key k, lookup-delete key k c.items, h, part k other))
                (drop_item-IsCounted key item c
                  (ground (arith, eq_iff key key, part key found e, e)) counted))
      ]
    ]

-- The limit is `limit`, and the bytes are within it, where it is one.
abbrev pub IsWithin : ℕ → Cache → Type 0
IsWithin limit c = IsCounted c × (c.memory_max_bytes ≡ limit) × (1 ≤ limit → c.memory_bytes ≤ limit)

IsWithin-lighter :
    (limit : ℕ) (c d : Cache) → IsLighter c d → IsCounted d → IsWithin limit c → IsWithin limit d
IsWithin-lighter limit c d (same, less) counted (before, at, within) =
    (counted, same ∙ at, λ positive. omega (arith, less, within positive))

enforce_memory_limit-IsWithin :
    (limit : ℕ) (c : Cache)
    → IsCounted c
    → c.memory_max_bytes ≡ limit
    → IsWithin limit (enforce_memory_limit c)
unfolding enforce_memory_limit
enforce_memory_limit-IsWithin limit c counted at =
    elim (Bool-cases ((c.memory_max_bytes == 0) || leb c.memory_bytes c.memory_max_bytes)) [
      | inl b ↦
          rw (enforce_memory_limit, b) (counted, at, λ positive. ground (arith, b, positive, at))
      | inr b ↦
          let (sorted, same) = by_deadline-lookup c.items counted.1 in
          let (still, limit_kept, within) =
            evict-within (by_deadline c.items) c sorted (λ k item h. same k ∙ h) counted in
          rw (enforce_memory_limit, b)
            (still, limit_kept ∙ at, λ positive. omega (arith, at, within))
    ]

store_item-limit :
    (key : String) (item : MemoryEntry) (c : Cache)
    → (store_item key item c).memory_max_bytes ≡ c.memory_max_bytes
unfolding store_item add_to_session replace_old remove_from_session
store_item-limit key item c = elim (Option-cases (lookup key c.items)) [
  | inl e ↦ rw (store_item, replace_old, e) refl
  | inr (old, e) ↦
      elim (Bool-cases
        (not (is_empty old.session_key) && not (str_eq old.session_key item.session_key))) [
          | inl b ↦ rw (store_item, replace_old, e, b) refl
          | inr b ↦ rw (store_item, replace_old, e, b) refl
        ]
]

sweep_memory-IsWithin :
    (limit now : ℕ) (c : Cache) → IsWithin limit c → IsWithin limit (sweep_memory now c)
unfolding sweep_memory
sweep_memory-IsWithin limit now c within =
    IsWithin-lighter limit c (sweep_items c.items now c) (sweep_items-IsLighter c.items now c)
      (sweep_memory-IsCounted now c within.0) within

pub put_memory-IsWithin :
    (limit : ℕ) (key session : String) (entry : Entry) (now : ℕ) (c : Cache)
    → IsWithin limit c
    → IsWithin limit (put_memory key session entry now c)
unfolding put_memory
put_memory-IsWithin limit key session entry now c within =
    let swept = sweep_memory now c in
    let swept_within = sweep_memory-IsWithin limit now c within in
    let expires_at = min (now + swept.memory_ttl) entry.disk_expires_at in
    let item : MemoryEntry = record {
      entry = entry;
      memory_expires_at = expires_at;
      size = memory_size entry;
      session_key = session;
    } in
    elim (Bool-cases
      (not (swept.memory_max_bytes == 0) && ltb swept.memory_max_bytes (memory_size entry))) [
        | inl b ↦ rw (put_memory, b) swept_within
        | inr b ↦ elim (Bool-cases (ltb now expires_at)) [
          | inl e ↦
              rw (put_memory, b, e)
                (enforce_memory_limit-IsWithin limit
                  (refresh_session session key now (store_item key item swept))
                  (refresh_session-IsCounted session key now (store_item key item swept)
                    (store_item-IsCounted key item swept swept_within.0))
                  ((refresh_session-IsLighter session key now (store_item key item swept)).0
                    ∙ store_item-limit key item swept
                    ∙ swept_within.1))
          | inr e ↦ rw (put_memory, b, e) swept_within
        ]
      ]

get_from_disk-IsWithin :
    (limit : ℕ) (get_disk : String → ℕ → Option Entry) (key : String) (now : ℕ) (c : Cache)
    → IsWithin limit c
    → IsWithin limit (get_from_disk get_disk key now c).0
unfolding get_from_disk
get_from_disk-IsWithin limit get_disk key now c within = elim (Option-cases (get_disk key now)) [
  | inl e ↦ rw (get_from_disk, e) within
  | inr (entry, e) ↦ rw (get_from_disk, e) (put_memory-IsWithin limit key "" entry now c within)
]

get_memory-IsWithin :
    (limit : ℕ) (key : String) (now : ℕ) (c : Cache)
    → IsWithin limit c
    → IsWithin limit (get_memory key now c).0
unfolding get_memory
get_memory-IsWithin limit key now c within =
    let swept = sweep_memory now c in
    let swept_within = sweep_memory-IsWithin limit now c within in
    elim (Option-cases (lookup key swept.items)) [
      | inl e ↦ rw (get_memory, e) swept_within
      | inr (item, e) ↦ elim (Bool-cases (is_over now item)) [
        | inl o ↦
            rw (get_memory, e, o)
              (IsWithin-lighter limit swept (drop_item key item swept)
                (drop_item-IsLighter key item swept)
                (drop_item-IsCounted key item swept e swept_within.0) swept_within)
        | inr o ↦
            rw (get_memory, e, o)
              (IsWithin-lighter limit swept (bump_memory_expiry key now swept)
                (bump_memory_expiry-IsLighter key now swept)
                (bump_memory_expiry-IsCounted key now swept swept_within.0) swept_within)
      ]
    ]

get-IsWithin :
    (limit : ℕ) (get_disk : String → ℕ → Option Entry) (key : String) (now : ℕ) (c : Cache)
    → IsWithin limit c
    → IsWithin limit (get get_disk key now c).0
unfolding get
get-IsWithin limit get_disk key now c within =
    let looked = get_memory-IsWithin limit key now c within in
    elim (Bool-cases (is_empty key)) [
      | inl b ↦ rw (get, b) within
      | inr b ↦ elim (Option-cases (get_memory key now c).1) [
        | inl e ↦
            rw (get, b, e)
              (get_from_disk-IsWithin limit get_disk key now (get_memory key now c).0 looked)
        | inr (hit, e) ↦ rw (get, b, e) looked
      ]
    ]

-- The calls of a cache, each with its time; `looks_up` and `loads` are the two parts of a get between
-- which other goroutines come.
pub data Call : Type 0 where
  puts : String → String → Entry → ℕ → Call
  gets : (String → ℕ → Option Entry) → String → ℕ → Call
  looks_up : String → ℕ → Call
  loads : (String → ℕ → Option Entry) → String → ℕ → Call

abbrev pub call : Cache → Call → Cache
call c (puts key session entry now) = put_memory key session entry now c
call c (gets get_disk key now) = (get get_disk key now c).0
call c (looks_up key now) = (get_memory key now c).0
call c (loads get_disk key now) = (get_from_disk get_disk key now c).0

abbrev pub run : Cache → List Call → Cache
run c [] = c
run c (x ∷ calls) = run (call c x) calls

-- Whatever calls follow one another at whatever times, the bytes counted are those of the items, each
-- key has one item, the limit stays and the bytes are within it, where it is one, if all this holds at
-- first.
pub run-IsWithin :
    (limit : ℕ) (c : Cache) (calls : List Call) → IsWithin limit c → IsWithin limit (run c calls)
run-IsWithin limit c [] within = within
run-IsWithin limit c (puts key session entry now ∷ calls) within =
    run-IsWithin limit (put_memory key session entry now c) calls
      (put_memory-IsWithin limit key session entry now c within)
run-IsWithin limit c (gets get_disk key now ∷ calls) within =
    run-IsWithin limit (get get_disk key now c).0 calls
      (get-IsWithin limit get_disk key now c within)
run-IsWithin limit c (looks_up key now ∷ calls) within =
    run-IsWithin limit (get_memory key now c).0 calls (get_memory-IsWithin limit key now c within)
run-IsWithin limit c (loads get_disk key now ∷ calls) within =
    run-IsWithin limit (get_from_disk get_disk key now c).0 calls
      (get_from_disk-IsWithin limit get_disk key now c within)
