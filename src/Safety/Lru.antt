-- ===== src/Safety/Lru.antt =====
-- internal/safetyllm/cache.go: `lruCache`. An element of the list has a number that stands for its
-- address, and the map takes a key to a number; the front of the list is its head. The zero time is 0.
pub mod Elements
pub mod Spec
pub mod Eviction
pub mod Refines
use deep_seek_web_to_api.Prelude.{
  ℕ, zero, suc, ◌+◌, ◌-◌, Bool, true, false, ◌&&◌, not, Option, none, some, List, [], ◌∷◌, length,
  ltb, leb, ◌==◌, if◌then◌else◌,
}
use deep_seek_web_to_api.Prelude.Text.{String, str_eq}
use deep_seek_web_to_api.Prelude.Dict.{Dict, lookup, insert, delete}

pub record Verdict : Type 0 where
  pub violation : Bool
  pub cached : Bool
  pub latency_ms : ℕ
  pub fail_open : Bool

pub record CacheEntry : Type 0 where
  pub key : String
  pub verdict : Verdict
  pub expires_at : ℕ

pub record LruCache : Type 0 where
  pub max : ℕ
  pub items : Dict ℕ
  pub order : List (ℕ × CacheEntry)
  pub next : ℕ

-- `newLRUCache`
unfoldable pub new_lru_cache : ℕ → LruCache
new_lru_cache max = record { max = if max == 0 then 1 else max; items = []; order = []; next = 0 }

-- el.Value
unfoldable pub value_of : ℕ → List (ℕ × CacheEntry) → Option CacheEntry
value_of el [] = none
value_of el ((i, e) ∷ order) = let later = value_of el order in if i == el then some e else later

-- order.Remove(el)
unfoldable pub remove : ℕ → List (ℕ × CacheEntry) → List (ℕ × CacheEntry)
remove el [] = []
remove el ((i, e) ∷ order) = let rest = remove el order in if i == el then rest else (i, e) ∷ rest

-- !entry.expiresAt.IsZero() && now.After(entry.expiresAt)
abbrev pub has_expired : ℕ → CacheEntry → Bool
has_expired now e = not (e.expires_at == 0) && ltb e.expires_at now

unfoldable pub get : String → ℕ → LruCache → LruCache × Option Verdict
get key now c = elim (lookup key c.items) [
  | none ↦ (c, none)
  | some el ↦ elim (value_of el c.order) [
    | none ↦ (c, none)
    | some e ↦
        if has_expired now e
        then (record c { items = delete key c.items; order = remove el c.order }, none)
        else (record c { order = (el, e) ∷ remove el c.order }, some e.verdict)
  ]
]

-- The element at the back.
unfoldable pub back : List (ℕ × CacheEntry) → Option (ℕ × CacheEntry)
back [] = none
back (x ∷ []) = some x
back (x ∷ y ∷ order) = back (y ∷ order)

-- The loop that keeps the list within the maximum.
unfoldable pub evict : ℕ → LruCache → LruCache
evict zero c = c
evict (suc fuel) c = if leb (length c.order) c.max then c else elim (back c.order) [
  | none ↦ c
  | some (el, e) ↦ evict fuel (record c { items = delete e.key c.items; order = remove el c.order })
]

unfoldable pub set : String → Verdict → ℕ → LruCache → LruCache
set key v expires_at c =
    let entry : CacheEntry = record { key = key; verdict = v; expires_at = expires_at } in
    elim (lookup key c.items) [
      | some el ↦ record c { order = (el, entry) ∷ remove el c.order }
      | none ↦ evict (suc (length c.order)) (record c {
        items = insert key c.next c.items;
        order = (c.next, entry) ∷ c.order;
        next = c.next + 1;
      })
    ]

unfoldable pub size : LruCache → ℕ
size c = length c.order

unfoldable pub purge : LruCache → LruCache
purge c = record c { items = []; order = [] }
