-- ===== src/Cache/Entry.antt =====
-- internal/responsecache/cache.go: the records of the cache, the size of an entry and the buckets of
-- sessions. Time is in nanoseconds, a limit of 0 is none, and a time to live of 0 is one that is not
-- positive.
use deep_seek_web_to_api.Prelude.{
  ℕ, ◌+◌, Bool, true, false, ◌||◌, none, some, List, [], ◌∷◌, length, if◌then◌else◌,
}
use deep_seek_web_to_api.Prelude.Text.{String, str_eq, is_empty}
use deep_seek_web_to_api.Prelude.Dict.{Dict, lookup, insert, delete}

pub record Entry : Type 0 where
  pub status : ℕ
  pub header : List (List ℕ × List (List ℕ))
  pub body : List ℕ
  pub disk_expires_at : ℕ

pub record MemoryEntry : Type 0 where
  pub entry : Entry
  pub memory_expires_at : ℕ
  pub size : ℕ
  pub session_key : String

pub record Cache : Type 0 where
  pub memory_ttl : ℕ
  pub memory_max_bytes : ℕ
  pub memory_bytes : ℕ
  pub items : Dict MemoryEntry
  pub session_entries : Dict (List String)
  pub session_hits : ℕ
  pub hits : ℕ
  pub misses : ℕ
  pub memory_hits : ℕ
  pub disk_hits : ℕ

-- The bytes of the values of one header, and of all headers.
abbrev values_size : List (List ℕ) → ℕ
values_size [] = 0
values_size (v ∷ vs) = length v + values_size vs

abbrev header_size : List (List ℕ × List (List ℕ)) → ℕ
header_size [] = 0
header_size ((k, vs) ∷ header) = length k + values_size vs + header_size header

abbrev pub memory_size : Entry → ℕ
memory_size e = length e.body + header_size e.header

abbrev without : String → List String → List String
without k [] = []
without k (j ∷ keys) = let rest = without k keys in if str_eq j k then rest else j ∷ rest

abbrev is_in : String → List String → Bool
is_in k [] = false
is_in k (j ∷ keys) = str_eq j k || is_in k keys

abbrev is_nil : List String → Bool
is_nil [] = true
is_nil (k ∷ keys) = false

-- The buckets of the sessions behind the entry of a key.
abbrev linked : String → String → Dict (List String) → Dict (List String)
linked session key buckets =
    if is_empty session || is_empty key then buckets else elim (lookup session buckets) [
      | none ↦ insert session (key ∷ []) buckets
      | some bucket ↦ if is_in key bucket then buckets else insert session (key ∷ bucket) buckets
    ]

abbrev unlinked : String → String → Dict (List String) → Dict (List String)
unlinked session key buckets =
    if is_empty session || is_empty key then buckets else elim (lookup session buckets) [
      | none ↦ buckets
      | some bucket ↦
          if is_nil (without key bucket)
          then delete session buckets
          else insert session (without key bucket) buckets
    ]

unfoldable pub add_to_session : String → String → Cache → Cache
add_to_session session key c = record c { session_entries = linked session key c.session_entries }

unfoldable pub remove_from_session : String → String → Cache → Cache
remove_from_session session key c = record c {
  session_entries = unlinked session key c.session_entries;
}
