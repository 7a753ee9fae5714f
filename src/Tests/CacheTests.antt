-- ===== src/Tests/CacheTests.antt =====
-- Examples for internal/responsecache: entries of three and two bytes under a limit of four.
use deep_seek_web_to_api.Prelude.{ℕ, ◌≡◌, refl, Option, none, some, List, [], ◌∷◌, arith, inr}
use deep_seek_web_to_api.Prelude.Text.{String}
use deep_seek_web_to_api.Cache.Memory.{Entry, Cache, Source, memory, put_memory, get}
use deep_seek_web_to_api.Cache.Memory.Bounds.{IsWithin, puts, gets, run, run-IsWithin}
use deep_seek_web_to_api.Cache.Memory.Roundtrip.{get-put_memory}

abbrev entry_of : List ℕ → ℕ → Entry
entry_of body disk_expires_at = record {
  status = 200;
  header = [];
  body = body;
  disk_expires_at = disk_expires_at;
}

abbrev no_disk : String → ℕ → Option Entry
no_disk key now = none

abbrev empty_cache : Cache
empty_cache = record {
  memory_ttl = 10;
  memory_max_bytes = 4;
  memory_bytes = 0;
  items = [];
  session_entries = [];
  session_hits = 0;
  hits = 0;
  misses = 0;
  memory_hits = 0;
  disk_hits = 0;
}

abbrev three_bytes : Entry
three_bytes = entry_of (1 ∷ 2 ∷ 3 ∷ []) 50

abbrev two_bytes : Entry
two_bytes = entry_of (4 ∷ 5 ∷ []) 50

empty_cache-IsWithin : IsWithin 4 empty_cache
empty_cache-IsWithin = ((refl, tt), refl, λ positive. omega arith)

run-IsWithin_example : IsWithin 4 (
    run empty_cache
      (puts "a" "s" three_bytes 0 ∷ puts "b" "s" two_bytes 1 ∷ gets no_disk "b" 2 ∷ []))
run-IsWithin_example =
    run-IsWithin 4 empty_cache
      (puts "a" "s" three_bytes 0 ∷ puts "b" "s" two_bytes 1 ∷ gets no_disk "b" 2 ∷ [])
      empty_cache-IsWithin

-- The first entry gives way to the second one.
evicted :
    (get no_disk "a" 2
      (run empty_cache (puts "a" "s" three_bytes 0 ∷ puts "b" "s" two_bytes 1 ∷ []))).1
    ≡ none
unfolding get deep_seek_web_to_api.Cache.Memory.get_memory
    deep_seek_web_to_api.Cache.Memory.sweep_memory deep_seek_web_to_api.Cache.Memory.sweep_items
    put_memory deep_seek_web_to_api.Cache.Memory.enforce_memory_limit
    deep_seek_web_to_api.Cache.Memory.refresh_session deep_seek_web_to_api.Cache.Memory.store_item
    deep_seek_web_to_api.Cache.Memory.add_to_session deep_seek_web_to_api.Cache.Memory.replace_old
    deep_seek_web_to_api.Cache.Memory.bump_siblings
    deep_seek_web_to_api.Cache.Memory.bump_single_entry_expiry
    deep_seek_web_to_api.Cache.Memory.evict deep_seek_web_to_api.Cache.Memory.by_deadline
    deep_seek_web_to_api.Cache.Memory.drop_item
    deep_seek_web_to_api.Cache.Memory.remove_from_session
    deep_seek_web_to_api.Cache.Memory.get_from_disk
evicted = refl

get-put_memory_example :
    (get no_disk "a" 9 (put_memory "a" "s" three_bytes 0 empty_cache)).1
    ≡ some (three_bytes, memory)
get-put_memory_example =
    get-put_memory no_disk 4 "a" "s" three_bytes 0 9 empty_cache empty_cache-IsWithin refl
      (inr (omega arith)) (omega arith) (omega arith) (omega arith)
