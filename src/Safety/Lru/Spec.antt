-- ===== src/Safety/Lru/Spec.antt =====
-- What the cache of internal/safetyllm promises: it holds the entries used last, at most as many as
-- allowed.
use deep_seek_web_to_api.Prelude.{ℕ, Option, none, some, List, [], ◌∷◌, take, if◌then◌else◌}
use deep_seek_web_to_api.Prelude.Text.{String}
use deep_seek_web_to_api.Safety.Lru.{Verdict, CacheEntry, LruCache, has_expired, get, set, purge}
use deep_seek_web_to_api.Safety.Lru.Elements.{entry_at, without}

abbrev pub spec_get : String → ℕ → List CacheEntry → List CacheEntry × Option Verdict
spec_get key now es = elim (entry_at key es) [
  | none ↦ (es, none)
  | some e ↦
      if has_expired now e then (without key es, none) else (e ∷ without key es, some e.verdict)
]

abbrev pub spec_set : ℕ → String → Verdict → ℕ → List CacheEntry → List CacheEntry
spec_set max key v expires_at es =
    take max (record { key = key; verdict = v; expires_at = expires_at } ∷ without key es)

-- The calls of the cache.
pub data Call : Type 0 where
  gets : String → ℕ → Call
  sets : String → Verdict → ℕ → Call
  purges : Call

-- The answers of the cache, and those that are promised.
abbrev pub answers : LruCache → List Call → List (Option Verdict)
answers c [] = []
answers c (gets key now ∷ calls) = let (d, found) = get key now c in found ∷ answers d calls
answers c (sets key v expires_at ∷ calls) = answers (set key v expires_at c) calls
answers c (purges ∷ calls) = answers (purge c) calls

abbrev pub spec_answers : ℕ → List CacheEntry → List Call → List (Option Verdict)
spec_answers max es [] = []
spec_answers max es (gets key now ∷ calls) =
    let (rest, found) = spec_get key now es in found ∷ spec_answers max rest calls
spec_answers max es (sets key v expires_at ∷ calls) =
    spec_answers max (spec_set max key v expires_at es) calls
spec_answers max es (purges ∷ calls) = spec_answers max [] calls
