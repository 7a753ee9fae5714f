-- ===== src/Safety/Lru/Refines.antt =====
-- The cache of internal/safetyllm does what it promises.
use deep_seek_web_to_api.Prelude.{
  ℕ, suc, ◌+◌, ◌≤◌, ◌<◌, ◌≡◌, refl, sym, ap, subst, ◌∙◌, none, some, List, [], ◌∷◌, length, ◌==◌,
  if◌then◌else◌, arith, Bool-cases, Option-cases, inl, inr, take, length-take,
}
use deep_seek_web_to_api.Prelude.Text.{String}
use deep_seek_web_to_api.Prelude.Dict.{lookup, insert}
use deep_seek_web_to_api.Safety.Lru.{
  Verdict, CacheEntry, LruCache, new_lru_cache, value_of, has_expired, get, set, purge,
}
use deep_seek_web_to_api.Safety.Lru.Elements.{
  entries, entry_at, without, element_of, without-absent, element_of-value, value_of-entry,
  remove-without, entry_at-key, entry_at-absent, length-entries, length-without,
}
use deep_seek_web_to_api.Safety.Lru.Eviction.{
  Agrees, dropped-Agrees, front-Agrees, pushed-Agrees, take-all, evict-refines,
}
use deep_seek_web_to_api.Safety.Lru.Spec.{
  spec_get, spec_set, Call, gets, sets, purges, answers, spec_answers,
}

get-refines :
    (key : String) (now : ℕ) (c : LruCache)
    → Agrees c
    → Agrees (get key now c).0
      × (entries (get key now c).0.order ≡ (spec_get key now (entries c.order)).0)
      × ((get key now c).1 ≡ (spec_get key now (entries c.order)).1)
      × ((get key now c).0.max ≡ c.max)
unfolding get
get-refines key now c (l, same) = elim (Option-cases (element_of key c.order)) [
  | inl h ↦
      let missing : lookup key c.items ≡ none = same key ∙ h in
      rw (get, missing, spec_get, entry_at-absent key c.order h) ((l, same), refl, refl, refl)
  | inr (el, h) ↦
      let found : lookup key c.items ≡ some el = same key ∙ h in
      elim (Option-cases (value_of el c.order)) [
        | inl e ↦ absurd (element_of-value c.next key el c.order l h e)
        | inr (entry, e) ↦
            let seen : entry_at key (entries c.order) ≡ some entry =
              sym (value_of-entry c.next key el c.order l h) ∙ e in
            let named = entry_at-key key (entries c.order) entry seen in
            let less = remove-without c.next key el c.order l h in
            elim (Bool-cases (has_expired now entry)) [
              | inl b ↦
                  rw (get, found, e, spec_get, seen, b)
                    (dropped-Agrees key el c (l, same) h, less, refl, refl)
              | inr b ↦
                  rw (get, found, e, spec_get, seen, b)
                    (
                      front-Agrees key el entry c (l, same) h named,
                      ap (λ r. entry ∷ r) less,
                      refl,
                      refl,
                    )
            ]
      ]
]

-- The cache shows `es`, which are at most as many as are allowed.
abbrev pub Shows : ℕ → LruCache → List CacheEntry → Type 0
Shows max c es = Agrees c × (entries c.order ≡ es) × (c.max ≡ max) × (length es ≤ max)

without-le : (k : String) (es : List CacheEntry) → length (without k es) ≤ length es
without-le k [] = omega arith
without-le k (x ∷ es) = ground (arith, without-le k es)

seen-shorter :
    (k : String) (es : List CacheEntry) (e : CacheEntry)
    → entry_at k es ≡ some e
    → length (without k es) < length es
seen-shorter k [] e h = cc h
seen-shorter k (x ∷ es) e h = ground (arith, h, seen-shorter k es e, without-le k es)

spec_get-le :
    (key : String) (now : ℕ) (es : List CacheEntry) → length (spec_get key now es).0 ≤ length es
spec_get-le key now es = elim (Option-cases (entry_at key es)) [
  | inl h ↦ rw (spec_get, h) (omega arith)
  | inr (e, h) ↦
      let shorter = seen-shorter key es e h in
      elim (Bool-cases (has_expired now e)) [
        | inl b ↦ rw (spec_get, h, b) (omega (arith, shorter))
        | inr b ↦ rw (spec_get, h, b) (omega (arith, shorter))
      ]
]

get-Shows :
    (max : ℕ) (key : String) (now : ℕ) (c : LruCache) (es : List CacheEntry)
    → Shows max c es
    → Shows max (get key now c).0 (spec_get key now es).0
      × ((get key now c).1 ≡ (spec_get key now es).1)
get-Shows max key now c es (agrees, seen, at, short) =
    let (still, shown, found, kept) = get-refines key now c agrees in
    (
      (
        still,
        shown ∙ ap (λ r. (spec_get key now r).0) seen,
        kept ∙ at,
        omega (arith, spec_get-le key now es, short),
      ),
      found ∙ ap (λ r. (spec_get key now r).1) seen,
    )

set-Shows :
    (max : ℕ) (key : String) (v : Verdict) (expires_at : ℕ) (c : LruCache) (es : List CacheEntry)
    → Shows max c es
    → Shows max (set key v expires_at c) (spec_set max key v expires_at es)
unfolding set
set-Shows max key v expires_at c es ((l, same), seen, at, short) =
    let entry : CacheEntry = record { key = key; verdict = v; expires_at = expires_at } in
    elim (Option-cases (element_of key c.order)) [
      | inl h ↦
          let missing : lookup key c.items ≡ none = same key ∙ h in
          let pushed : LruCache = record c {
            items = insert key c.next c.items;
            order = (c.next, entry) ∷ c.order;
            next = c.next + 1;
          } in
          let (agrees, kept, max_kept) =
            evict-refines (suc (length c.order)) pushed (pushed-Agrees entry c (l, same) h)
              (omega arith) in
          let whole : without key es ≡ es =
            subst (λ r. without key r ≡ r) seen (without-absent key c.order h) in
          rw (set, missing)
            (
              agrees,
              kept
                  ∙ ap (λ n. take n (entry ∷ entries c.order)) at
                  ∙ ap (λ r. take max (entry ∷ r)) (seen ∙ sym whole),
              max_kept ∙ at,
              omega (arith, length-take max (entry ∷ without key es)),
            )
      | inr (el, h) ↦
          let found : lookup key c.items ≡ some el = same key ∙ h in
          let less = remove-without c.next key el c.order l h ∙ ap (λ r. without key r) seen in
          let shorter = length-without key el c.order h in
          let fits : length (entry ∷ without key es) ≤ max = omega (
            arith,
            shorter,
            length-entries c.order,
            ap (λ r. length r) seen,
            ap (λ r. length (without key r)) seen,
            short,
          ) in
          rw (set, found)
            (
              front-Agrees key el entry c (l, same) h refl,
              ap (λ r. entry ∷ r) less ∙ sym (take-all max (entry ∷ without key es) fits),
              at,
              omega (arith, length-take max (entry ∷ without key es)),
            )
    ]

run-answers :
    (max : ℕ) (calls : List Call) (c : LruCache) (es : List CacheEntry)
    → Shows max c es
    → answers c calls ≡ spec_answers max es calls
unfolding purge
run-answers max [] c es shows = refl
run-answers max (gets key now ∷ calls) c es shows =
    let (still, found) = get-Shows max key now c es shows in
    let rest = run-answers max calls (get key now c).0 (spec_get key now es).0 still in
    ap (λ r. r ∷ answers (get key now c).0 calls) found ∙ ap (λ r. (spec_get key now es).1 ∷ r) rest
run-answers max (sets key v expires_at ∷ calls) c es shows =
    run-answers max calls (set key v expires_at c) (spec_set max key v expires_at es)
      (set-Shows max key v expires_at c es shows)
run-answers max (purges ∷ calls) c es (agrees, seen, at, short) =
    run-answers max calls (purge c) [] ((tt, λ k. refl), refl, at, omega arith)

-- Whatever calls follow one another, a new cache for `max` entries answers as the list does that holds
-- the entries used last, at most `max` of them, or one where `max` is 0.
pub new_lru_cache-answers :
    (max : ℕ) (calls : List Call)
    → answers (new_lru_cache max) calls ≡ spec_answers (if max == 0 then 1 else max) [] calls
unfolding new_lru_cache
new_lru_cache-answers max calls =
    run-answers (if max == 0 then 1 else max) calls (new_lru_cache max) []
      ((tt, λ k. refl), refl, refl, omega arith)
