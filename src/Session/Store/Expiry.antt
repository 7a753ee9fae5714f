-- ===== src/Session/Store/Expiry.antt =====
-- Which branches `pruneLocked` drops (internal/upstreamsession/store.go).
use deep_seek_web_to_api.Prelude.{
  ℕ, ◌-◌, ◌||◌, not, ltb, ◌∙◌, ◌≡◌, refl, true, none, List, [], ◌∷◌, keep, arith,
}
use deep_seek_web_to_api.Prelude.Text.{String, eq_iff}
use deep_seek_web_to_api.Prelude.Dict.{Dict, lookup, Distinct}
use deep_seek_web_to_api.Session.Branch.{Store, Entry, is_alive, is_nil, prune_entries, prune}
use deep_seek_web_to_api.Session.Store.{items_at}

pub lookup-prune_entries :
    (ttl now : ℕ) (key : String) (m : Dict (List Entry))
    → lookup key m ≡ none
    → lookup key (prune_entries ttl now m) ≡ none
unfolding prune_entries
lookup-prune_entries ttl now key [] h = refl
lookup-prune_entries ttl now key ((j, items) ∷ rest) h =
    ground (arith, lookup-prune_entries ttl now key rest)

keep_none :
    (ttl now : ℕ) (items : List Entry)
    → is_nil (keep (is_alive ttl now) items) ≡ true
    → keep (is_alive ttl now) items ≡ []
keep_none ttl now items h = ground arith

items_at-prune_entries :
    (ttl now : ℕ) (key : String) (m : Dict (List Entry))
    → Distinct m
    → items_at key (prune_entries ttl now m) ≡ keep (is_alive ttl now) (items_at key m)
unfolding prune_entries
items_at-prune_entries ttl now key [] d = refl
items_at-prune_entries ttl now key ((j, items) ∷ rest) d = ground (
  arith,
  eq_iff j key,
  items_at-prune_entries ttl now key rest d.1,
  lookup-prune_entries ttl now key rest,
  keep_none ttl now items,
)

keep-same :
    (ttl now : ℕ) (items : List Entry)
    → keep (is_alive ttl now) items ≡ keep (λ e. e.busy || not (ltb ttl (now - e.updated_at))) items
keep-same ttl now [] = refl
keep-same ttl now (e ∷ items) = ground (arith, keep-same ttl now items)

pub prune-is_alive :
    (s : Store) (now : ℕ) (key : String)
    → Distinct s.entries
    → items_at key (prune s now).entries ≡ keep (is_alive s.ttl now) (items_at key s.entries)
unfolding prune
prune-is_alive s now key d = items_at-prune_entries s.ttl now key s.entries d

-- Pruning leaves of each scope, in order, the branches that are leased or were updated no longer ago
-- than the time to live, and no others.
pub items_at-prune :
    (s : Store) (now : ℕ) (key : String)
    → Distinct s.entries
    → items_at key (prune s now).entries
      ≡ keep (λ e. e.busy || not (ltb s.ttl (now - e.updated_at))) (items_at key s.entries)
items_at-prune s now key d =
    prune-is_alive s now key d ∙ keep-same s.ttl now (items_at key s.entries)
