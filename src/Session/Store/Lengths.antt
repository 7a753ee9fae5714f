-- ===== src/Session/Store/Lengths.antt =====
-- The lengths of the lists of branches that the operations of internal/upstreamsession/store.go write.
use deep_seek_web_to_api.Prelude.{
  ℕ, suc, ◌+◌, ◌≤◌, ◌<◌, ◌≡◌, refl, List, [], ◌∷◌, length, take, drop, ltb, arith, Bool-cases, inl,
  inr, length-append, length-take, length-drop, length-keep-le,
}
use deep_seek_web_to_api.Prelude.Text.{String}
use deep_seek_web_to_api.Prelude.Dict.{Dict, insert, delete}
use deep_seek_web_to_api.Session.Branch.{Entry, is_alive, prune_entries}
use deep_seek_web_to_api.Session.Store.{
  items_at, update_entry, oldest_from, oldest_index, remove_at, bound_branches, remove_entry,
}

-- No list of the map is longer than the bound.
abbrev pub Within : ℕ → Dict (List Entry) → Type 0
Within max [] = Unit
Within max ((key, items) ∷ rest) = (length items ≤ max) × Within max rest

pub items_at-Within :
    (max : ℕ) (key : String) (m : Dict (List Entry)) → Within max m → length (items_at key m) ≤ max
items_at-Within max key [] h = omega arith
items_at-Within max key ((j, items) ∷ rest) h = ground (arith, items_at-Within max key rest h.1)

pub insert-Within :
    (max : ℕ) (key : String) (items : List Entry) (m : Dict (List Entry))
    → length items ≤ max
    → Within max m
    → Within max (insert key items m)
insert-Within max key items [] b h = (b, tt)
insert-Within max key items ((j, old) ∷ rest) b h =
    ground (arith, insert-Within max key items rest b h.1)

pub delete-Within :
    (max : ℕ) (key : String) (m : Dict (List Entry)) → Within max m → Within max (delete key m)
delete-Within max key [] h = tt
delete-Within max key ((j, old) ∷ rest) h = ground (arith, delete-Within max key rest h.1)

pub prune_entries-Within :
    (max ttl now : ℕ) (m : Dict (List Entry)) → Within max m → Within max (prune_entries ttl now m)
unfolding prune_entries
prune_entries-Within max ttl now [] h = tt
prune_entries-Within max ttl now ((key, items) ∷ rest) h =
    ground
      (arith, prune_entries-Within max ttl now rest h.1, length-keep-le (is_alive ttl now) items)

pub length-update_entry :
    (id : ℕ) (f : Entry → Entry) (items : List Entry)
    → length (update_entry id f items) ≡ length items
unfolding update_entry
length-update_entry id f [] = refl
length-update_entry id f (e ∷ rest) = ground (arith, length-update_entry id f rest)

pub length-remove_entry-le :
    (id : ℕ) (items : List Entry) → length (remove_entry id items) ≤ length items
unfolding remove_entry
length-remove_entry-le id [] = omega arith
length-remove_entry-le id (e ∷ rest) = ground (arith, length-remove_entry-le id rest)

oldest_from-lt :
    (best time i : ℕ) (items : List Entry)
    → best < i
    → oldest_from best time i items < i + length items
unfolding oldest_from
oldest_from-lt best time i [] h = omega arith
oldest_from-lt best time i (e ∷ rest) h = elim (Bool-cases (ltb e.updated_at time)) [
  | inl t ↦ rw t (ground (arith, oldest_from-lt i e.updated_at (i + 1) rest (omega arith)))
  | inr t ↦ rw t (ground (arith, oldest_from-lt best time (i + 1) rest (omega arith)))
]

oldest_index-lt : (items : List Entry) → 0 < length items → oldest_index items < length items
unfolding oldest_index
oldest_index-lt [] h = absurd (omega arith)
oldest_index-lt (e ∷ rest) h = omega (arith, oldest_from-lt 0 e.updated_at 1 rest (omega arith))

length-remove_at :
    (i : ℕ) (items : List Entry)
    → i < length items
    → suc (length (remove_at i items)) ≡ length items
length-remove_at i items h = ground (
  arith,
  length-append (take i items) (drop (suc i) items),
  length-take i items,
  length-drop (suc i) items,
)

pub bound_branches-le :
    (max : ℕ) (items : List Entry)
    → length items ≤ suc max
    → length (bound_branches max items) ≤ max
unfolding bound_branches
bound_branches-le max items h = elim (Bool-cases (ltb max (length items))) [
  | inl t ↦
      let some_item : 0 < length items = ground (arith, t) in
      let one = length-remove_at (oldest_index items) items (oldest_index-lt items some_item) in
      ground (arith, t, one)
  | inr t ↦ ground (arith, t)
]
