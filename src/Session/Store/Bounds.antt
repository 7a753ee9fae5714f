-- ===== src/Session/Store/Bounds.antt =====
-- The number of branches that a scope keeps (internal/upstreamsession/store.go), over every history.
use deep_seek_web_to_api.Prelude.{
  ℕ, ◌≤◌, ◌≡◌, refl, true, none, some, List, [], ◌∷◌, length, not, ◌||◌, arith, ◌∙◌, Bool-cases,
  Option-cases, inl, inr, length-append,
}
use deep_seek_web_to_api.Prelude.Int.{ℤ}
use deep_seek_web_to_api.Prelude.Text.{String}
use deep_seek_web_to_api.Prelude.Dict.{lookup}
use deep_seek_web_to_api.Session.Message.{Value, canonical_messages}
use deep_seek_web_to_api.Session.Branch.{
  Scope, Lease, Store, Entry, valid_scope, scope_key, is_nil, is_blank, prune,
}
use deep_seek_web_to_api.Session.Store.{
  select_branch, Selected, is_positive, update_at, update_found, items_at, update_entry,
  lease_branch, prepare, diagnose, record_branch, remove_entry, invalidate, release, complete,
}
use deep_seek_web_to_api.Session.Store.Steps.{
  Call, prepares, diagnoses, records, completes, invalidates, releases, step, run,
}
use deep_seek_web_to_api.Session.Store.Lengths.{
  Within, items_at-Within, insert-Within, delete-Within, prune_entries-Within, length-update_entry,
  length-remove_entry-le, bound_branches-le,
}

-- The bound of the store holds for each of its lists.
abbrev pub InBounds : Store → Type 0
InBounds s = Within s.max_branches s.entries

-- The bound is the same and still holds.
abbrev pub Keeps : Store → Store → Type 0
Keeps s t = (t.max_branches ≡ s.max_branches) × InBounds t

prune-Keeps : (s : Store) (now : ℕ) → InBounds s → Keeps s (prune s now)
unfolding prune
prune-Keeps s now h = (refl, prune_entries-Within s.max_branches s.ttl now s.entries h)

lease_branch-Keeps :
    (s : Store) (key : String) (messages : List Value) (max_turns : ℕ) (c : Selected)
    → InBounds s
    → Keeps s (lease_branch s key messages max_turns c).0
unfolding lease_branch
lease_branch-Keeps s key messages max_turns none h = (refl, h)
lease_branch-Keeps s key messages max_turns (some (e, consumed, mode)) h =
    let items = items_at key s.entries in
    let size = length-update_entry e.id (λ x. record x { busy = true }) items in
    (
      refl,
      insert-Within s.max_branches key (update_entry e.id (λ x. record x { busy = true }) items)
          s.entries (omega (arith, size, items_at-Within s.max_branches key s.entries h)) h,
    )

prepare-Keeps :
    (s : Store) (now : ℕ) (scope : Scope) (messages : List Value) (max_turns : ℕ)
    → InBounds s
    → Keeps s (prepare s now scope messages max_turns).0
unfolding prepare
prepare-Keeps s now scope messages max_turns h =
    let pruned = prune s now in
    let key = scope_key scope in
    let (same, within) = prune-Keeps s now h in
    let (kept, bounded) =
      lease_branch-Keeps pruned key messages max_turns
        (select_branch scope (canonical_messages messages) none (items_at key pruned.entries))
        within in
    elim (Bool-cases (not (valid_scope scope) || is_nil messages)) [
      | inl t ↦ rw t (refl, h)
      | inr t ↦ rw t (ground (arith, kept, same), bounded)
    ]

diagnose-Keeps :
    (s : Store) (now : ℕ) (scope : Scope) (messages : List Value)
    → InBounds s
    → Keeps s (diagnose s now scope messages)
unfolding diagnose
diagnose-Keeps s now scope messages h =
    elim (Bool-cases (not (valid_scope scope) || is_nil messages)) [
      | inl t ↦ rw t (refl, h)
      | inr t ↦ rw t (prune-Keeps s now h)
    ]

update_at-Keeps :
    (s : Store) (key : String) (id : ℕ) (f : Entry → Entry)
    → InBounds s
    → Keeps s (update_at s key id f)
unfolding update_found
update_at-Keeps s key id f h = elim (Option-cases (lookup key s.entries)) [
  | inl e ↦ rw e (refl, h)
  | inr (items, e) ↦
      let size : length items ≤ s.max_branches =
        ground (arith, e, items_at-Within s.max_branches key s.entries h) in
      rw e (
        refl,
        insert-Within s.max_branches key (update_entry id f items) s.entries
            (omega (arith, size, length-update_entry id f items)) h,
      )
]

invalidate-Keeps : (s : Store) (l : Lease) → InBounds s → Keeps s (invalidate s l)
unfolding invalidate
invalidate-Keeps s l h =
    let items = remove_entry l.entry_id (items_at l.key s.entries) in
    elim (Bool-cases (is_nil items)) [
      | inl t ↦ rw t (refl, delete-Within s.max_branches l.key s.entries h)
      | inr t ↦ rw t (
        refl,
        insert-Within s.max_branches l.key items s.entries
            (omega (
              arith,
              length-remove_entry-le l.entry_id (items_at l.key s.entries),
              items_at-Within s.max_branches l.key s.entries h,
            ))
            h,
      )
    ]

complete-Keeps :
    (s : Store) (now : ℕ) (l : Lease) (scope : Scope) (request response : List Value)
    (session_id : String) (parent : ℤ)
    → InBounds s
    → Keeps s (complete s now l scope request response session_id parent)
unfolding complete
complete-Keeps s now l scope request response session_id parent h =
    elim (Bool-cases (
      is_nil request
      || is_nil response
      || not (valid_scope scope)
      || not (is_positive parent)
      || is_blank session_id)) [
        | inl t ↦ rw t (invalidate-Keeps s l h)
        | inr t ↦ rw t (update_at-Keeps s l.key l.entry_id _ h)
      ]

record_branch-Keeps :
    (s : Store) (now : ℕ) (scope : Scope) (request response : List Value) (session_id : String)
    (parent : ℤ)
    → InBounds s
    → Keeps s (record_branch s now scope request response session_id parent)
unfolding record_branch
record_branch-Keeps s now scope request response session_id parent h =
    let pruned = prune s now in
    let (same, within) = prune-Keeps s now h in
    let old = items_at (scope_key scope) pruned.entries in
    let few = items_at-Within pruned.max_branches (scope_key scope) pruned.entries within in
    elim (Bool-cases (
      not (valid_scope scope)
      || is_blank session_id
      || not (is_positive parent)
      || is_nil request
      || is_nil response)) [
        | inl t ↦ rw t (refl, h)
        | inr t ↦ rw t (
          same,
          insert-Within pruned.max_branches (scope_key scope) _ pruned.entries
              (bound_branches-le pruned.max_branches _ (omega (arith, few, length-append old)))
              within,
        )
      ]

step-Keeps : (s : Store) (now : ℕ) (call : Call) → InBounds s → Keeps s (step s now call)
unfolding step release
step-Keeps s now (prepares scope messages max_turns) h =
    prepare-Keeps s now scope messages max_turns h
step-Keeps s now (diagnoses scope messages) h = diagnose-Keeps s now scope messages h
step-Keeps s now (records scope request response id parent) h =
    record_branch-Keeps s now scope request response id parent h
step-Keeps s now (completes l scope request response id parent) h =
    complete-Keeps s now l scope request response id parent h
step-Keeps s now (invalidates l) h = invalidate-Keeps s l h
step-Keeps s now (releases l) h = update_at-Keeps s l.key l.entry_id _ h

-- Whatever calls the store takes, in whatever order and at whatever times: where no scope had more
-- branches than the store's bound, no scope has more, and the bound is the same.
pub run-InBounds :
    (s : Store) (calls : List (ℕ × Call))
    → InBounds s
    → ((run s calls).max_branches ≡ s.max_branches) × InBounds (run s calls)
unfolding run
run-InBounds s [] h = (refl, h)
run-InBounds s ((now, call) ∷ calls) h =
    let (same, within) = step-Keeps s now call h in
    let (kept, bounded) = run-InBounds (step s now call) calls within in (kept ∙ same, bounded)
