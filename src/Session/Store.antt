-- ===== src/Session/Store.antt =====
-- internal/upstreamsession/store.go: the store of branches, and what a lease does to it. The store
-- changes under its mutex only, so that each operation is one function; `now` is the time that it
-- reads. A branch is found again by its id. `Diagnose` is modelled as far as it changes the store:
-- it prunes, and its counters and hashes are left out.
pub mod Lengths
pub mod Bounds
pub mod Exclusive
pub mod Expiry
pub mod Selection
pub mod Leases
pub mod Steps
use Prim.Native.Char.{nul}
use deep_seek_web_to_api.Prelude.{
  ℕ, zero, suc, ◌+◌, ◌-◌, ◌%◌, ◌^◌, Bool, true, false, not, ◌&&◌, ◌||◌, Option, none, some, List,
  [], ◌∷◌, ◌++◌, length, take, drop, keep, ltb, leb, ◌==◌, if◌then◌else◌,
}
use deep_seek_web_to_api.Prelude.Int.{ℤ, pos, ltb_ℤ}
use deep_seek_web_to_api.Prelude.Text.{String, is_empty, str_eq, trim_space, concat}
use deep_seek_web_to_api.Prelude.Dict.{Dict, lookup, insert, delete}
use deep_seek_web_to_api.Session.Message.{Value, canonical_messages}
use deep_seek_web_to_api.Session.Match.{Mode, strict_prefix, sliding_suffix, match_branch_extension}
use deep_seek_web_to_api.Session.Branch.{
  Scope, Entry, Lease, Store, default_ttl, default_max_branches, nat_or, new_store, is_blank,
  valid_scope, join_nul, scope_key, scope_eq, is_nil, is_alive, prune_entries, prune,
}

-- s.entries[key]
abbrev pub items_at : String → Dict (List Entry) → List Entry
items_at key m = elim (lookup key m) [ none ↦ [] | some items ↦ items ]

abbrev pub is_positive : ℤ → Bool
is_positive n = ltb_ℤ (pos 0) n

-- A branch that may be leased for the scope.
unfoldable pub is_candidate : Scope → Entry → Bool
is_candidate scope e =
    not e.busy
    && scope_eq e.scope scope
    && is_positive e.parent_message_id
    && not (is_blank e.session_id)

-- `selected`, `selectedConsumed` and `selectedMode` of the loop.
abbrev pub Selected : Type 0
Selected = Option (Entry × ℕ × Mode)

-- Whether a match replaces what was selected before it.
unfoldable pub is_better : ℕ → Selected → Bool
is_better consumed none = true
is_better consumed (some (e, best, strict_prefix)) = ltb best consumed
is_better consumed (some (e, best, sliding_suffix)) = leb best consumed

unfoldable pub consider : Scope → List Value → Selected → Entry → Selected
consider scope current selected e =
    if is_candidate scope e
    then elim (match_branch_extension current e.request_messages e.response_messages) [
      | none ↦ selected
      | some (consumed, mode) ↦
          if is_better consumed selected then some (e, consumed, mode) else selected
    ]
    else selected

unfoldable pub select_branch : Scope → List Value → Selected → List Entry → Selected
select_branch scope current selected [] = selected
select_branch scope current selected (e ∷ rest) =
    select_branch scope current (consider scope current selected e) rest

-- A write to the fields of the branch with the id.
unfoldable pub update_entry : ℕ → (Entry → Entry) → List Entry → List Entry
update_entry id f [] = []
update_entry id f (e ∷ rest) =
    let later = update_entry id f rest in if e.id == id then f e ∷ rest else e ∷ later

abbrev pub write_items : Store → String → List Entry → Store
write_items s key items = record s { entries = insert key items s.entries }

abbrev pub set_busy : Bool → Entry → Entry
set_busy b e = record e { busy = b }

abbrev pub new_lease : String → List Value → ℕ → Entry → ℕ → Mode → Lease
new_lease key messages max_turns e consumed mode = record {
  key = key;
  entry_id = e.id;
  session_id = e.session_id;
  parent_message_id = e.parent_message_id;
  delta_messages = drop consumed messages;
  turn_count = e.turns;
  rotate = ltb 0 max_turns && leb max_turns e.turns;
  match_mode = mode;
}

unfoldable pub lease_branch : Store → String → List Value → ℕ → Selected → Store × Option Lease
lease_branch s key messages max_turns none = (s, none)
lease_branch s key messages max_turns (some (e, consumed, mode)) = (
  write_items s key (update_entry e.id (set_busy true) (items_at key s.entries)),
  some (new_lease key messages max_turns e consumed mode),
)

-- `PrepareWithMaxTurns`; with 0 turns it is `Prepare`.
unfoldable pub prepare : Store → ℕ → Scope → List Value → ℕ → Store × Option Lease
prepare s now scope messages max_turns =
    if not (valid_scope scope) || is_nil messages
    then (s, none)
    else let pruned = prune s now in
      let key = scope_key scope in
      lease_branch pruned key messages max_turns
        (select_branch scope (canonical_messages messages) none (items_at key pruned.entries))

unfoldable pub diagnose : Store → ℕ → Scope → List Value → Store
diagnose s now scope messages =
    if not (valid_scope scope) || is_nil messages then s else prune s now

-- The position of the first branch with the earliest time, behind `i` branches of which the one at
-- `best` has the earliest, `time`.
unfoldable pub oldest_from : ℕ → ℕ → ℕ → List Entry → ℕ
oldest_from best time i [] = best
oldest_from best time i (e ∷ rest) =
    let older = ltb e.updated_at time in
    oldest_from (if older then i else best) (if older then e.updated_at else time) (i + 1) rest

unfoldable pub oldest_index : List Entry → ℕ
oldest_index [] = 0
oldest_index (e ∷ rest) = oldest_from 0 e.updated_at 1 rest

-- append(items[:i], items[i+1:]...)
abbrev pub remove_at {ℓ} : {A : Type ℓ} → ℕ → List A → List A
remove_at i xs = take i xs ++ drop (suc i) xs

unfoldable pub bound_branches : ℕ → List Entry → List Entry
bound_branches max items =
    if ltb max (length items) then remove_at (oldest_index items) items else items

unfoldable pub record_branch : Store → ℕ → Scope → List Value → List Value → String → ℤ → Store
record_branch s now scope request response session_id parent =
    if not (valid_scope scope)
      || is_blank session_id
      || not (is_positive parent)
      || is_nil request
      || is_nil response
    then s
    else let pruned = prune s now in
      let key = scope_key scope in
      let id = (s.next_id + 1) % 2 ^ 64 in
      let created : Entry = record {
        id = id;
        scope = scope;
        session_id = trim_space session_id;
        parent_message_id = parent;
        request_messages = canonical_messages request;
        response_messages = canonical_messages response;
        turns = 1;
        updated_at = now;
        busy = false;
      } in
      let items = items_at key pruned.entries ++ created ∷ [] in
      write_items (record pruned { next_id = id }) key (bound_branches pruned.max_branches items)

-- The branches without the first that has the id.
unfoldable pub remove_entry : ℕ → List Entry → List Entry
remove_entry id [] = []
remove_entry id (e ∷ rest) =
    let later = remove_entry id rest in if e.id == id then rest else e ∷ later

-- `Invalidate`
unfoldable pub invalidate : Store → Lease → Store
invalidate s l =
    let items = remove_entry l.entry_id (items_at l.key s.entries) in
    if is_nil items
    then record s { entries = delete l.key s.entries }
    else write_items s l.key items

unfoldable pub update_found : Store → String → ℕ → (Entry → Entry) → Option (List Entry) → Store
update_found s key id f none = s
update_found s key id f (some items) = write_items s key (update_entry id f items)

abbrev pub update_at : Store → String → ℕ → (Entry → Entry) → Store
update_at s key id f = update_found s key id f (lookup key s.entries)

-- `Release`
unfoldable pub release : Store → Lease → Store
release s l = update_at s l.key l.entry_id (set_busy false)

-- `Complete`
unfoldable pub complete : Store → ℕ → Lease → Scope → List Value → List Value → String → ℤ → Store
complete s now l scope request response session_id parent =
    if is_nil request
      || is_nil response
      || not (valid_scope scope)
      || not (is_positive parent)
      || is_blank session_id
    then invalidate s l
    else update_at s l.key l.entry_id λ e. record e {
      scope = scope;
      session_id = trim_space session_id;
      parent_message_id = parent;
      request_messages = canonical_messages request;
      response_messages = canonical_messages response;
      turns = e.turns + 1;
      updated_at = now;
      busy = false;
    }
