-- ===== src/Tests/SessionTests.antt =====
-- Examples for internal/upstreamsession: a branch of one turn, and the conversation that extends it.
use deep_seek_web_to_api.Prelude.{
  ltb, ◌||◌, not, ℕ, ◌+◌, ◌-◌, ◌≤◌, ◌≡◌, ◌≢◌, refl, Bool, true, false, Option, none, some, List, [],
  ◌∷◌, length, get_elem?, keep, arith,
}
use deep_seek_web_to_api.Prelude.Int.{pos}
use deep_seek_web_to_api.Prelude.Text.{String, trim_space, trim_left, trim_right, to_lower}
use deep_seek_web_to_api.Session.Message.{
  Value, text, object, end, field, canonical_messages, canonical_message, is_assistant,
  message_role, value_eq, get_field, string_field, replace_field, delete_field, visible_content,
  without_reasoning, visible_blocks, block_type,
}
use deep_seek_web_to_api.Session.Match.{
  strict_prefix, sliding_suffix, match_branch_extension, strict_match, message_prefix_equal,
  starts_with,
}
use deep_seek_web_to_api.Session.Match.Sound.{Extends, match_branch_extension_sound}
use deep_seek_web_to_api.Session.Branch.{
  Scope, Entry, Lease, Store, valid_scope, is_alive, scope_key, prune, prune_entries, scope_eq,
}
use deep_seek_web_to_api.Session.Store.{
  is_candidate, items_at, new_lease, prepare, lease_branch, select_branch, consider, is_better,
  update_entry,
}
use deep_seek_web_to_api.Session.Store.Steps.{Call, records, prepares, run}
use deep_seek_web_to_api.Session.Store.Bounds.{InBounds, run-InBounds}
use deep_seek_web_to_api.Session.Store.Expiry.{items_at-prune}
use deep_seek_web_to_api.Session.Store.Exclusive.{AreUnique, prepare_twice}
use deep_seek_web_to_api.Session.Store.Leases.{IsAsked, Leases, prepare-Leases, prepare_best}
use deep_seek_web_to_api.Session.Store.Selection.{Member}

abbrev message : String → String → Value
message role content = object (field "role" (text role) (field "content" (text content) end))

abbrev asked : List Value
asked = message "user" "one" ∷ []

abbrev answered : List Value
answered = message "assistant" "two" ∷ []

abbrev conversation : List Value
conversation = message "user" "one" ∷ message "assistant" "two" ∷ message "user" "three" ∷ []

-- A client that has dropped the start of a longer branch.
abbrev longer : List Value
longer = message "user" "zero" ∷ message "assistant" "half" ∷ message "user" "one" ∷ []

extends_strictly : match_branch_extension conversation asked answered ≡ some (2, strict_prefix)
unfolding match_branch_extension deep_seek_web_to_api.Session.Match.strict_match
    deep_seek_web_to_api.Session.Match.message_prefix_equal
    deep_seek_web_to_api.Session.Match.starts_with deep_seek_web_to_api.Session.Message.value_eq
extends_strictly = refl

extends_sliding : match_branch_extension conversation longer answered ≡ some (2, sliding_suffix)
unfolding match_branch_extension deep_seek_web_to_api.Session.Match.strict_match
    deep_seek_web_to_api.Session.Match.sliding_match
    deep_seek_web_to_api.Session.Match.leading_system_count
    deep_seek_web_to_api.Session.Message.message_role deep_seek_web_to_api.Prelude.Text.to_lower
    deep_seek_web_to_api.Prelude.Text.trim_space deep_seek_web_to_api.Session.Message.string_field
    deep_seek_web_to_api.Session.Message.get_field
    deep_seek_web_to_api.Session.Match.message_prefix_equal
    deep_seek_web_to_api.Session.Match.starts_with
    deep_seek_web_to_api.Session.Match.largest_overlap deep_seek_web_to_api.Session.Match.overlaps
    deep_seek_web_to_api.Session.Match.raw_messages_equal
    deep_seek_web_to_api.Session.Message.value_eq deep_seek_web_to_api.Session.Match.contain_role
extends_sliding = refl

match_branch_extension_sound_example : Extends conversation longer answered 2 sliding_suffix
match_branch_extension_sound_example =
    match_branch_extension_sound conversation longer answered 2 sliding_suffix extends_sliding

abbrev scope : Scope
scope = record {
  caller_id = "caller";
  session_key = "key";
  account_id = "a@b";
  surface = "openai";
  variant = "chat";
}

abbrev branch : Entry
branch = record {
  id = 1;
  scope = scope;
  session_id = "s";
  parent_message_id = pos 2;
  request_messages = asked;
  response_messages = answered;
  turns = 1;
  updated_at = 10;
  busy = false;
}

abbrev session_store : Store
session_store = record {
  ttl = 100;
  max_branches = 1;
  next_id = 1;
  entries = (scope_key scope, branch ∷ []) ∷ [];
}

canonical_conversation : canonical_messages conversation ≡ conversation
unfolding is_assistant canonical_messages deep_seek_web_to_api.Session.Message.canonical_message
    deep_seek_web_to_api.Session.Message.message_role deep_seek_web_to_api.Prelude.Text.to_lower
    deep_seek_web_to_api.Prelude.Text.trim_space deep_seek_web_to_api.Session.Message.string_field
    deep_seek_web_to_api.Session.Message.get_field
    deep_seek_web_to_api.Session.Message.without_reasoning
    deep_seek_web_to_api.Session.Message.replace_field
    deep_seek_web_to_api.Session.Message.delete_field
    deep_seek_web_to_api.Session.Message.visible_content
canonical_conversation = refl

abbrev leased : Store
leased = record session_store {
  entries = (scope_key scope, record branch { busy = true } ∷ []) ∷ [];
}

abbrev lease : Lease
lease = new_lease (scope_key scope) conversation 0 branch 2 strict_prefix

prepares_lease : prepare session_store 20 scope conversation 0 ≡ (leased, some lease)
unfolding is_assistant prepare scope_key valid_scope trim_space lease_branch select_branch prune
    prune_entries consider is_candidate scope_eq match_branch_extension strict_match
    canonical_messages message_prefix_equal starts_with value_eq canonical_message message_role
    to_lower trim_left trim_right is_better update_entry get_field string_field replace_field
    delete_field visible_content without_reasoning visible_blocks block_type
prepares_lease = refl

prepare-Leases_example :
    (e : Entry) × (consumed : ℕ) × Member e
      (items_at (scope_key scope) (prune session_store 20).entries)
    × (is_candidate scope e ≡ true)
    × Extends
        (canonical_messages conversation)
        e.request_messages
        e.response_messages
        consumed
        strict_prefix
    × Leases (prune session_store 20) (scope_key scope) conversation e consumed leased lease
prepare-Leases_example =
    prepare-Leases session_store 20 scope conversation 0 leased lease prepares_lease

may_lease : is_candidate scope branch ≡ true
unfolding is_candidate deep_seek_web_to_api.Session.Branch.scope_eq
    deep_seek_web_to_api.Prelude.Text.trim_space
may_lease = refl

asks : IsAsked scope conversation
unfolding valid_scope deep_seek_web_to_api.Prelude.Text.trim_space
asks = refl

first_branch :
    get_elem? (items_at (scope_key scope) (prune session_store 20).entries) 0 ≡ some branch
unfolding prune scope_key deep_seek_web_to_api.Session.Branch.prune_entries
first_branch = refl

matches :
    match_branch_extension
      (canonical_messages conversation)
      branch.request_messages
      branch.response_messages
    ≡ some (2, strict_prefix)
unfolding is_assistant match_branch_extension deep_seek_web_to_api.Session.Match.strict_match
    canonical_messages deep_seek_web_to_api.Session.Match.message_prefix_equal
    deep_seek_web_to_api.Session.Match.starts_with deep_seek_web_to_api.Session.Message.value_eq
    deep_seek_web_to_api.Session.Message.canonical_message
    deep_seek_web_to_api.Session.Message.message_role deep_seek_web_to_api.Prelude.Text.to_lower
    deep_seek_web_to_api.Prelude.Text.trim_space deep_seek_web_to_api.Session.Message.string_field
    deep_seek_web_to_api.Session.Message.get_field
    deep_seek_web_to_api.Session.Message.without_reasoning
    deep_seek_web_to_api.Session.Message.replace_field
    deep_seek_web_to_api.Session.Message.delete_field
    deep_seek_web_to_api.Session.Message.visible_content
matches = refl

prepare_best_example :
    (l : Lease) × ((prepare session_store 20 scope conversation 0).1 ≡ some l)
    × (length l.delta_messages ≤ 3 - 2)
prepare_best_example =
    prepare_best session_store 20 scope conversation 0 branch 2 strict_prefix asks (0, first_branch)
      (may_lease, matches)

abbrev calls : List (ℕ × Call)
calls =
    (20, records scope conversation answered "t" (pos 4)) ∷ (30, prepares scope conversation 0) ∷ []

run-InBounds_example :
    ((run session_store calls).max_branches ≡ 1) × InBounds (run session_store calls)
run-InBounds_example = run-InBounds session_store calls (omega arith, tt)

items_at-prune_example :
    items_at (scope_key scope) (prune session_store 200).entries
    ≡ keep
        (λ e. e.busy || not (ltb 100 (200 - e.updated_at)))
        (items_at (scope_key scope) session_store.entries)
items_at-prune_example = items_at-prune session_store 200 (scope_key scope) (refl, tt)

-- The same branch a second time, under another id.
abbrev twin : Entry
twin = record branch { id = 2 }

abbrev twin_store : Bool → Bool → Store
twin_store first second = record session_store {
  entries =
      (scope_key scope, record branch { busy = first } ∷ record twin { busy = second } ∷ []) ∷ [];
}

leases_first : prepare (twin_store false false) 20 scope conversation 0 ≡ (
  twin_store true false,
  some (new_lease (scope_key scope) conversation 0 branch 2 strict_prefix),
)
unfolding is_assistant prepare scope_key valid_scope trim_space lease_branch select_branch prune
    prune_entries consider is_candidate scope_eq match_branch_extension strict_match
    canonical_messages message_prefix_equal starts_with value_eq canonical_message message_role
    to_lower trim_left trim_right is_better update_entry get_field string_field replace_field
    delete_field visible_content without_reasoning visible_blocks block_type
leases_first = refl

leases_second :
    prepare (twin_store true false) 30 scope conversation 0
    ≡ (twin_store true true, some (new_lease (scope_key scope) conversation 0 twin 2 strict_prefix))
unfolding is_assistant prepare scope_key valid_scope trim_space lease_branch select_branch prune
    prune_entries consider is_candidate scope_eq match_branch_extension strict_match
    canonical_messages message_prefix_equal starts_with value_eq canonical_message message_role
    to_lower trim_left trim_right is_better update_entry get_field string_field replace_field
    delete_field visible_content without_reasoning visible_blocks block_type
leases_second = refl

twins_differ : AreUnique (items_at (scope_key scope) (twin_store false false).entries)
unfolding scope_key
twins_differ = ((refl, tt), (tt, tt))

prepare_twice_example :
    (new_lease (scope_key scope) conversation 0 twin 2 strict_prefix).entry_id
    ≢ (new_lease (scope_key scope) conversation 0 branch 2 strict_prefix).entry_id
prepare_twice_example =
    prepare_twice (twin_store false false) 20 30 scope conversation conversation 0
      (twin_store true false) (twin_store true true)
      (new_lease (scope_key scope) conversation 0 branch 2 strict_prefix)
      (new_lease (scope_key scope) conversation 0 twin 2 strict_prefix) (refl, tt) twins_differ
      leases_first leases_second
