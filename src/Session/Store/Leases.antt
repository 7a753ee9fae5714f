-- ===== src/Session/Store/Leases.antt =====
-- What a lease is (internal/upstreamsession/store.go, `PrepareWithMaxTurns`): the branch that holds
-- most of the conversation, and the messages that it does not hold.
use deep_seek_web_to_api.Prelude.{
  ℕ, suc, ◌≤◌, ◌≡◌, refl, sym, ap, ◌∙◌, true, false, none, some, List, inl, inr, length,
  length-drop, ◌-◌, drop, not, ◌||◌, arith, Bool-cases,
}
use deep_seek_web_to_api.Prelude.Text.{String}
use deep_seek_web_to_api.Session.Message.{Value, canonical_messages}
use deep_seek_web_to_api.Session.Match.{Mode}
use deep_seek_web_to_api.Session.Match.Sound.{Extends, match_branch_extension_sound}
use deep_seek_web_to_api.Session.Branch.{
  Scope, Lease, Store, Entry, is_nil, valid_scope, scope_key, prune,
}
use deep_seek_web_to_api.Session.Store.{
  Selected, items_at, set_busy, update_entry, write_items, new_lease, is_candidate, select_branch,
  lease_branch, prepare,
}
use deep_seek_web_to_api.Session.Store.Selection.{
  Member, Matches, rank, select_branch-Ranks, select_branch-Matches,
}

-- The lease of a branch that was selected: it marks the branch as busy, carries the branch's upstream
-- session, and leaves over the messages that the branch does not hold.
abbrev pub Leases : Store → String → List Value → Entry → ℕ → Store → Lease → Type 0
Leases s key messages e consumed t l =
    (t ≡ write_items s key (update_entry e.id (set_busy true) (items_at key s.entries)))
    × (l.entry_id ≡ e.id)
    × (l.session_id ≡ e.session_id)
    × (l.parent_message_id ≡ e.parent_message_id)
    × (l.delta_messages ≡ drop consumed messages)

lease_branch-Leases :
    (s : Store) (key : String) (messages : List Value) (max_turns : ℕ) (selected : Selected)
    (t : Store) (l : Lease)
    → lease_branch s key messages max_turns selected ≡ (t, some l)
    → (e : Entry) × (consumed : ℕ) × (selected ≡ some (e, consumed, l.match_mode))
      × Leases s key messages e consumed t l
unfolding lease_branch
lease_branch-Leases s key messages max_turns none t l h = cc
lease_branch-Leases s key messages max_turns (some (e, consumed, mode)) t l h =
    let made : some (new_lease key messages max_turns e consumed mode) ≡ some l = ap (λ r. r.1) h in
    let same : new_lease key messages max_turns e consumed mode ≡ l = cc made in
    (
      e,
      consumed,
      ap (λ x. some (e, consumed, x.match_mode)) same,
      (
        sym (ap (λ r. r.0) h),
        sym (ap (λ x. x.entry_id) same),
        sym (ap (λ x. x.session_id) same),
        sym (ap (λ x. x.parent_message_id) same),
        sym (ap (λ x. x.delta_messages) same),
      ),
    )

-- What is asked of the arguments before the store is looked at.
abbrev pub IsAsked : Scope → List Value → Type 0
IsAsked scope messages = (not (valid_scope scope) || is_nil messages) ≡ false

-- The branch that the loop selects.
abbrev pub selection : Store → ℕ → Scope → List Value → Selected
selection s now scope messages =
    select_branch scope (canonical_messages messages) none
      (items_at (scope_key scope) (prune s now).entries)

prepare-open :
    (s : Store) (now : ℕ) (scope : Scope) (messages : List Value) (max_turns : ℕ)
    → IsAsked scope messages
    → prepare s now scope messages max_turns
      ≡ lease_branch
          (prune s now)
          (scope_key scope)
          messages
          max_turns
          (selection s now scope messages)
unfolding prepare
prepare-open s now scope messages max_turns b = rw b refl

prepare-shut :
    (s : Store) (now : ℕ) (scope : Scope) (messages : List Value) (max_turns : ℕ)
    → (not (valid_scope scope) || is_nil messages) ≡ true
    → prepare s now scope messages max_turns ≡ (s, none)
unfolding prepare
prepare-shut s now scope messages max_turns b = rw b refl

-- A lease is of a branch of the scope that pruning has left and that is not busy; the conversation
-- extends that branch as its mode says, and the lease's messages are exactly those
-- behind what the branch holds; the store differs from the pruned one by the branch being busy.
pub prepare-Leases :
    (s : Store) (now : ℕ) (scope : Scope) (messages : List Value) (max_turns : ℕ) (t : Store)
    (l : Lease)
    → prepare s now scope messages max_turns ≡ (t, some l)
    → (e : Entry) × (consumed : ℕ) × Member e (items_at (scope_key scope) (prune s now).entries)
      × (is_candidate scope e ≡ true)
      × Extends
          (canonical_messages messages)
          e.request_messages
          e.response_messages
          consumed
          l.match_mode
      × Leases (prune s now) (scope_key scope) messages e consumed t l
prepare-Leases s now scope messages max_turns t l h =
    let current = canonical_messages messages in
    let items = items_at (scope_key scope) (prune s now).entries in
    elim (Bool-cases (not (valid_scope scope) || is_nil messages)) [
      | inl b ↦
          let none_some : none ≡ some l =
            ap (λ r. r.1) (sym (prepare-shut s now scope messages max_turns b) ∙ h) in
          cc none_some
      | inr b ↦
          let (e, consumed, found, leases) =
            lease_branch-Leases (prune s now) (scope_key scope) messages max_turns
              (selection s now scope messages) t l
              (sym (prepare-open s now scope messages max_turns b) ∙ h) in
          elim (select_branch-Matches scope current none items e consumed l.match_mode found) [
            | inl empty ↦ cc empty
            | inr (here, m) ↦ (
              e,
              consumed,
              here,
              m.0,
              match_branch_extension_sound current e.request_messages e.response_messages consumed
                  l.match_mode m.1,
              leases,
            )
          ]
    ]

lease_branch-rank :
    (s : Store) (key : String) (messages : List Value) (max_turns n : ℕ) (selected : Selected)
    → suc n ≤ rank selected
    → (l : Lease) × ((lease_branch s key messages max_turns selected).1 ≡ some l)
      × (length l.delta_messages ≤ length messages - n)
unfolding lease_branch
lease_branch-rank s key messages max_turns n none h = absurd (omega arith)
lease_branch-rank s key messages max_turns n (some (e, consumed, mode)) h = (
  new_lease key messages max_turns e consumed mode,
  refl,
  omega (arith, length-drop consumed messages),
)

-- Where the scope is whole and there are messages, a branch that may be leased and that the
-- conversation extends is enough for a lease, and the branch that is leased leaves over no more
-- messages than that one would.
pub prepare_best :
    (s : Store) (now : ℕ) (scope : Scope) (messages : List Value) (max_turns : ℕ) (e : Entry)
    (n : ℕ) (mode : Mode)
    → IsAsked scope messages
    → Member e (items_at (scope_key scope) (prune s now).entries)
    → Matches scope (canonical_messages messages) e n mode
    → (l : Lease) × ((prepare s now scope messages max_turns).1 ≡ some l)
      × (length l.delta_messages ≤ length messages - n)
prepare_best s now scope messages max_turns e n mode b here m =
    let items = items_at (scope_key scope) (prune s now).entries in
    let (l, made, few) =
      lease_branch-rank (prune s now) (scope_key scope) messages max_turns n
        (selection s now scope messages)
        (select_branch-Ranks scope (canonical_messages messages) none items e here n mode m) in
    (l, ap (λ r. r.1) (prepare-open s now scope messages max_turns b) ∙ made, few)
