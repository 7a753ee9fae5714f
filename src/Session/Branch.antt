-- ===== src/Session/Branch.antt =====
-- internal/upstreamsession/store.go: scopes, branches and leases, the store that holds the branches,
-- and the pruning of those that are too old.
use Prim.Native.Char.{nul}
use deep_seek_web_to_api.Prelude.{
  ℕ, suc, ◌-◌, Bool, true, false, not, ◌&&◌, ◌||◌, List, [], ◌∷◌, keep, leb, if◌then◌else◌,
}
use deep_seek_web_to_api.Prelude.Int.{ℤ, pos}
use deep_seek_web_to_api.Prelude.Text.{String, is_empty, str_eq, trim_space, concat}
use deep_seek_web_to_api.Prelude.Dict.{Dict}
use deep_seek_web_to_api.Session.Message.{Value}
use deep_seek_web_to_api.Session.Match.{Mode}

pub record Scope : Type 0 where
  pub caller_id : String
  pub session_key : String
  pub account_id : String
  pub surface : String
  pub variant : String

pub record Entry : Type 0 where
  pub id : ℕ
  pub scope : Scope
  pub session_id : String
  pub parent_message_id : ℤ
  pub request_messages : List Value
  pub response_messages : List Value
  pub turns : ℕ
  pub updated_at : ℕ
  pub busy : Bool

pub record Lease : Type 0 where
  pub key : String
  pub entry_id : ℕ
  pub session_id : String
  pub parent_message_id : ℤ
  pub delta_messages : List Value
  pub turn_count : ℕ
  pub rotate : Bool
  pub match_mode : Mode

pub record Store : Type 0 where
  pub ttl : ℕ
  pub max_branches : ℕ
  pub next_id : ℕ
  pub entries : Dict (List Entry)

-- 6 * time.Hour
abbrev pub default_ttl : ℕ
default_ttl = 21_600_000_000_000

abbrev pub default_max_branches : ℕ
default_max_branches = 8

abbrev pub nat_or : ℤ → ℕ → ℕ
nat_or (pos (suc n)) d = suc n
nat_or _ d = d

unfoldable pub new_store : ℤ → ℤ → Store
new_store ttl max_branches = record {
  ttl = nat_or ttl default_ttl;
  max_branches = nat_or max_branches default_max_branches;
  next_id = 0;
  entries = [];
}

abbrev pub is_blank : String → Bool
is_blank s = is_empty (trim_space s)

unfoldable pub valid_scope : Scope → Bool
valid_scope s =
    not (is_blank s.caller_id)
    && not (is_blank s.session_key)
    && not (is_blank s.account_id)
    && not (is_blank s.surface)
    && not (is_blank s.variant)

abbrev pub join_nul : String → String → String
join_nul s t = concat s (String.◌∷◌ nul t)

unfoldable pub scope_key : Scope → String
scope_key s =
    join_nul s.caller_id
      (join_nul s.session_key (join_nul s.account_id (join_nul s.surface s.variant)))

-- candidate.scope == scope
unfoldable pub scope_eq : Scope → Scope → Bool
scope_eq s t =
    str_eq s.caller_id t.caller_id
    && str_eq s.session_key t.session_key
    && str_eq s.account_id t.account_id
    && str_eq s.surface t.surface
    && str_eq s.variant t.variant

abbrev pub is_nil {ℓ} : {A : Type ℓ} → List A → Bool
is_nil [] = true
is_nil (x ∷ xs) = false

-- A branch that is leased, or not older than the time to live.
abbrev pub is_alive : ℕ → ℕ → Entry → Bool
is_alive ttl now e = e.busy || leb (now - e.updated_at) ttl

unfoldable pub prune_entries : ℕ → ℕ → Dict (List Entry) → Dict (List Entry)
prune_entries ttl now [] = []
prune_entries ttl now ((key, items) ∷ rest) =
    let later = prune_entries ttl now rest in
    let kept = keep (is_alive ttl now) items in if is_nil kept then later else (key, kept) ∷ later

unfoldable pub prune : Store → ℕ → Store
prune s now = record s { entries = prune_entries s.ttl now s.entries }
