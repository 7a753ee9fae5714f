-- ===== src/Account/Pool/Admin.antt =====
-- internal/account/pool_core.go (`NewPool`, `Reset`) and pool_limits.go (`ApplyRuntimeLimits`), for
-- a pool that has a store. `maxInflightFromEnv` and `maxQueueFromEnv` serve a pool without one, and
-- the warnings are left out. `Reset` is cut where it takes the mutex. A product of two `int` wraps at 64 bits.
use deep_seek_web_to_api.Prelude.{
  ℕ, ◌-◌, ◌*◌, ◌%◌, ◌^◌, Bool, false, ◌&&◌, ◌||◌, not, Option, none, some, List, [], ◌∷◌, ◌++◌,
  length, keep, ltb, ◌==◌, if◌then◌else◌,
}
use deep_seek_web_to_api.Prelude.Int.{ℤ, pos, negsuc, pos_part, ltb_ℤ}
use deep_seek_web_to_api.Prelude.Text.{String, is_empty, str_eq}
use deep_seek_web_to_api.Prelude.Dict.{Dict, lookup, insert}
use deep_seek_web_to_api.Config.Account.{Account, identifier}
use deep_seek_web_to_api.Config.Store.{
  Store, runtime_account_max_inflight, runtime_account_max_queue, runtime_global_max_inflight,
}
use deep_seek_web_to_api.Account.Health.{
  HealthState, Health, rate_limited, temporarily_muted, unix_time, is_over,
}
use deep_seek_web_to_api.Account.Affinity.{Affinity}
use deep_seek_web_to_api.Account.Pool.{Pool, notify_waiter, drain_waiters}

-- The `int` that a natural number wraps to.
abbrev pub wrap_int : ℕ → ℤ
wrap_int n = let w = n % 2 ^ 64 in if ltb w (2 ^ 63) then pos w else negsuc (2 ^ 64 - w - 1)

abbrev is_positive : ℤ → Bool
is_positive n = ltb_ℤ (pos 0) n

unfoldable pub default_recommended_concurrency : ℕ → ℤ → ℤ
default_recommended_concurrency account_count max_inflight =
    if account_count == 0
    then pos 0
    else wrap_int
        (account_count * pos_part (if is_positive max_inflight then max_inflight else pos 2))

abbrev pub effective_max : ℤ → ℤ
effective_max n = if is_positive n then n else pos 1

unfoldable pub effective_global : ℤ → ℤ → ℕ → ℤ
effective_global global max accounts =
    let auto = wrap_int (pos_part max * accounts) in
    if is_positive global then global else if is_positive auto then auto else max

unfoldable pub apply_runtime_limits : Pool → ℤ → ℤ → ℤ → Pool
apply_runtime_limits p max queue_size global = notify_waiter (record p {
  max_inflight_per_account = effective_max max;
  max_queue_size = if ltb_ℤ queue_size (pos 0) then pos 0 else queue_size;
  global_max_inflight = effective_global global (effective_max max) (length p.store.accounts);
  recommended_concurrency = default_recommended_concurrency (length p.queue) (effective_max max);
})

abbrev has_token : Account → Bool
has_token a = not (is_empty a.token)

-- `sort.SliceStable` by the test that is asked of a later and an earlier element only: those with
-- a token come first, in their order, and then the others in theirs.
unfoldable pub token_first : List Account → List Account
token_first accounts = keep has_token accounts ++ keep (λ a. not (has_token a)) accounts

abbrev cooldown_state : String → Option HealthState
cooldown_state s =
    if str_eq s "rate_limited"
    then some rate_limited
    else if str_eq s "temporarily_muted"
    then some temporarily_muted
    else none

unfoldable pub persisted_cooldown_health : Account → ℕ → Option Health
persisted_cooldown_health acc now =
    let until = unix_time acc.cooldown_until_unix in
    if not (ltb now until) then none else elim (cooldown_state acc.cooldown_state) [
      | none ↦ none
      | some state ↦ some (record {
        state = state;
        until = until;
        reason = "restored persisted cooldown";
        updated_at = now;
      })
    ]

-- An account that takes part: it is enabled and has an identifier.
abbrev pub is_active : Account → Bool
is_active a = not a.disabled && not (is_empty (identifier a))

unfoldable pub active_ids : List Account → List String
active_ids [] = []
active_ids (a ∷ rest) = let ids = active_ids rest in if is_active a then identifier a ∷ ids else ids

-- `persistedHealth`, filled in order, so that a later account with the same identifier wins.
unfoldable pub persisted_health : ℕ → List Account → Dict Health → Dict Health
persisted_health now [] m = m
persisted_health now (a ∷ rest) m = persisted_health now rest (
    if is_active a
    then elim (persisted_cooldown_health a now) [ none ↦ m | some h ↦ insert (identifier a) h m ]
    else m)

unfoldable pub has_id : String → List String → Bool
has_id id [] = false
has_id id (x ∷ xs) = str_eq x id || has_id id xs

-- The loop over the old entries.
unfoldable pub refresh_health : ℕ → List String → Dict Health → Dict Health → Dict Health
refresh_health now ids persisted [] = []
refresh_health now ids persisted ((id, h) ∷ rest) =
    let kept = refresh_health now ids persisted rest in
    if has_id id ids
    then elim (lookup id persisted) [
      | some p ↦ (id, p) ∷ kept
      | none ↦ if is_over now h then kept else (id, h) ∷ kept
    ]
    else kept

-- The loop that writes the restored cooldowns.
unfoldable pub insert_all : Dict Health → Dict Health → Dict Health
insert_all [] m = m
insert_all ((id, h) ∷ rest) m = insert_all rest (insert id h m)

-- What `Reset` has computed when it takes the mutex.
pub record Plan : Type 0 where
  pub now : ℕ
  pub ids : List String
  pub persisted : Dict Health
  pub recommended : ℤ
  pub queue_limit : ℤ
  pub global_limit : ℤ

-- The limit for one account, which `Reset` writes without the mutex.
unfoldable pub prepare_reset : Pool → Pool
prepare_reset p = record p { max_inflight_per_account = runtime_account_max_inflight p.store }

unfoldable pub plan_reset : Store → ℤ → ℕ → Plan
plan_reset store max now =
    let accounts = token_first store.accounts in
    let ids = active_ids accounts in
    let recommended = default_recommended_concurrency (length ids) max in
    record {
      now = now;
      ids = ids;
      persisted = persisted_health now accounts [];
      recommended = recommended;
      queue_limit = runtime_account_max_queue store recommended;
      global_limit = runtime_global_max_inflight store recommended;
    }

-- The part of `Reset` that holds the mutex.
unfoldable pub apply_plan : Pool → Plan → Pool
apply_plan p plan =
    let drained = drain_waiters p in
    record drained {
      queue = plan.ids;
      in_use = [];
      health = insert_all plan.persisted (refresh_health plan.now plan.ids plan.persisted p.health);
      recommended_concurrency = plan.recommended;
      max_queue_size = plan.queue_limit;
      global_max_inflight = plan.global_limit;
    }

-- `Reset`, where no other goroutine comes in between.
unfoldable pub reset : Pool → ℕ → Pool
unfolding prepare_reset plan_reset apply_plan
reset p now =
    let ready = prepare_reset p in
    apply_plan ready (plan_reset ready.store ready.max_inflight_per_account now)

unfoldable pub new_pool : Store → Affinity → ℕ → Pool
new_pool store affinity now =
    reset
      (record {
        store = store;
        queue = [];
        in_use = [];
        waiters = [];
        closed = [];
        next_channel = 0;
        health = [];
        max_inflight_per_account = runtime_account_max_inflight store;
        recommended_concurrency = pos 0;
        max_queue_size = pos 0;
        global_max_inflight = pos 0;
        affinity = affinity;
      })
      now
