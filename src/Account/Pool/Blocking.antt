-- ===== src/Account/Pool/Blocking.antt =====
-- How long a mark keeps an account from being handed out (internal/account/health.go).
use deep_seek_web_to_api.Prelude.{
  ℕ, ◌+◌, ◌≡◌, ◌≢◌, ◌<◌, refl, true, false, ◌&&◌, none, some, arith, ltb, if◌then◌else◌,
}
use deep_seek_web_to_api.Prelude.Text.{String, is_empty, str_eq, eq_iff}
use deep_seek_web_to_api.Prelude.Dict.{lookup-insert, lookup-delete}
use deep_seek_web_to_api.Config.Account.{Account}
use deep_seek_web_to_api.Account.Health.{
  HealthState, is_transient_health, permanently_banned, rate_limited, default_rate_limit_cooldown,
}
use deep_seek_web_to_api.Account.Pool.{Pool, Exclude, notify_waiter}
use deep_seek_web_to_api.Account.Pool.Choice.{blocking, choice, admissible_parts}
use deep_seek_web_to_api.Account.Pool.Choice.Preferred.{choice-some}
use deep_seek_web_to_api.Account.Pool.Marks.{
  put_health, clear_health, mark_transient_account, mark_rate_limited, mark_blocked_account,
  mark_permanently_banned,
}

-- A cooldown blocks the account until its end and no longer, whatever stood in its place before; an
-- end that is not after the present clears the account, and other accounts are as they were.
pub mark_transient_account-blocking :
    (p : Pool) (now later : ℕ) (id j : String) (state : HealthState) (until : ℕ) (why : String)
    → is_empty id ≡ false
    → is_transient_health state ≡ true
    → blocking later (mark_transient_account p now id state until why).health j ≡ (
        if str_eq id j
        then if ltb now until && ltb later until
          then some (record { state = state; until = until; reason = why; updated_at = now })
          else none
        else blocking later p.health j)
unfolding mark_transient_account put_health clear_health notify_waiter
mark_transient_account-blocking p now later id j state until why e t = ground (
  arith,
  lookup-insert id j (record { state = state; until = until; reason = why; updated_at = now })
      p.health,
  lookup-delete id j p.health,
)

-- A rate limit without an end holds for a minute.
pub mark_rate_limited-default :
    (p : Pool) (now later : ℕ) (id : String) (why : String)
    → is_empty id ≡ false
    → later < now + default_rate_limit_cooldown
    → blocking later (mark_rate_limited p now id 0 why).health id ≢ none
unfolding mark_rate_limited
mark_rate_limited-default p now later id why e h = ground (
  arith,
  mark_transient_account-blocking p now later id id rate_limited (now + default_rate_limit_cooldown)
      why e refl,
  eq_iff id id,
)

-- A blocked account stays blocked at every later time.
pub mark_blocked_account-blocking :
    (p : Pool) (now later : ℕ) (id j : String) (state : HealthState) (why : String)
    → is_empty id ≡ false
    → is_transient_health state ≡ false
    → blocking later (mark_blocked_account p now id state why).health j ≡ (
        if str_eq id j
        then some (record { state = state; until = 0; reason = why; updated_at = now })
        else blocking later p.health j)
unfolding mark_blocked_account put_health notify_waiter
mark_blocked_account-blocking p now later id j state why e t = ground (
  arith,
  lookup-insert id j (record { state = state; until = 0; reason = why; updated_at = now }) p.health,
)

-- A permanently banned account is not chosen under the spelling of its identifier that was marked.
mark_permanently_banned-not_chosen :
    (p : Pool) (now later : ℕ) (id why target : String) (exclude : Exclude)
    → is_empty id ≡ false
    → choice (mark_permanently_banned p now id why) later target exclude ≢ some id
unfolding mark_permanently_banned
mark_permanently_banned-not_chosen p now later id why target exclude e c =
    let free = admissible_parts _ later id (choice-some _ later target exclude id c).1 in
    ground (
      arith,
      free.2,
      mark_blocked_account-blocking p now later id id permanently_banned why e refl,
      eq_iff id id,
    )
