-- ===== src/Account/Pool/Marks.antt =====
-- internal/account/health.go: the operations that mark an account, and read its health. The lock
-- is taken more than once in a mark; nothing of the pool is read between.
use deep_seek_web_to_api.Prelude.{ℕ, ◌+◌, Option, none, ◌==◌, not, ltb, if◌then◌else◌}
use deep_seek_web_to_api.Prelude.Text.{String, is_empty}
use deep_seek_web_to_api.Prelude.Dict.{insert, delete}
use deep_seek_web_to_api.Account.Health.{
  HealthState, rate_limited, temporarily_muted, invalid_credentials, permanently_banned, Health,
  default_mute_cooldown, default_rate_limit_cooldown,
}
use deep_seek_web_to_api.Account.Affinity.{forget_account}
use deep_seek_web_to_api.Account.Pool.{Pool, notify_waiter, account_health}

-- Write the entry, forget the bindings to the account, wake one waiter.
unfoldable pub put_health : Pool → String → Health → Pool
put_health p id h =
    notify_waiter
      (record p { health = insert id h p.health; affinity = forget_account p.affinity id })

unfoldable pub clear_health : Pool → String → Pool
clear_health p id =
    if is_empty id then p else notify_waiter (record p { health = delete id p.health })

unfoldable pub mark_transient_account : Pool → ℕ → String → HealthState → ℕ → String → Pool
mark_transient_account p now id state until reason =
    if is_empty id
    then p
    else if not (ltb now until)
    then clear_health p id
    else put_health p id
        (record { state = state; until = until; reason = reason; updated_at = now })

unfoldable pub mark_rate_limited : Pool → ℕ → String → ℕ → String → Pool
mark_rate_limited p now id until reason =
    mark_transient_account p now id rate_limited
      (if until == 0 then now + default_rate_limit_cooldown else until) reason

unfoldable pub mark_temporary_mute : Pool → ℕ → String → ℕ → String → Pool
mark_temporary_mute p now id until reason =
    mark_transient_account p now id temporarily_muted
      (if until == 0 then now + default_mute_cooldown else until) reason

unfoldable pub mark_blocked_account : Pool → ℕ → String → HealthState → String → Pool
mark_blocked_account p now id state reason =
    if is_empty id
    then p
    else put_health p id (record { state = state; until = 0; reason = reason; updated_at = now })

unfoldable pub mark_permanently_banned : Pool → ℕ → String → String → Pool
mark_permanently_banned p now id reason = mark_blocked_account p now id permanently_banned reason

unfoldable pub mark_invalid_credentials : Pool → ℕ → String → String → Pool
mark_invalid_credentials p now id reason = mark_blocked_account p now id invalid_credentials reason

-- `AccountHealth`
unfoldable pub read_health : Pool → ℕ → String → Pool × Option Health
read_health p now id = if is_empty id then (p, none) else account_health p now id
