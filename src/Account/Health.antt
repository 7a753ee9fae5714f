-- ===== src/Account/Health.antt =====
-- internal/account/health.go: health states, and when a cooldown is over. A `time.Time` is the
-- number of nanoseconds since the zero time, so that `IsZero` is `== 0` and `After` is `<`.
use deep_seek_web_to_api.Prelude.{ℕ, ◌+◌, ◌-◌, ◌*◌, Bool, true, false, ◌&&◌, not, ltb}
use deep_seek_web_to_api.Prelude.Int.{ℤ, pos, negsuc}
use deep_seek_web_to_api.Prelude.Text.{String}

pub data HealthState : Type 0 where
  healthy disabled rate_limited temporarily_muted invalid_credentials permanently_banned :
      HealthState

pub record Health : Type 0 where
  pub state : HealthState
  pub until : ℕ
  pub reason : String
  pub updated_at : ℕ

abbrev pub second : ℕ
second = 1_000_000_000

-- 7 * 24 * time.Hour
abbrev pub default_mute_cooldown : ℕ
default_mute_cooldown = 604_800 * second

abbrev pub default_rate_limit_cooldown : ℕ
default_rate_limit_cooldown = 60 * second

-- time.Unix(seconds, 0); a time before the zero time is never after another, and is read as 0.
abbrev pub unix_time : ℤ → ℕ
unix_time (pos n) = (62_135_596_800 + n) * second
unix_time (negsuc n) = (62_135_596_800 - (n + 1)) * second

abbrev pub is_transient_health : HealthState → Bool
is_transient_health temporarily_muted = true
is_transient_health rate_limited = true
is_transient_health _ = false

-- The test by which a lookup drops an entry: a transient state whose end is not after `now`.
abbrev pub is_over : ℕ → Health → Bool
is_over now h = is_transient_health h.state && not (ltb now h.until)
