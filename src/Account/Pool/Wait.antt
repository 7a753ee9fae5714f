-- ===== src/Account/Pool/Wait.antt =====
-- internal/account/pool_acquire.go: `AcquireWait` and `AcquireWaitPreferred`, cut where a goroutine
-- waits, and the calls of the pool as steps that may interleave in any order.
use deep_seek_web_to_api.Prelude.{
  ℕ, suc, Bool, Option, none, some, List, [], ◌∷◌, ◌++◌, if◌then◌else◌,
}
use deep_seek_web_to_api.Prelude.Int.{ℤ}
use deep_seek_web_to_api.Prelude.Text.{String}
use deep_seek_web_to_api.Config.Account.{Account}
use deep_seek_web_to_api.Config.Store.{Store}
use deep_seek_web_to_api.Account.Pool.{
  Pool, Exclude, can_queue, remove_waiter, acquire, acquire_preferred, release,
}
use deep_seek_web_to_api.Account.Pool.Marks.{
  clear_health, mark_rate_limited, mark_temporary_mute, mark_permanently_banned,
  mark_invalid_credentials, read_health,
}
use deep_seek_web_to_api.Account.Pool.Admin.{apply_runtime_limits, Plan, prepare_reset, apply_plan}

-- How one round of the loop ends: with an account, with none, or asleep on a new channel.
pub data Attempt : Type 0 where
  acquired : Account → Attempt
  refused : Attempt
  queued : ℕ → Attempt

unfoldable pub enqueue : Pool → String → Exclude → Pool × Attempt
enqueue p target exclude =
    if can_queue p target exclude
    then (
      record p { waiters = p.waiters ++ p.next_channel ∷ []; next_channel = suc p.next_channel },
      queued p.next_channel,
    )
    else (p, refused)

unfoldable pub settle : Pool × Option Account → String → Exclude → Pool × Attempt
settle (p, some acc) target exclude = (p, acquired acc)
settle (p, none) target exclude = enqueue p target exclude

-- One round of `AcquireWait`; `cancelled` is `ctx.Err() != nil`. A goroutine whose channel is closed
-- goes round again.
unfoldable pub wait_round : Pool → ℕ → Bool → String → Exclude → Pool × Attempt
wait_round p now cancelled target exclude =
    if cancelled then (p, refused) else settle (acquire p now target exclude) target exclude

unfoldable pub wait_round_preferred : Pool → ℕ → Bool → String → Exclude → Pool × Attempt
wait_round_preferred p now cancelled preferred exclude =
    if cancelled
    then (p, refused)
    else settle (acquire_preferred p now preferred exclude) "" exclude

-- `case <-ctx.Done()` of the goroutine that sleeps on the channel.
unfoldable pub wait_cancelled : Pool → ℕ → Pool
wait_cancelled p waiter = (remove_waiter p waiter).0

-- What goroutines do to a pool, each under the mutex, but for `prepares_reset`, the write of `Reset`
-- before it takes the mutex. `resets` is the rest of `Reset`, with whatever it computed before;
-- `configures` is a change of the store.
pub data Call : Type 0 where
  acquires : String → Exclude → Call
  acquires_preferred : String → Exclude → Call
  waits : Bool → String → Exclude → Call
  waits_preferred : Bool → String → Exclude → Call
  gives_up : ℕ → Call
  releases : String → Call
  marks_rate_limited : String → ℕ → String → Call
  marks_temporary_mute : String → ℕ → String → Call
  marks_permanently_banned : String → String → Call
  marks_invalid_credentials : String → String → Call
  clears : String → Call
  reads : String → Call
  applies : ℤ → ℤ → ℤ → Call
  prepares_reset : Call
  resets : Plan → Call
  configures : Store → Call

unfoldable pub step : Pool → ℕ → Call → Pool
step p now (acquires target ex) = (acquire p now target ex).0
step p now (acquires_preferred id ex) = (acquire_preferred p now id ex).0
step p now (waits cancelled target ex) = (wait_round p now cancelled target ex).0
step p now (waits_preferred cancelled id ex) = (wait_round_preferred p now cancelled id ex).0
step p now (gives_up waiter) = wait_cancelled p waiter
step p now (releases id) = release p id
step p now (marks_rate_limited id until why) = mark_rate_limited p now id until why
step p now (marks_temporary_mute id until why) = mark_temporary_mute p now id until why
step p now (marks_permanently_banned id why) = mark_permanently_banned p now id why
step p now (marks_invalid_credentials id why) = mark_invalid_credentials p now id why
step p now (clears id) = clear_health p id
step p now (reads id) = (read_health p now id).0
step p now (applies max queue global) = apply_runtime_limits p max queue global
step p now prepares_reset = prepare_reset p
step p now (resets plan) = apply_plan p plan
step p now (configures store) = record p { store = store }

-- A history: each call with the time at which it holds the mutex.
unfoldable pub run : Pool → List (ℕ × Call) → Pool
run p [] = p
run p ((now, call) ∷ calls) = run (step p now call) calls
