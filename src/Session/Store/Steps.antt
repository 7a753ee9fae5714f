-- ===== src/Session/Store/Steps.antt =====
-- internal/upstreamsession/store.go: the calls that the store takes, one critical section each, and
-- the histories of them.
use deep_seek_web_to_api.Prelude.{ℕ, List, [], ◌∷◌}
use deep_seek_web_to_api.Prelude.Int.{ℤ}
use deep_seek_web_to_api.Prelude.Text.{String}
use deep_seek_web_to_api.Session.Message.{Value}
use deep_seek_web_to_api.Session.Branch.{Scope, Lease, Store}
use deep_seek_web_to_api.Session.Store.{
  prepare, diagnose, record_branch, invalidate, release, complete,
}

pub data Call : Type 0 where
  prepares : Scope → List Value → ℕ → Call
  diagnoses : Scope → List Value → Call
  records : Scope → List Value → List Value → String → ℤ → Call
  completes : Lease → Scope → List Value → List Value → String → ℤ → Call
  invalidates releases : Lease → Call

unfoldable pub step : Store → ℕ → Call → Store
step s now (prepares scope messages max_turns) = (prepare s now scope messages max_turns).0
step s now (diagnoses scope messages) = diagnose s now scope messages
step s now (records scope request response id parent) =
    record_branch s now scope request response id parent
step s now (completes l scope request response id parent) =
    complete s now l scope request response id parent
step s now (invalidates l) = invalidate s l
step s now (releases l) = release s l

-- A history: each call with the time at which it holds the mutex.
unfoldable pub run : Store → List (ℕ × Call) → Store
run s [] = s
run s ((now, call) ∷ calls) = run (step s now call) calls
