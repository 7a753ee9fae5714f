-- ===== src/Account/Pool/Channels.antt =====
-- The waiters' channels (internal/account/pool_waiters.go, pool_acquire.go) over every history of
-- calls.
use deep_seek_web_to_api.Prelude.{
  ℕ, suc, zero, ◌+◌, ◌≤◌, ◌<◌, ◌≡◌, sym, subst, Option-cases, Bool, true, false, Option, none, some,
  List, [], ◌∷◌, ◌++◌, arith, inl, inr, Bool-cases, if◌then◌else◌, ltb,
}
use deep_seek_web_to_api.Prelude.Text.{String, is_empty}
use deep_seek_web_to_api.Config.Account.{Account}
use deep_seek_web_to_api.Config.Store.{Store}
use deep_seek_web_to_api.Account.Health.{Health, HealthState, is_over}
use deep_seek_web_to_api.Account.Affinity.{Affinity}
use deep_seek_web_to_api.Prelude.Dict.{Dict, count, lookup}
use deep_seek_web_to_api.Account.Pool.{
  Pool, Exclude, notify_waiter, remove_waiter, drain_waiters, take_slot, acquire, acquire_preferred,
  give_back, release, account_health, can_queue,
}
use deep_seek_web_to_api.Account.Pool.Choice.{chosen, choice, acquire-choice}
use deep_seek_web_to_api.Account.Pool.Choice.Preferred.{preferred_choice, acquire_preferred-choice}
use deep_seek_web_to_api.Account.Pool.Marks.{
  put_health, clear_health, mark_transient_account, mark_rate_limited, mark_temporary_mute,
  mark_blocked_account, mark_permanently_banned, mark_invalid_credentials, read_health,
}
use deep_seek_web_to_api.Account.Pool.Admin.{
  reset, new_pool, apply_runtime_limits, Plan, prepare_reset, plan_reset, apply_plan,
}
use deep_seek_web_to_api.Account.Pool.Wait.{
  Attempt, refused, queued, Call, acquires, acquires_preferred, waits, waits_preferred, gives_up,
  releases, marks_rate_limited, marks_temporary_mute, marks_permanently_banned,
  marks_invalid_credentials, clears, reads, applies, prepares_reset, resets, configures, enqueue,
  settle, wait_round, wait_round_preferred, wait_cancelled, step, run,
}
use deep_seek_web_to_api.Account.Pool.Waiting.{
  occurrences, occurrences-append, occurrences-without_waiter, without_waiter-absent, AreFresh,
  AreRising, AreRising-lower, AreRising-append, AreRising-without_waiter, List-cases,
}

-- `notify_waiter`, where these goroutines wait.
abbrev notified : Pool → List ℕ → Pool
notified p ws = elim ws [
  | [] ↦ p
  | waiter ∷ rest ↦ record p { waiters = rest; closed = waiter ∷ p.closed }
]

-- `enqueue`, where there is room for the goroutine or not.
abbrev lined_up : Pool → Bool → Pool × Attempt
lined_up p room =
    if room
    then (
      record p { waiters = p.waiters ++ p.next_channel ∷ []; next_channel = suc p.next_channel },
      queued p.next_channel,
    )
    else (p, refused)

module _ (base : ℕ) (old : List ℕ) where
  -- No channel before the first one given waits, but those that are given.
  abbrev AreSome : ℕ → List ℕ → Type 0
  AreSome next waiters =
      (base ≤ next) × ((x : ℕ) → x < base → occurrences x waiters ≤ occurrences x old)

  -- The channels that wait stand in the order in which they were made.
  abbrev pub Channels : Pool → Type 0
  Channels p =
      AreFresh p.next_channel p.waiters p.closed
      × AreRising 0 p.waiters p.next_channel
      × AreSome p.next_channel p.waiters

  notify_waiter-Channels : (p : Pool) → Channels p → Channels (notify_waiter p)
  unfolding notify_waiter
  notify_waiter-Channels p (v, w, u) = elim (List-cases p.waiters) [
    | inl e ↦ subst (λ ws. Channels (notified p ws)) (sym e) (v, w, u)
    | inr (x, xs, e) ↦
        let rising : AreRising 0 (x ∷ xs) p.next_channel =
          subst (λ ws. AreRising 0 ws p.next_channel) e w in
        subst (λ ws. Channels (notified p ws)) (sym e)
          (
            λ y. ground (arith, v y, e),
            AreRising-lower (suc x) 0 p.next_channel xs (omega arith) rising.1,
            (u.0, λ y l. ground (arith, u.1 y l, e)),
          )
  ]

  drain_waiters-Channels : (p : Pool) → Channels p → Channels (drain_waiters p)
  unfolding drain_waiters
  drain_waiters-Channels p (v, w, u) = (
    λ x. ground (arith, v x, occurrences-append x p.waiters p.closed),
    omega arith,
    (u.0, λ y l. omega arith),
  )

  remove_waiter-Channels : (p : Pool) (w : ℕ) → Channels p → Channels (remove_waiter p w).0
  unfolding remove_waiter
  remove_waiter-Channels p w (v, rising, u) = (
    λ x. ground (arith, v x, occurrences-without_waiter x w p.waiters),
    AreRising-without_waiter 0 p.next_channel w p.waiters rising,
    (u.0, λ y l. omega (arith, u.1 y l, occurrences-without_waiter y w p.waiters)),
  )

  enqueue-Channels :
      (p : Pool) (target : String) (exclude : Exclude)
      → Channels p
      → Channels (enqueue p target exclude).0
  unfolding enqueue
  enqueue-Channels p target exclude (v, w, u) = by_room (can_queue p target exclude)
    where
      by_room : (b : Bool) → Channels (lined_up p b).0
      by_room false = (v, w, u)
      by_room true = (
        λ x. ground (arith, v x, occurrences-append x p.waiters (p.next_channel ∷ [])),
        AreRising-append 0 p.next_channel p.waiters w,
        (
          omega (arith, u.0),
          λ y l. ground (arith, u.0, u.1 y l, occurrences-append y p.waiters (p.next_channel ∷ [])),
        ),
      )

  settle-Channels :
      (r : Pool × Option Account) (target : String) (exclude : Exclude)
      → Channels r.0
      → Channels (settle r target exclude).0
  unfolding settle
  settle-Channels (p, some acc) target exclude v = v
  settle-Channels (p, none) target exclude v = enqueue-Channels p target exclude v

  give_back-Channels : (p : Pool) (id : String) (n : ℕ) → Channels p → Channels (give_back p id n)
  unfolding give_back
  give_back-Channels p id zero v = v
  give_back-Channels p id (suc zero) v = notify_waiter-Channels _ v
  give_back-Channels p id (suc (suc n)) v = notify_waiter-Channels _ v

  chosen-Channels :
      (p : Pool) (m : Dict Health) (o : Option String) → Channels p → Channels (chosen p m o).0
  unfolding take_slot
  chosen-Channels p m none v = v
  chosen-Channels p m (some id) v = v

  acquire-Channels :
      (p : Pool) (now : ℕ) (target : String) (exclude : Exclude)
      → Channels p
      → Channels (acquire p now target exclude).0
  acquire-Channels p now target exclude v =
      let (m, calm, e) = acquire-choice p now target exclude in
      rw e (chosen-Channels p m (choice p now target exclude) v)

  acquire_preferred-Channels :
      (p : Pool) (now : ℕ) (preferred : String) (exclude : Exclude)
      → Channels p
      → Channels (acquire_preferred p now preferred exclude).0
  acquire_preferred-Channels p now preferred exclude v =
      let (m, calm, e) = acquire_preferred-choice p now preferred exclude in
      rw e (chosen-Channels p m (preferred_choice p now preferred exclude) v)

  clear_health-Channels : (p : Pool) (id : String) → Channels p → Channels (clear_health p id)
  unfolding clear_health
  clear_health-Channels p id v = elim (Bool-cases (is_empty id)) [
    | inl e ↦ rw e v
    | inr e ↦ rw e (notify_waiter-Channels _ v)
  ]

  put_health-Channels :
      (p : Pool) (id : String) (h : Health) → Channels p → Channels (put_health p id h)
  unfolding put_health
  put_health-Channels p id h v = notify_waiter-Channels _ v

  mark_transient_account-Channels :
      (p : Pool) (now : ℕ) (id : String) (state : HealthState) (until : ℕ) (why : String)
      → Channels p
      → Channels (mark_transient_account p now id state until why)
  unfolding mark_transient_account
  mark_transient_account-Channels p now id state until why v = elim (Bool-cases (is_empty id)) [
    | inl e ↦ rw e v
    | inr e ↦ elim (Bool-cases (ltb now until)) [
      | inl t ↦ rw (e, t) (put_health-Channels p id _ v)
      | inr t ↦ rw (e, t) (clear_health-Channels p id v)
    ]
  ]

  mark_blocked_account-Channels :
      (p : Pool) (now : ℕ) (id : String) (state : HealthState) (why : String)
      → Channels p
      → Channels (mark_blocked_account p now id state why)
  unfolding mark_blocked_account
  mark_blocked_account-Channels p now id state why v = elim (Bool-cases (is_empty id)) [
    | inl e ↦ rw e v
    | inr e ↦ rw e (put_health-Channels p id _ v)
  ]

  account_health-Channels :
      (p : Pool) (now : ℕ) (id : String) → Channels p → Channels (account_health p now id).0
  unfolding account_health
  account_health-Channels p now id v = elim (Option-cases (lookup id p.health)) [
    | inl e ↦ rw (account_health, e) v
    | inr (h, e) ↦ elim (Bool-cases (is_over now h)) [
      | inl f ↦ rw (account_health, e, f) v
      | inr f ↦ rw (account_health, e, f) v
    ]
  ]

  read_health-Channels :
      (p : Pool) (now : ℕ) (id : String) → Channels p → Channels (read_health p now id).0
  unfolding read_health
  read_health-Channels p now id v = elim (Bool-cases (is_empty id)) [
    | inl e ↦ rw e v
    | inr e ↦ rw e (account_health-Channels p now id v)
  ]

  apply_plan-Channels : (p : Pool) (plan : Plan) → Channels p → Channels (apply_plan p plan)
  unfolding apply_plan
  apply_plan-Channels p plan v = unfold drain_waiters in drain_waiters-Channels p v

  pub step-Channels : (p : Pool) (now : ℕ) (c : Call) → Channels p → Channels (step p now c)
  unfolding step
  step-Channels p now (acquires target ex) v = acquire-Channels p now target ex v
  step-Channels p now (acquires_preferred id ex) v = acquire_preferred-Channels p now id ex v
  step-Channels p now (waits true target ex) v = unfold wait_round in v
  step-Channels p now (waits false target ex) v =
      unfold wait_round in
      settle-Channels (acquire p now target ex) target ex (acquire-Channels p now target ex v)
  step-Channels p now (waits_preferred true id ex) v = unfold wait_round_preferred in v
  step-Channels p now (waits_preferred false id ex) v =
      unfold wait_round_preferred in
      settle-Channels (acquire_preferred p now id ex) "" ex
        (acquire_preferred-Channels p now id ex v)
  step-Channels p now (gives_up waiter) v =
      unfold wait_cancelled in remove_waiter-Channels p waiter v
  step-Channels p now (releases id) v = unfold release in by_name (is_empty id)
    where
      by_name : (b : Bool) → Channels (if b then p else give_back p id (count id p.in_use))
      by_name true = v
      by_name false = give_back-Channels p id (count id p.in_use) v
  step-Channels p now (marks_rate_limited id until why) v =
      unfold mark_rate_limited in mark_transient_account-Channels p now id _ _ why v
  step-Channels p now (marks_temporary_mute id until why) v =
      unfold mark_temporary_mute in mark_transient_account-Channels p now id _ _ why v
  step-Channels p now (marks_permanently_banned id why) v =
      unfold mark_permanently_banned in mark_blocked_account-Channels p now id _ why v
  step-Channels p now (marks_invalid_credentials id why) v =
      unfold mark_invalid_credentials in mark_blocked_account-Channels p now id _ why v
  step-Channels p now (clears id) v = clear_health-Channels p id v
  step-Channels p now (reads id) v = read_health-Channels p now id v
  step-Channels p now (applies max queue global) v =
      unfold apply_runtime_limits in notify_waiter-Channels _ v
  step-Channels p now prepares_reset v = unfold prepare_reset in v
  step-Channels p now (resets plan) v = apply_plan-Channels p plan v
  step-Channels p now (configures store) v = v

  pub run_from-Channels : (p : Pool) (calls : List (ℕ × Call)) → Channels p → Channels (run p calls)
  unfolding run
  run_from-Channels p [] v = v
  run_from-Channels p ((now, c) ∷ calls) v =
      run_from-Channels (step p now c) calls (step-Channels p now c v)

pub new_pool-Channels :
    (store : Store) (affinity : Affinity) (now : ℕ) → Channels 0 [] (new_pool store affinity now)
unfolding new_pool reset prepare_reset plan_reset apply_plan drain_waiters
new_pool-Channels store affinity now =
    (λ x. omega arith, omega arith, (omega arith, λ x l. omega arith))

-- Over every history of a new pool, a waiter's channel stands on the wait list or was closed, at most
-- once in all: none is closed twice (a second `close` would panic), and no goroutine is left on the
-- wait list with a channel that is closed already.
pub run-Channels :
    (store : Store) (affinity : Affinity) (now : ℕ) (calls : List (ℕ × Call)) (channel : ℕ)
    → let p = run (new_pool store affinity now) calls in
      occurrences channel p.waiters + occurrences channel p.closed ≤ 1
run-Channels store affinity now calls channel =
    let kept =
      run_from-Channels 0 [] (new_pool store affinity now) calls
        (new_pool-Channels store affinity now) in
    (kept.0 channel).0

-- A release that gives back a slot wakes the first goroutine of the list.
pub release-wakes_first :
    (p : Pool) (id : String) (w : ℕ) (ws : List ℕ)
    → is_empty id ≡ false
    → 0 < count id p.in_use
    → p.waiters ≡ w ∷ ws
    → ((release p id).waiters ≡ ws) × ((release p id).closed ≡ w ∷ p.closed)
unfolding release give_back notify_waiter
release-wakes_first p id w ws e h q = ground arith

-- Where the woken goroutine gives up at the same moment (`ctx.Done()` and its channel are both
-- ready, and `select` takes the former), its wake-up is spent: the next in line stays asleep,
-- whatever room the release made.
pub wake_up_lost :
    (p : Pool) (id : String) (w v : ℕ) (ws : List ℕ)
    → is_empty id ≡ false
    → 0 < count id p.in_use
    → p.waiters ≡ w ∷ v ∷ ws
    → occurrences w (v ∷ ws) ≡ 0
    → ((wait_cancelled (release p id) w).waiters ≡ v ∷ ws)
      × ((wait_cancelled (release p id) w).closed ≡ w ∷ p.closed)
unfolding wait_cancelled remove_waiter
wake_up_lost p id w v ws e h q o =
    let (rest, woken) = release-wakes_first p id w (v ∷ ws) e h q in
    (rw rest (without_waiter-absent w (v ∷ ws) o), woken)
