-- ===== src/Account/Pool/Limits.antt =====
-- The limits on the slots that are counted (internal/account/pool_limits.go) over every history of calls.
use deep_seek_web_to_api.Prelude.{
  ℕ, suc, zero, ◌+◌, ◌≤◌, ◌≡◌, refl, Bool, true, false, Option, none, some, List, [], ◌∷◌, arith,
  inl, inr, Bool-cases, if◌then◌else◌, All,
}
use deep_seek_web_to_api.Prelude.Int.{pos, ltb_ℤ, ◌≤ℤ◌}
use deep_seek_web_to_api.Prelude.Text.{String, is_empty, eq_iff, str_eq}
use deep_seek_web_to_api.Prelude.Dict.{
  Dict, insert, delete, count, total, Distinct, total-insert, total-delete, count-insert,
  count-delete, insert-Distinct, delete-Distinct,
}
use deep_seek_web_to_api.Config.Account.{Account}
use deep_seek_web_to_api.Config.Store.{Store, runtime_account_max_inflight}
use deep_seek_web_to_api.Account.Health.{Health, HealthState}
use deep_seek_web_to_api.Account.Affinity.{Affinity}
use deep_seek_web_to_api.Account.Pool.{
  Pool, Exclude, notify_waiter, remove_waiter, drain_waiters, has_room, take_slot, acquire,
  acquire_preferred, give_back, release, account_health,
}
use deep_seek_web_to_api.Account.Pool.Choice.{
  admissible, admissible_parts, chosen, choice, acquire-choice,
}
use deep_seek_web_to_api.Account.Pool.Choice.Preferred.{
  choice-some, preferred_choice, preferred_choice-some, acquire_preferred-choice,
}
use deep_seek_web_to_api.Account.Pool.Marks.{
  put_health, clear_health, mark_transient_account, mark_rate_limited, mark_temporary_mute,
  mark_blocked_account, mark_permanently_banned, mark_invalid_credentials, read_health,
}
use deep_seek_web_to_api.Account.Pool.Admin.{reset, prepare_reset, plan_reset, apply_plan, new_pool}
use deep_seek_web_to_api.Account.Pool.Wait.{
  Call, acquires, acquires_preferred, waits, waits_preferred, gives_up, releases,
  marks_rate_limited, marks_temporary_mute, marks_permanently_banned, marks_invalid_credentials,
  clears, reads, applies, prepares_reset, resets, configures, enqueue, settle, wait_round,
  wait_round_preferred, wait_cancelled, step, run,
}

-- A map holds each account once, no account holds more slots than it may, and all together hold no
-- more than the global limit, where there is one.
pub record InLimits (p : Pool) : Type 0 where
  pub distinct : Distinct p.in_use
  pub per_account : (id : String) → pos (count id p.in_use) ≤ℤ p.max_inflight_per_account
  pub overall :
      ltb_ℤ (pos 0) p.global_max_inflight ≡ true → pos (total p.in_use) ≤ℤ p.global_max_inflight

-- The slots and the limits are the same.
abbrev pub SameSlots : Pool → Pool → Type 0
SameSlots p q =
    (q.in_use ≡ p.in_use)
    × (q.max_inflight_per_account ≡ p.max_inflight_per_account)
    × (q.global_max_inflight ≡ p.global_max_inflight)

pub SameSlots-InLimits : (p q : Pool) → SameSlots p q → InLimits p → InLimits q
SameSlots-InLimits p q (e, f, g) v = record {
  distinct = rw e v.distinct;
  per_account = λ id. rw (e, f) (v.per_account id);
  overall = rw (e, g) v.overall;
}

notify_waiter-SameSlots : (p : Pool) → SameSlots p (notify_waiter p)
unfolding notify_waiter
notify_waiter-SameSlots p = ground arith

pub notify_waiter-InLimits : (p : Pool) → InLimits p → InLimits (notify_waiter p)
notify_waiter-InLimits p = SameSlots-InLimits p (notify_waiter p) (notify_waiter-SameSlots p)

pub take_slot-InLimits :
    (p : Pool) (id : String) → has_room p id ≡ true → InLimits p → InLimits (take_slot p id)
unfolding take_slot has_room
take_slot-InLimits p id room v = record {
  distinct = insert-Distinct id _ p.in_use v.distinct;
  per_account = λ j.
      ground
        (arith, count-insert id j (count id p.in_use + 1) p.in_use, v.per_account j, eq_iff id j);
  overall = λ g. ground (arith, total-insert id (count id p.in_use + 1) p.in_use);
}

-- A map in which one account holds fewer slots.
fewer-InLimits :
    (p : Pool) (id : String) (m : Dict ℕ) (n : ℕ)
    → n ≤ count id p.in_use
    → Distinct m
    → ((j : String) → count j m ≡ (if str_eq id j then n else count j p.in_use))
    → total m + count id p.in_use ≡ total p.in_use + n
    → InLimits p
    → InLimits (record p { in_use = m })
fewer-InLimits p id m n le d each all v = record {
  distinct = d;
  per_account = λ j. ground (arith, each j, v.per_account j, v.per_account id);
  overall = λ g. omega (arith, v.overall g);
}

give_back-InLimits :
    (p : Pool) (id : String) (n : ℕ)
    → count id p.in_use ≡ n
    → InLimits p
    → InLimits (give_back p id n)
unfolding give_back
give_back-InLimits p id zero e v = v
give_back-InLimits p id (suc zero) e v = notify_waiter-InLimits _ (
    fewer-InLimits p id (delete id p.in_use) 0 (omega arith) (delete-Distinct id _ v.distinct)
      (λ j. count-delete id j p.in_use) (omega (arith, total-delete id p.in_use v.distinct)) v)
give_back-InLimits p id (suc (suc n)) e v = notify_waiter-InLimits _ (
    fewer-InLimits p id (insert id (suc n) p.in_use) (suc n) (omega arith)
      (insert-Distinct id _ _ v.distinct) (λ j. count-insert id j (suc n) p.in_use)
      (omega (arith, total-insert id (suc n) p.in_use)) v)

pub release-InLimits : (p : Pool) (id : String) → InLimits p → InLimits (release p id)
unfolding release
release-InLimits p id v = elim (Bool-cases (is_empty id)) [
  | inl e ↦ rw e v
  | inr e ↦ rw e (give_back-InLimits p id (count id p.in_use) refl v)
]

-- A choice of an admissible account keeps within the limits.
pub chosen-InLimits :
    (p : Pool) (now : ℕ) (m : Dict Health) (o : Option String)
    → ((id : String) → o ≡ some id → admissible p now id ≡ true)
    → InLimits p
    → InLimits (chosen p m o).0
chosen-InLimits p now m none ok v = SameSlots-InLimits p _ (refl, refl, refl) v
chosen-InLimits p now m (some id) ok v =
    take_slot-InLimits (record p { health = m }) id
      (unfold has_room in (admissible_parts p now id (ok id refl)).3)
      (SameSlots-InLimits p _ (refl, refl, refl) v)

pub acquire-InLimits :
    (p : Pool) (now : ℕ) (target : String) (exclude : Exclude)
    → InLimits p
    → InLimits (acquire p now target exclude).0
acquire-InLimits p now target exclude v =
    let (m, calm, e) = acquire-choice p now target exclude in
    rw e (
      chosen-InLimits p now m (choice p now target exclude)
        (λ id c. (choice-some p now target exclude id c).1) v)

pub acquire_preferred-InLimits :
    (p : Pool) (now : ℕ) (preferred : String) (exclude : Exclude)
    → InLimits p
    → InLimits (acquire_preferred p now preferred exclude).0
acquire_preferred-InLimits p now preferred exclude v =
    let (m, calm, e) = acquire_preferred-choice p now preferred exclude in
    rw e (
      chosen-InLimits p now m (preferred_choice p now preferred exclude)
        (λ id c. (preferred_choice-some p now preferred exclude id c).1) v)

enqueue-SameSlots :
    (p : Pool) (target : String) (exclude : Exclude) → SameSlots p (enqueue p target exclude).0
unfolding enqueue
enqueue-SameSlots p target exclude = ground arith

settle-InLimits :
    (r : Pool × Option Account) (target : String) (exclude : Exclude)
    → InLimits r.0
    → InLimits (settle r target exclude).0
unfolding settle
settle-InLimits (p, some acc) target exclude v = v
settle-InLimits (p, none) target exclude v =
    SameSlots-InLimits p _ (enqueue-SameSlots p target exclude) v

clear_health-SameSlots : (p : Pool) (id : String) → SameSlots p (clear_health p id)
unfolding clear_health notify_waiter
clear_health-SameSlots p id = ground arith

mark_transient_account-SameSlots :
    (p : Pool) (now : ℕ) (id : String) (state : HealthState) (until : ℕ) (why : String)
    → SameSlots p (mark_transient_account p now id state until why)
unfolding mark_transient_account put_health clear_health notify_waiter
mark_transient_account-SameSlots p now id state until why = ground arith

mark_blocked_account-SameSlots :
    (p : Pool) (now : ℕ) (id : String) (state : HealthState) (why : String)
    → SameSlots p (mark_blocked_account p now id state why)
unfolding mark_blocked_account put_health notify_waiter
mark_blocked_account-SameSlots p now id state why = ground arith

read_health-SameSlots : (p : Pool) (now : ℕ) (id : String) → SameSlots p (read_health p now id).0
unfolding read_health account_health
read_health-SameSlots p now id = ground arith

-- A call that sets the limits, or the slots, anew.
abbrev pub sets_limits : Call → Bool
sets_limits (applies max queue global) = true
sets_limits prepares_reset = true
sets_limits (resets plan) = true
sets_limits _ = false

is_positive_max : (s : Store) → pos 0 ≤ℤ runtime_account_max_inflight s
unfolding runtime_account_max_inflight
is_positive_max s = ground arith

reset-InLimits : (p : Pool) (now : ℕ) → InLimits (reset p now)
unfolding reset prepare_reset plan_reset apply_plan drain_waiters
reset-InLimits p now = record {
  distinct = tt;
  per_account = λ id. is_positive_max p.store;
  overall = λ g. ground arith;
}

-- Every call that sets neither the limits nor the slots anew keeps the slots within the limits.
pub step-InLimits :
    (p : Pool) (now : ℕ) (c : Call) → sets_limits c ≡ false → InLimits p → InLimits (step p now c)
unfolding step
step-InLimits p now (acquires target ex) h v = acquire-InLimits p now target ex v
step-InLimits p now (acquires_preferred id ex) h v = acquire_preferred-InLimits p now id ex v
step-InLimits p now (waits true target ex) h v = unfold wait_round in v
step-InLimits p now (waits false target ex) h v =
    unfold wait_round in
    settle-InLimits (acquire p now target ex) target ex (acquire-InLimits p now target ex v)
step-InLimits p now (waits_preferred true id ex) h v = unfold wait_round_preferred in v
step-InLimits p now (waits_preferred false id ex) h v =
    unfold wait_round_preferred in
    settle-InLimits (acquire_preferred p now id ex) "" ex (acquire_preferred-InLimits p now id ex v)
step-InLimits p now (gives_up waiter) h v =
    unfold wait_cancelled remove_waiter in SameSlots-InLimits p _ (refl, refl, refl) v
step-InLimits p now (releases id) h v = release-InLimits p id v
step-InLimits p now (marks_rate_limited id until why) h v =
    unfold mark_rate_limited in
    SameSlots-InLimits p _ (mark_transient_account-SameSlots p now id _ _ why) v
step-InLimits p now (marks_temporary_mute id until why) h v =
    unfold mark_temporary_mute in
    SameSlots-InLimits p _ (mark_transient_account-SameSlots p now id _ _ why) v
step-InLimits p now (marks_permanently_banned id why) h v =
    unfold mark_permanently_banned in
    SameSlots-InLimits p _ (mark_blocked_account-SameSlots p now id _ why) v
step-InLimits p now (marks_invalid_credentials id why) h v =
    unfold mark_invalid_credentials in
    SameSlots-InLimits p _ (mark_blocked_account-SameSlots p now id _ why) v
step-InLimits p now (clears id) h v = SameSlots-InLimits p _ (clear_health-SameSlots p id) v
step-InLimits p now (reads id) h v = SameSlots-InLimits p _ (read_health-SameSlots p now id) v
step-InLimits p now (applies max queue global) h v = cc
step-InLimits p now prepares_reset h v = cc
step-InLimits p now (resets plan) h v = cc
step-InLimits p now (configures store) h v = SameSlots-InLimits p _ (refl, refl, refl) v

run_from-InLimits :
    (p : Pool) (calls : List (ℕ × Call))
    → All (λ (c : ℕ × Call). sets_limits c.1 ≡ false) calls
    → InLimits p
    → InLimits (run p calls)
unfolding run
run_from-InLimits p [] h v = v
run_from-InLimits p ((now, c) ∷ calls) h v =
    run_from-InLimits (step p now c) calls h.1 (step-InLimits p now c h.0 v)

-- From a new pool on, whatever calls goroutines make, in whatever order and at whatever times, other
-- than `ApplyRuntimeLimits` and a further `Reset`: no more slots are counted under one spelling of an
-- identifier than the limit for one account, and under all together no more than a positive global
-- limit.
pub run-InLimits :
    (store : Store) (affinity : Affinity) (now : ℕ) (calls : List (ℕ × Call))
    → All (λ (c : ℕ × Call). sets_limits c.1 ≡ false) calls
    → InLimits (run (new_pool store affinity now) calls)
unfolding new_pool
run-InLimits store affinity now calls h =
    run_from-InLimits (new_pool store affinity now) calls h (reset-InLimits _ now)
