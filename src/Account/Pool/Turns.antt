-- ===== src/Account/Pool/Turns.antt =====
-- Whose turn it is when a slot is given back (internal/account/pool_acquire.go, pool_waiters.go).
use deep_seek_web_to_api.Prelude.{
  ℕ, ◌<◌, ◌≡◌, ◌≢◌, sym, ap, subst, ◌∙◌, false, Option, List, [], ◌∷◌, arith, inl, inr,
}
use deep_seek_web_to_api.Prelude.Text.{String, is_empty}
use deep_seek_web_to_api.Prelude.Dict.{Dict, count}
use deep_seek_web_to_api.Config.Store.{Store}
use deep_seek_web_to_api.Account.Health.{Health}
use deep_seek_web_to_api.Account.Affinity.{Affinity}
use deep_seek_web_to_api.Account.Pool.{Pool, Exclude, take_slot, release}
use deep_seek_web_to_api.Account.Pool.Choice.{chosen, choice, acquire-choice}
use deep_seek_web_to_api.Account.Pool.Admin.{new_pool}
use deep_seek_web_to_api.Account.Pool.Wait.{
  queued, Call, waits, enqueue, settle, wait_round, step, run,
}
use deep_seek_web_to_api.Account.Pool.Waiting.{occurrences, AreRising-first, Zero-cases}
use deep_seek_web_to_api.Account.Pool.Channels.{
  Channels, new_pool-Channels, step-Channels, run_from-Channels, release-wakes_first,
}

-- A goroutine that queues takes the next channel.
queued-next :
    (p : Pool) (now : ℕ) (target : String) (exclude : Exclude) (w : ℕ)
    → (wait_round p now false target exclude).1 ≡ queued w
    → p.next_channel ≡ w
unfolding wait_round
queued-next p now target exclude w e =
    let (m, calm, same) = acquire-choice p now target exclude in
    of_choice m (choice p now target exclude) (ap (λ r. (settle r target exclude).1) (sym same) ∙ e)
  where
    of_choice :
        (m : Dict Health) (o : Option String)
        → (settle (chosen p m o) target exclude).1 ≡ queued w
        → p.next_channel ≡ w
    of_choice m o h = unfold settle enqueue take_slot in ground (arith, h)

-- Let a goroutine queue after some history of a new pool and be waiting still after further calls,
-- when each one that waited before it does not wait any more. A release that gives back a slot
-- then wakes this goroutine and no other, and the rest keep their order.
pub release-wakes_longest :
    (store : Store) (affinity : Affinity) (start now : ℕ) (before after : List (ℕ × Call))
    (target id : String) (exclude : Exclude) (w : ℕ) (p q : Pool)
    → p ≡ run (new_pool store affinity start) before
    → (wait_round p now false target exclude).1 ≡ queued w
    → q ≡ run (wait_round p now false target exclude).0 after
    → occurrences w q.waiters ≢ 0
    → ((v : ℕ) → occurrences v p.waiters ≢ 0 → occurrences v q.waiters ≡ 0)
    → is_empty id ≡ false
    → 0 < count id q.in_use
    → ((release q id).closed ≡ w ∷ q.closed) × (q.waiters ≡ w ∷ (release q id).waiters)
unfolding step
release-wakes_longest store affinity start now before after target id exclude w p q ep ew eq
      waits_on gone named held =
    let fresh : Channels 0 [] p = subst (Channels 0 []) (sym ep) (
      run_from-Channels 0 [] (new_pool store affinity start) before
        (new_pool-Channels store affinity start)) in
    let next = queued-next p now target exclude w ew in
    let here : Channels w p.waiters p =
      (fresh.0, fresh.1, (omega (arith, next), λ x l. omega arith)) in
    let (distinct, rising, (later, few)) = subst (Channels w p.waiters) (sym eq) (
      run_from-Channels w p.waiters (wait_round p now false target exclude).0 after
        (step-Channels w p.waiters p now (waits false target exclude) here)) in
    let none_older : (x : ℕ) → x < w → occurrences x q.waiters ≡ 0 = λ x l.
      elim (Zero-cases (occurrences x p.waiters)) [
        | inl z ↦ omega (arith, few x l, z)
        | inr z ↦ gone x z
      ] in
    let (rest, first) = AreRising-first 0 q.next_channel w q.waiters rising waits_on none_older in
    let (left, woken) = release-wakes_first q id w rest named held first in
    (woken, first ∙ ap (λ ws. w ∷ ws) (sym left))
