-- ===== src/Stream/Engine/Ends.antt =====
-- How the loop of internal/stream/engine.go ends.
use deep_seek_web_to_api.Prelude.{
  ℕ, suc, ◌+◌, ◌≤◌, ◌<◌, ◌≡◌, refl, Bool, true, false, Option, none, List, [], ◌∷◌, ◌++◌, replicate,
  arith, if◌then◌else◌, Bool-cases, Option-cases, inl, inr, length,
}
use deep_seek_web_to_api.Prelude.Int.{ℤ, pos}
use deep_seek_web_to_api.Stream.Failure.{stop_reason_no_content_timeout}
use deep_seek_web_to_api.Stream.Engine.{
  ConsumeConfig, ParsedDecision, Hook, on_keep_alive, on_context_done, on_finalize, Event,
  context_done, tick, parsed, closed, Round, State, Next, goes_on, returns, on_tick, on_decision,
  take_event, after, step, consume,
}

-- How many of the calls tell the client that the stream is over.
abbrev pub finals : List Hook → ℕ
finals [] = 0
finals (on_keep_alive ∷ calls) = finals calls
finals (on_context_done ∷ calls) = suc (finals calls)
finals (on_finalize reason e ∷ calls) = suc (finals calls)

finals-append : (xs ys : List Hook) → finals (xs ++ ys) ≡ finals xs + finals ys
finals-append [] ys = omega arith
finals-append (on_keep_alive ∷ xs) ys = finals-append xs ys
finals-append (on_context_done ∷ xs) ys = omega (arith, finals-append xs ys)
finals-append (on_finalize reason e ∷ xs) ys = omega (arith, finals-append xs ys)

-- The calls of one round: a final one only where the loop returns.
abbrev pub IsCalm : {H : Type 0} → Next H → Type 0
IsCalm (goes_on s calls) = finals calls ≡ 0
IsCalm (returns calls) = finals calls ≤ 1

on_tick-IsCalm :
    {H : Type 0} → (cfg : ConsumeConfig) (s : State H) (now : ℕ) → IsCalm (on_tick cfg s now)
unfolding on_tick
on_tick-IsCalm cfg s now = ground arith

on_decision-IsCalm :
    {H : Type 0}
    → (s : State H) (now : ℕ) (h : H) (d : ParsedDecision) → IsCalm (on_decision s now h d)
unfolding on_decision
on_decision-IsCalm s now h d = ground arith

module _ {L H : Type 0} (on_parsed : Option (H → L → H × ParsedDecision)) where
  take_event-IsCalm :
      (cfg : ConsumeConfig) (s : State H) (e : Event L) → IsCalm (take_event on_parsed cfg s e)
  unfolding take_event
  take_event-IsCalm cfg s context_done = omega arith
  take_event-IsCalm cfg s (tick now) = on_tick-IsCalm cfg s now
  take_event-IsCalm cfg s (closed e) = omega arith
  take_event-IsCalm cfg s (parsed now line) = elim (Option-cases on_parsed) [
    | inl p ↦ rw p refl
    | inr (f, p) ↦ rw p (on_decision-IsCalm s now (f s.handler line).0 (f s.handler line).1)
  ]

  step-IsCalm : (cfg : ConsumeConfig) (s : State H) (r : Round L) → IsCalm (step on_parsed cfg s r)
  unfolding step
  step-IsCalm cfg s r = elim (Bool-cases r.done_before) [
    | inl b ↦ rw b (omega arith)
    | inr b ↦ elim (Bool-cases r.done_after) [
      | inl a ↦ rw (b, a) (omega arith)
      | inr a ↦ rw (b, a) (take_event-IsCalm cfg s r.event)
    ]
  ]

-- No final call while the loop goes on, and at most one when it has returned.
abbrev pub EndsOnce : Bool × List Hook → Type 0
EndsOnce r = finals r.1 ≤ (if r.0 then 1 else 0)

after-EndsOnce :
    {H : Type 0}
    → (next : Next H) (rest : State H → Bool × List Hook) → IsCalm next
    → ((s : State H) → EndsOnce (rest s))
    → EndsOnce (after next rest)
after-EndsOnce (returns calls) rest c h = c
after-EndsOnce (goes_on s calls) rest c h = omega (arith, c, h s, finals-append calls (rest s).1)

-- Whatever happens in whatever rounds, and whatever the handler decides: the hooks are told at most
-- once that the stream is over, by `OnFinalize` or `OnContextDone`, and not before the loop returns.
pub consume-EndsOnce :
    {L H : Type 0}
    → (on_parsed : Option (H → L → H × ParsedDecision)) (cfg : ConsumeConfig) (s : State H)
      (rounds : List (Round L))
    → EndsOnce (consume on_parsed cfg s rounds)
unfolding consume
consume-EndsOnce on_parsed cfg s [] = omega arith
consume-EndsOnce on_parsed cfg s (r ∷ rounds) =
    after-EndsOnce (step on_parsed cfg s r) (λ next. consume on_parsed cfg next rounds)
      (step-IsCalm on_parsed cfg s r) (λ next. consume-EndsOnce on_parsed cfg next rounds)

-- Rounds in which nothing but the ticker speaks.
abbrev pub ticks : {L : Type 0} → List ℕ → List (Round L)
ticks [] = []
ticks (now ∷ times) =
    record { done_before = false; event = tick now; done_after = false } ∷ ticks times

abbrev limits : ℤ → ℕ → ConsumeConfig
limits idle max = record { idle_timeout = idle; max_keep_alive_no_input = pos max }

abbrev silent : {H : Type 0} → H → ℕ → ℕ → State H
silent handler last count = record {
  has_content = false;
  last_content = last;
  keepalive_count = count;
  handler = handler;
}

on_tick_last :
    {H : Type 0}
    → (idle : ℤ) (max now : ℕ) (handler : H) (last count : ℕ) → count + 1 ≡ max
    → on_tick (limits idle max) (silent handler last count) now
      ≡ returns (on_finalize stop_reason_no_content_timeout none ∷ [])
unfolding on_tick
on_tick_last idle max now handler last count h = ground arith

on_tick_more :
    {H : Type 0}
    → (idle : ℤ) (max now : ℕ) (handler : H) (last count : ℕ) → count + 1 < max
    → on_tick (limits idle max) (silent handler last count) now
      ≡ goes_on (silent handler last (count + 1)) (on_keep_alive ∷ [])
unfolding on_tick
on_tick_more idle max now handler last count h = ground arith

-- Where nothing comes for as many ticks as are allowed, each tick but the last keeps the client
-- alive, and the last ends the stream for want of content.
pub consume_silent :
    {L H : Type 0}
    → (on_parsed : Option (H → L → H × ParsedDecision)) (idle : ℤ) (max now : ℕ) (handler : H)
      (last count : ℕ) (times : List ℕ)
    → count + suc (length times) ≡ max
    → consume on_parsed
        (record { idle_timeout = idle; max_keep_alive_no_input = pos max })
        (record {
          has_content = false;
          last_content = last;
          keepalive_count = count;
          handler = handler;
        })
        (ticks (now ∷ times))
      ≡ (
        true,
        replicate (length times) on_keep_alive
            ++ on_finalize stop_reason_no_content_timeout none ∷ [],
      )
unfolding consume step take_event
consume_silent on_parsed idle max now handler last count [] h =
    rw (on_tick_last idle max now handler last count (omega arith)) refl
consume_silent on_parsed idle max now handler last count (t ∷ times) h =
    rw
      (
        on_tick_more idle max now handler last count (omega arith),
        consume_silent on_parsed idle max t handler last (count + 1) times (omega arith),
      )
      refl
