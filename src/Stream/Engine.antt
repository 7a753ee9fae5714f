-- ===== src/Stream/Engine.antt =====
-- internal/stream/engine.go: `ConsumeSSE`. The handler is a parameter, with a state of its own. A
-- round of the loop is what happens in it: whether the context is done at its start, which case the
-- `select` takes, and whether the context is done then. A tick comes only where there is a ticker,
-- and where a hook is nil its call does nothing.
pub mod Ends
use deep_seek_web_to_api.Prelude.{
  ℕ, ◌+◌, ◌-◌, Bool, true, false, ◌&&◌, not, Option, none, some, List, [], ◌∷◌, ◌++◌, ltb,
  if◌then◌else◌,
}
use deep_seek_web_to_api.Prelude.Int.{ℤ, pos, ltb_ℤ}
use deep_seek_web_to_api.Prelude.Text.{String, is_empty}
use deep_seek_web_to_api.Stream.Failure.{
  StopReason, stop_reason_no_content_timeout, stop_reason_idle_timeout,
  stop_reason_upstream_completed, stop_reason_handler_requested,
}

-- The part of `ConsumeConfig` that the loop reads.
pub record ConsumeConfig : Type 0 where
  pub idle_timeout : ℤ
  pub max_keep_alive_no_input : ℤ

pub record ParsedDecision : Type 0 where
  pub stop : Bool
  pub stop_reason : StopReason
  pub content_seen : Bool

-- The type that the line parser starts with.
unfoldable pub initial_type : Bool → String → String
initial_type thinking_enabled given =
    if is_empty given then if thinking_enabled then "thinking" else "text" else given

-- A call of a hook.
pub data Hook : Type 0 where
  on_keep_alive on_context_done : Hook
  on_finalize : StopReason → Option String → Hook

-- The case that `select` takes; `closed` has the error of the scanner.
pub data Event (L : Type 0) : Type 0 where
  context_done : Event L
  tick : ℕ → Event L
  parsed : ℕ → L → Event L
  closed : Option String → Event L

pub record Round (L : Type 0) : Type 0 where
  pub done_before : Bool
  pub event : Event L
  pub done_after : Bool

pub record State (H : Type 0) : Type 0 where
  pub has_content : Bool
  pub last_content : ℕ
  pub keepalive_count : ℕ
  pub handler : H

pub data Next (H : Type 0) : Type 0 where
  goes_on : State H → List Hook → Next H
  returns : List Hook → Next H

abbrev is_positive : ℤ → Bool
is_positive n = ltb_ℤ (pos 0) n

-- The case of a tick.
unfoldable pub on_tick : {H : Type 0} → ConsumeConfig → State H → ℕ → Next H
on_tick cfg s now =
    let count = if s.has_content then s.keepalive_count else s.keepalive_count + 1 in
    if not s.has_content
      && is_positive cfg.max_keep_alive_no_input
      && not (ltb_ℤ (pos count) cfg.max_keep_alive_no_input)
    then returns (on_finalize stop_reason_no_content_timeout none ∷ [])
    else if s.has_content
        && is_positive cfg.idle_timeout
        && ltb_ℤ cfg.idle_timeout (pos (now - s.last_content))
    then returns (on_finalize stop_reason_idle_timeout none ∷ [])
    else goes_on (record s { keepalive_count = count }) (on_keep_alive ∷ [])

-- What follows a call of `OnParsed`.
unfoldable pub on_decision : {H : Type 0} → State H → ℕ → H → ParsedDecision → Next H
on_decision s now handler d =
    if d.stop
    then returns (
        on_finalize
          (if is_empty d.stop_reason then stop_reason_handler_requested else d.stop_reason) none
        ∷ [])
    else if d.content_seen
    then goes_on
        (record { has_content = true; last_content = now; keepalive_count = 0; handler = handler })
        []
    else goes_on (record s { handler = handler }) []

-- What one more round adds to the calls.
abbrev pub after : {H : Type 0} → Next H → (State H → Bool × List Hook) → Bool × List Hook
after (returns calls) rest = (true, calls)
after (goes_on next calls) rest = ((rest next).0, calls ++ (rest next).1)

module _ {L H : Type 0} (on_parsed : Option (H → L → H × ParsedDecision)) where
  unfoldable pub take_event : ConsumeConfig → State H → Event L → Next H
  take_event cfg s context_done = returns []
  take_event cfg s (tick now) = on_tick cfg s now
  take_event cfg s (closed e) = returns (on_finalize stop_reason_upstream_completed e ∷ [])
  take_event cfg s (parsed now line) = elim on_parsed [
    | none ↦ goes_on s []
    | some f ↦ let (handler, d) = f s.handler line in on_decision s now handler d
  ]

  unfoldable pub step : ConsumeConfig → State H → Round L → Next H
  step cfg s r =
      if r.done_before
      then returns (on_context_done ∷ [])
      else if r.done_after
      then returns (on_context_done ∷ [])
      else take_event cfg s r.event

  -- Whether the loop has returned after the rounds, and the calls of the hooks so far.
  unfoldable pub consume : ConsumeConfig → State H → List (Round L) → Bool × List Hook
  consume cfg s [] = (false, [])
  consume cfg s (r ∷ rounds) = after (step cfg s r) (λ next. consume cfg next rounds)
