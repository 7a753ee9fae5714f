-- ===== src/Sieve/Loop/Rounds.antt =====
-- The loop of `ProcessChunk` ends (internal/toolstream/tool_sieve_core.go).
use deep_seek_web_to_api.Prelude.{
  ℕ, zero, suc, ◌+◌, ◌*◌, ◌≤◌, ◌<◌, ◌≡◌, refl, sym, ap, subst, ◌∙◌, Bool, true, false, List, [],
  ◌∷◌, ◌++◌, length, drop, arith, Bool-cases, Option-cases, inl, inr, if◌then◌else◌, length-append,
  length-drop,
}
use deep_seek_web_to_api.Sieve.Bytes.{Bytes, is_nil}
use deep_seek_web_to_api.Sieve.Markup.{Markup, find_tool_segment_start, split_safe_content}
use deep_seek_web_to_api.Sieve.Capture.{consume_tool_capture}
use deep_seek_web_to_api.Sieve.Capture.Shorter.{consume_tool_capture-shorter}
use deep_seek_web_to_api.Sieve.Loop.{
  State, Event, Round, stops, goes_on, gathered, capture_round, segment_round, safe_round,
  text_round, round, rounds, enough,
}
use deep_seek_web_to_api.Sieve.Loop.Conserve.{held, split_safe_content-whole}

abbrev step : Bool → ℕ
step capturing = if capturing then 0 else 1

step-le : (b : Bool) → step b ≤ 1
step-le true = omega arith
step-le false = omega arith

module _ {Call : Type 0} where
  -- Twice the text that is held, and one where it is not captured.
  abbrev weight : State Call → ℕ
  weight s = 2 * (length s.pending + length s.capture) + step s.capturing

  -- One more round has less to do.
  abbrev IsLess : ℕ → Round Call → Type 0
  IsLess n (stops t) = Unit
  IsLess n (goes_on t events) = weight t < n

-- The loop without a bound: a round that stops ends it, and `n` rounds go on before that one.
pub data Ends {Call : Type 0} (m : Markup Call)
    : State Call → ℕ → State Call × List (Event Call) → Type 0 where
  stopped : {s t : State Call} → round m s ≡ stops t → Ends m s 0 (t, [])
  again :
      {s t u : State Call} {events later : List (Event Call)} {n : ℕ}
      → round m s ≡ goes_on t events
      → Ends m t n (u, later)
      → Ends m s (suc n) (u, events ++ later)

module _ {Call : Type 0} (m : Markup Call) where
  capture_round-IsLess :
      (s : State Call)
      → IsLess (2 * (length s.pending + length s.capture)) (capture_round m (gathered s))
  unfolding capture_round
  capture_round-IsLess s = elim (Option-cases (consume_tool_capture m (held s))) [
    | inl e ↦ rw (capture_round, e) tt
    | inr ((p, calls, q), e) ↦
        let shorter = consume_tool_capture-shorter m (held s) (p, calls, q) e in
        rw (capture_round, e) (omega (arith, shorter, length-append s.capture s.pending))
  ]

  safe_round-IsLess :
      (s : State Call) (safe hold : Bytes)
      → safe ++ hold ≡ s.pending
      → IsLess (weight s) (safe_round m s safe hold)
  unfolding safe_round
  safe_round-IsLess s [] hold whole = tt
  safe_round-IsLess s (c ∷ safe) hold whole =
      let sum : length (c ∷ safe) + length hold ≡ length s.pending =
        sym (length-append (c ∷ safe) hold) ∙ ap (λ r. length r) whole in
      omega (arith, sum)

  text_round-IsLess : (s : State Call) → s.capturing ≡ false → IsLess (weight s) (text_round m s)
  unfolding text_round segment_round
  text_round-IsLess s off = elim (Option-cases (find_tool_segment_start m s.fence s.pending)) [
    | inr (start, e) ↦
        let one : step s.capturing ≡ 1 = ap step off in
        rw (text_round, e)
          (omega (
            arith,
            one,
            length-append s.capture (drop start s.pending),
            length-drop start s.pending,
          ))
    | inl e ↦
        rw (text_round, e)
          (safe_round-IsLess s (split_safe_content m s.fence s.pending).0
            (split_safe_content m s.fence s.pending).1
            (split_safe_content-whole m s.fence s.pending))
  ]

  -- A round that does not capture, by whether text is pending.
  abbrev waits : State Call → Bool → Round Call
  waits s b = if b then stops s else text_round m s

  round-IsLess : (s : State Call) → IsLess (weight s) (round m s)
  unfolding round
  round-IsLess s = elim (Bool-cases s.capturing) [
    | inl on ↦
        subst
          (λ b.
            IsLess (2 * (length s.pending + length s.capture) + step b)
              (if b then capture_round m (gathered s) else waits s (is_nil s.pending)))
          (sym on) (more (capture_round m (gathered s)) (capture_round-IsLess s))
    | inr off ↦
        subst
          (λ b.
            IsLess (weight s)
              (if b then capture_round m (gathered s) else waits s (is_nil s.pending)))
          (sym off)
          (elim (Bool-cases (is_nil s.pending)) [
            | inl e ↦ subst (λ b. IsLess (weight s) (waits s b)) (sym e) tt
            | inr e ↦ subst (λ b. IsLess (weight s) (waits s b)) (sym e) (text_round-IsLess s off)
          ])
  ]
    where
      more :
          (r : Round Call)
          → IsLess (2 * (length s.pending + length s.capture)) r
          → IsLess (2 * (length s.pending + length s.capture) + 0) r
      more (stops t) less = tt
      more (goes_on t events) less = omega (arith, less)

  rounds-Ends_within :
      (fuel : ℕ) (s : State Call)
      → weight s < fuel
      → (n : ℕ) × (n < fuel) × Ends m s n (rounds m fuel s)
  unfolding rounds
  rounds-Ends_within zero s less = absurd (omega (arith, less))
  rounds-Ends_within (suc fuel) s less =
      go (round m s) refl (round-IsLess s) (rounds-Ends_within fuel)
    where
      go :
          (r : Round Call)
          → round m s ≡ r
          → IsLess (weight s) r
          → ((t : State Call)
              → weight t < fuel
              → (n : ℕ) × (n < fuel) × Ends m t n (rounds m fuel t))
          → (n : ℕ) × (n < suc fuel) × Ends m s n (rounds m (suc fuel) s)
      go (stops t) e smaller later =
          let last : rounds m (suc fuel) s ≡ (t, []) = rw (rounds, e) refl in
          (0, omega arith, subst (Ends m s 0) (sym last) (stopped e))
      go (goes_on t events) e smaller later =
          let (n, few, ended) = later t (omega (arith, smaller, less)) in
          let more : rounds m (suc fuel) s ≡ ((rounds m fuel t).0, events ++ (rounds m fuel t).1) =
            rw (rounds, e) refl in
          (suc n, omega (arith, few), subst (Ends m s (suc n)) (sym more) (again e ended))

  -- The loop of `ProcessChunk` ends from every state: after fewer rounds than two for each byte that
  -- is held and two more, a round stops, and the state and the events that the rounds give are those
  -- of the loop up to there.
  pub rounds-Ends : (s : State Call) → (n : ℕ) × (n < enough s) × Ends m s n (rounds m (enough s) s)
  rounds-Ends s = rounds-Ends_within (enough s) s (omega (arith, step-le s.capturing))
