-- ===== src/Sieve/Loop/Remains.antt =====
-- What the loop of `ProcessChunk` makes of its text, whatever the parser finds (internal/toolstream).
use deep_seek_web_to_api.Prelude.{
  ℕ, zero, suc, ◌≡◌, refl, sym, ap, subst, ◌∙◌, Bool, true, false, List, [], ◌∷◌, ◌++◌, take, drop,
  Bool-cases, Option-cases, inl, inr, take-append-drop, if◌then◌else◌,
}
use mathlib.Core.List.{append-nil, append_assoc}
use deep_seek_web_to_api.Sieve.Bytes.{Bytes, is_nil}
use deep_seek_web_to_api.Sieve.Subsequence.{
  IsSubsequence, IsSubsequence-refl, IsSubsequence-trans, IsSubsequence-append,
}
use deep_seek_web_to_api.Sieve.Markup.{Markup, find_tool_segment_start, split_safe_content}
use deep_seek_web_to_api.Sieve.Capture.{consume_tool_capture}
use deep_seek_web_to_api.Sieve.Capture.Remains.{consume_tool_capture-IsRemains}
use deep_seek_web_to_api.Sieve.Loop.{
  State, Event, Round, stops, goes_on, new_state, calls_event, gathered, capture_round,
  segment_round, safe_round, text_round, round, rounds, enough, process_chunk, process_chunks, sent,
}
use deep_seek_web_to_api.Sieve.Loop.Conserve.{
  held, sent-contents, sent-append, split_safe_content-whole,
}

-- The chunks, joined.
abbrev pub joined : List Bytes → Bytes
joined [] = []
joined (chunk ∷ chunks) = chunk ++ joined chunks

same_text : {s t : Bytes} → s ≡ t → IsSubsequence s t
same_text {s} e = subst (λ t. IsSubsequence s t) e (IsSubsequence-refl s)

module _ {Call : Type 0} where
  -- Text is captured only while the sieve captures.
  abbrev IsOpen : State Call → Type 0
  IsOpen s = s.capturing ≡ false → s.capture ≡ []

  -- The text sent, and then the text that still waits, is left of the text given.
  abbrev pub IsLeft : Bytes → State Call × List (Event Call) → Type 0
  IsLeft text (t, events) = IsOpen t × IsSubsequence (sent events ++ held t) text

  abbrev IsLeftRound : Bytes → Round Call → Type 0
  IsLeftRound text (stops t) = IsLeft text (t, [])
  IsLeftRound text (goes_on t events) = IsLeft text (t, events)

  -- Two steps, the second one with more text.
  IsLeft-more :
      (text more : Bytes) (t u : State Call) (xs ys : List (Event Call))
      → IsLeft text (t, xs)
      → IsLeft (held t ++ more) (u, ys)
      → IsLeft (text ++ more) (u, xs ++ ys)
  IsLeft-more text more t u xs ys (tidy, left) (tidy', left') = (
    tidy',
    subst (λ s. IsSubsequence s (text ++ more)) (ap (λ r. r ++ held u) (sym (sent-append xs ys)))
        (IsSubsequence-trans
          (subst (λ s. IsSubsequence s ((sent xs ++ held t) ++ more))
            (sym (append_assoc (sent xs) (sent ys) (held u)))
            (subst (λ s. IsSubsequence (sent xs ++ (sent ys ++ held u)) s)
              (sym (append_assoc (sent xs) (held t) more))
              (IsSubsequence-append (IsSubsequence-refl (sent xs)) left')))
          (IsSubsequence-append left (IsSubsequence-refl more))),
  )

  IsLeft-trans :
      (text : Bytes) (t u : State Call) (xs ys : List (Event Call))
      → IsLeft text (t, xs)
      → IsLeft (held t) (u, ys)
      → IsLeft text (u, xs ++ ys)
  IsLeft-trans text t u xs ys h (tidy, left) =
      let (tidy', left') =
        IsLeft-more text [] t u xs ys h (
          tidy,
          subst (λ s. IsSubsequence (sent ys ++ held u) s) (sym (append-nil (held t))) left,
        ) in
      (tidy', subst (λ s. IsSubsequence (sent (xs ++ ys) ++ held u) s) (append-nil text) left')

module _ {Call : Type 0} (m : Markup Call) where
  capture_round-IsLeft :
      (s : State Call) → s.capturing ≡ true → IsLeftRound (held s) (capture_round m (gathered s))
  unfolding capture_round
  capture_round-IsLeft s on = elim (Option-cases (consume_tool_capture m (held s))) [
    | inl e ↦
        rw (capture_round, e)
          (
            λ off. let both : true ≡ false = sym on ∙ off in cc both,
            same_text (append-nil (held s)),
          )
    | inr ((p, calls, q), e) ↦
        rw (capture_round, e)
          (
            λ off. refl,
            IsSubsequence-trans (same_text (ap (λ r. r ++ q) (sent-contents Call p)))
                (consume_tool_capture-IsRemains m (held s) (p, calls, q) e),
          )
  ]

  segment_round-IsLeft :
      (s : State Call) (start : ℕ) → s.capture ≡ [] → IsLeftRound (held s) (segment_round m s start)
  unfolding segment_round
  segment_round-IsLeft s start empty = (
    λ off. absurd (cc off),
    same_text (
        ap (λ r. r ++ ((s.capture ++ drop start s.pending) ++ []))
          (sent-contents Call (take start s.pending))
        ∙ rw empty (
            ap (λ r. take start s.pending ++ r) (append-nil (drop start s.pending))
            ∙ take-append-drop start s.pending)),
  )

  safe_round-IsLeft :
      (s : State Call) (safe hold : Bytes)
      → IsOpen s
      → s.capture ≡ []
      → safe ++ hold ≡ s.pending
      → IsLeftRound (held s) (safe_round m s safe hold)
  unfolding safe_round
  safe_round-IsLeft s [] hold tidy empty whole = (tidy, IsSubsequence-refl (held s))
  safe_round-IsLeft s (c ∷ safe) hold tidy empty whole =
      (tidy, same_text (rw (empty, append-nil safe) whole))

  text_round-IsLeft :
      (s : State Call) → IsOpen s → s.capture ≡ [] → IsLeftRound (held s) (text_round m s)
  unfolding text_round
  text_round-IsLeft s tidy empty =
      elim (Option-cases (find_tool_segment_start m s.fence s.pending)) [
        | inr (start, e) ↦ rw (text_round, e) (segment_round-IsLeft s start empty)
        | inl e ↦
            rw (text_round, e)
              (safe_round-IsLeft s (split_safe_content m s.fence s.pending).0
                (split_safe_content m s.fence s.pending).1 tidy empty
                (split_safe_content-whole m s.fence s.pending))
      ]

  -- A round that does not capture, by whether text is pending.
  abbrev waits : State Call → Bool → Round Call
  waits s b = if b then stops s else text_round m s

  round-IsLeft : (s : State Call) → IsOpen s → IsLeftRound (held s) (round m s)
  unfolding round
  round-IsLeft s tidy = elim (Bool-cases s.capturing) [
    | inl on ↦
        subst
          (λ b.
            IsLeftRound (held s)
              (if b then capture_round m (gathered s) else waits s (is_nil s.pending)))
          (sym on) (capture_round-IsLeft s on)
    | inr off ↦
        subst
          (λ b.
            IsLeftRound (held s)
              (if b then capture_round m (gathered s) else waits s (is_nil s.pending)))
          (sym off)
          (elim (Bool-cases (is_nil s.pending)) [
            | inl e ↦
                subst (λ b. IsLeftRound (held s) (waits s b)) (sym e)
                  (tidy, IsSubsequence-refl (held s))
            | inr e ↦
                subst (λ b. IsLeftRound (held s) (waits s b)) (sym e)
                  (text_round-IsLeft s tidy (tidy off))
          ])
  ]

  rounds-IsLeft : (fuel : ℕ) (s : State Call) → IsOpen s → IsLeft (held s) (rounds m fuel s)
  unfolding rounds
  rounds-IsLeft zero s tidy = (tidy, IsSubsequence-refl (held s))
  rounds-IsLeft (suc fuel) s tidy =
      go (round m s) refl (round-IsLeft s tidy) (λ t. rounds-IsLeft fuel t)
    where
      go :
          (r : Round Call)
          → round m s ≡ r
          → IsLeftRound (held s) r
          → ((t : State Call) → IsOpen t → IsLeft (held t) (rounds m fuel t))
          → IsLeft (held s) (rounds m (suc fuel) s)
      go (stops t) e left later = rw (rounds, e) left
      go (goes_on t events) e left later =
          rw (rounds, e)
            (IsLeft-trans (held s) t (rounds m fuel t).0 events (rounds m fuel t).1 left
              (later t left.0))

  process_chunk-IsLeft :
      (s : State Call) (chunk : Bytes)
      → IsOpen s
      → IsLeft (held s ++ chunk) (process_chunk m s chunk)
  unfolding process_chunk
  process_chunk-IsLeft s chunk tidy =
      let t : State Call = record s { pending = s.pending ++ chunk; pending_tool_calls = [] } in
      let (tidy', left) = rounds-IsLeft (enough t) t tidy in
      (
        tidy',
        IsSubsequence-trans
            (same_text (
              ap (λ r. r ++ held (rounds m (enough t) t).0)
                (silent s.pending_tool_calls (rounds m (enough t) t).1)))
            (IsSubsequence-trans left (same_text (sym (append_assoc s.capture s.pending chunk)))),
      )
    where
      silent :
          (calls : List Call) (events : List (Event Call))
          → sent (calls_event calls ++ events) ≡ sent events
      silent [] events = refl
      silent (c ∷ calls) events = refl

  process_chunks-IsLeft :
      (s : State Call) (chunks : List Bytes)
      → IsOpen s
      → IsLeft (held s ++ joined chunks) (process_chunks m s chunks)
  unfolding process_chunks
  process_chunks-IsLeft s [] tidy = (tidy, same_text (sym (append-nil (held s))))
  process_chunks-IsLeft s (chunk ∷ chunks) tidy =
      let (t, events) = process_chunk m s chunk in
      let first = process_chunk-IsLeft s chunk tidy in
      let (last, later) = process_chunks m t chunks in
      let whole =
        IsLeft-more (held s ++ chunk) (joined chunks) t last events later first
          (process_chunks-IsLeft t chunks first.0) in
      (
        whole.0,
        IsSubsequence-trans whole.1 (same_text (append_assoc (held s) chunk (joined chunks))),
      )

  -- Over the chunks of any stream, and whatever the parser finds: the text of the content events,
  -- followed by the text that the sieve still holds, is what the chunks hold without some of its
  -- bytes. No byte is made up, sent twice, or sent before one that came earlier.
  pub process_chunks-IsSubsequence :
      (chunks : List Bytes)
      → let (s, events) = process_chunks m new_state chunks in
        IsSubsequence (sent events ++ (s.capture ++ s.pending)) (joined chunks)
  process_chunks-IsSubsequence chunks = (process_chunks-IsLeft new_state chunks (λ off. refl)).1
