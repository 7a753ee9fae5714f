-- ===== src/Sieve/Loop/Overwrite.antt =====
-- Two blocks of tool calls in one chunk (internal/toolstream/tool_sieve_core.go, `ProcessChunk`).
use deep_seek_web_to_api.Prelude.{
  ℕ, zero, suc, ◌-◌, ◌≤◌, ◌≡◌, refl, ap, subst, ◌∙◌, true, false, some, List, [], ◌∷◌, ◌++◌, length,
  take, drop, arith, if◌then◌else◌, length-append,
}
use mathlib.Core.List.{append-nil}
use deep_seek_web_to_api.Sieve.Bytes.{Bytes, is_nil}
use deep_seek_web_to_api.Sieve.Fence.{note_text}
use deep_seek_web_to_api.Sieve.Markup.{Markup, find_tool_segment_start}
use deep_seek_web_to_api.Sieve.Capture.{consume_tool_capture}
use deep_seek_web_to_api.Sieve.Loop.{
  State, Event, stops, goes_on, contents, calls_event, keep_calls, gathered, capture_round,
  segment_round, text_round, round, rounds, enough, process_chunk, called,
}
use deep_seek_web_to_api.Sieve.Loop.Conserve.{held, called-contents, called-append}

module _ {Call : Type 0} (m : Markup Call) where
  -- The state that a capture leaves.
  abbrev after_capture : State Call → Bytes → List Call → Bytes → State Call
  after_capture s prefix calls suffix = record {
    pending = suffix;
    capture = [];
    capturing = false;
    fence = note_text s.fence prefix;
    pending_tool_calls = keep_calls calls s.pending_tool_calls;
  }

  round-capture :
      (s : State Call) (prefix suffix : Bytes) (calls : List Call)
      → s.capturing ≡ true
      → consume_tool_capture m (held s) ≡ some (prefix, calls, suffix)
      → round m s ≡ goes_on (after_capture s prefix calls suffix) (contents prefix)
  unfolding round capture_round
  round-capture s prefix suffix calls on e =
      ap
        (λ b.
          if b
          then capture_round m (gathered s)
          else if is_nil s.pending
          then stops s
          else text_round m s)
        on
      ∙ rw (capture_round, e) refl

  rounds-goes_on :
      (fuel : ℕ) (s t : State Call) (events : List (Event Call))
      → round m s ≡ goes_on t events
      → rounds m (suc fuel) s ≡ ((rounds m fuel t).0, events ++ (rounds m fuel t).1)
  unfolding rounds
  rounds-goes_on fuel s t events e = rw (rounds, e) refl

  round-segment :
      (s : State Call) (x : ℕ) (text : Bytes) (start : ℕ)
      → s.capturing ≡ false
      → s.pending ≡ x ∷ text
      → find_tool_segment_start m s.fence s.pending ≡ some start
      → round m s ≡ segment_round m s start
  unfolding round text_round
  round-segment s x text start off whole e =
      ap
        (λ b.
          if b
          then capture_round m (gathered s)
          else if is_nil s.pending
          then stops s
          else text_round m s)
        off
      ∙ ap (λ q. if is_nil q then stops s else text_round m s) whole
      ∙ rw (text_round, e) refl

  rounds-idle :
      (fuel : ℕ) (s : State Call) → s.capturing ≡ false → s.pending ≡ [] → rounds m fuel s ≡ (s, [])
  unfolding rounds round
  rounds-idle zero s off empty = refl
  rounds-idle (suc fuel) s off empty =
      let idle : round m s ≡ stops s =
        ap
          (λ b.
            if b
            then capture_round m (gathered s)
            else if is_nil s.pending
            then stops s
            else text_round m s)
          off
        ∙ ap (λ q. if is_nil q then stops s else text_round m s) empty in
      rw (rounds, idle) refl

  consume_tool_capture-length :
      (captured : Bytes) (taken : Bytes × List Call × Bytes)
      → consume_tool_capture m captured ≡ some taken
      → 1 ≤ length captured
  unfolding consume_tool_capture
  consume_tool_capture-length [] taken e = cc e
  consume_tool_capture-length (x ∷ text) taken e = omega arith

  called-contents_append :
      (text : Bytes) (events : List (Event Call)) → called (contents text ++ events) ≡ called events
  called-contents_append text events =
      called-append (contents text) events
      ∙ ap (λ r. r ++ called events) (called-contents Call text)

  module _ (s : State Call) (p p' text : Bytes) (x start : ℕ) (c d : Call) (cs ds : List Call)
      (on : s.capturing ≡ true)
      (first : consume_tool_capture m (held s) ≡ some (p, c ∷ cs, x ∷ text))
      (found : find_tool_segment_start m (note_text s.fence p) (x ∷ text) ≡ some start)
      (second : consume_tool_capture m (drop start (x ∷ text)) ≡ some (p', d ∷ ds, [])) where
    rounds_two_blocks :
        (fuel : ℕ)
        → ((rounds m (suc (suc (suc fuel))) s).0.pending_tool_calls ≡ d ∷ ds)
          × (called (rounds m (suc (suc (suc fuel))) s).1 ≡ [])
    unfolding segment_round
    rounds_two_blocks fuel =
        let t = after_capture s p (c ∷ cs) (x ∷ text) in
        let u : State Call = record t {
          pending = [];
          capture = drop start (x ∷ text);
          capturing = true;
          fence = note_text t.fence (take start (x ∷ text));
        } in
        let v = after_capture u p' (d ∷ ds) [] in
        let one =
          rounds-goes_on (suc (suc fuel)) s t (contents p)
            (round-capture s p (x ∷ text) (c ∷ cs) on first) in
        let two =
          rounds-goes_on (suc fuel) t u (contents (take start (x ∷ text)))
            (round-segment t x text start refl refl found) in
        let three = rounds-goes_on fuel u v (contents p') (
          round-capture u p' [] (d ∷ ds) refl
            (ap (λ r. consume_tool_capture m r) (append-nil (drop start (x ∷ text))) ∙ second)) in
        let four = rounds-idle fuel v refl refl in
        let all =
          one
          ∙ ap (λ r. (r.0, contents p ++ r.1))
              (two
                ∙ ap (λ r. (r.0, contents (take start (x ∷ text)) ++ r.1))
                    (three ∙ ap (λ r. (r.0, contents p' ++ r.1)) four)) in
        (
          ap (λ r. r.0.pending_tool_calls) all,
          ap (λ r. called r.1) all
              ∙ called-contents_append p (contents (take start (x ∷ text)) ++ (contents p' ++ []))
              ∙ called-contents_append (take start (x ∷ text)) (contents p' ++ [])
              ∙ called-contents_append p' [],
        )

  -- Calls of a first block are lost where the rest of the same chunk has a second one: let the capture
  -- be complete with the chunk and give calls `c ∷ cs`, and let the text behind it hold, from `start`
  -- on, a block that is complete, ends the chunk and gives calls `d ∷ ds`; no calls wait before. Then
  -- no event of the chunk has tool calls, and the calls that wait for the next chunk are `d ∷ ds` alone.
  pub calls_overwritten :
      (s : State Call) (chunk p p' text : Bytes) (x start : ℕ) (c d : Call) (cs ds : List Call)
      → s.capturing ≡ true
      → s.pending_tool_calls ≡ []
      → consume_tool_capture m (s.capture ++ (s.pending ++ chunk)) ≡ some (p, c ∷ cs, x ∷ text)
      → find_tool_segment_start m (note_text s.fence p) (x ∷ text) ≡ some start
      → consume_tool_capture m (drop start (x ∷ text)) ≡ some (p', d ∷ ds, [])
      → ((process_chunk m s chunk).0.pending_tool_calls ≡ d ∷ ds)
        × (called (process_chunk m s chunk).1 ≡ [])
  unfolding process_chunk
  calls_overwritten s chunk p p' text x start c d cs ds on quiet first found second =
      let t : State Call = record s { pending = s.pending ++ chunk; pending_tool_calls = [] } in
      let long =
        consume_tool_capture-length (s.capture ++ (s.pending ++ chunk)) (p, c ∷ cs, x ∷ text)
          first in
      let fuel : suc (suc (suc (enough t - 3))) ≡ enough t =
        omega (arith, long, length-append s.capture (s.pending ++ chunk)) in
      let (waits, silent) =
        subst (λ n. ((rounds m n t).0.pending_tool_calls ≡ d ∷ ds) × (called (rounds m n t).1 ≡ []))
          fuel
          (rounds_two_blocks t p p' text x start c d cs ds on first found second (enough t - 3)) in
      (waits, ap (λ w. called (calls_event w ++ (rounds m (enough t) t).1)) quiet ∙ silent)
