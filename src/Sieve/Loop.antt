-- ===== src/Sieve/Loop.antt =====
-- internal/toolstream/tool_sieve_core.go: `ProcessChunk` and `Flush`. The fields of the state for
-- incremental tool calls are written only, and left out, as are the deltas of an event, which are
-- never made.
pub mod Conserve
pub mod Overwrite
pub mod Rounds
pub mod Remains
pub mod Plain
use deep_seek_web_to_api.Prelude.{
  ℕ, zero, suc, ◌+◌, ◌*◌, Bool, true, false, Option, none, some, List, [], ◌∷◌, ◌++◌, length, take,
  drop, if◌then◌else◌, not,
}
use deep_seek_web_to_api.Sieve.Bytes.{Bytes, is_nil, bytes_eq}
use deep_seek_web_to_api.Sieve.Fence.{Fence, no_fence, note_text}
use deep_seek_web_to_api.Sieve.Markup.{Markup, find_tool_segment_start, split_safe_content}
use deep_seek_web_to_api.Sieve.Capture.{Taken, consume_tool_capture, consume_xml_tool_capture}

pub record State (Call : Type 0) : Type 0 where
  pub pending : Bytes
  pub capture : Bytes
  pub capturing : Bool
  pub fence : Fence
  pub pending_tool_calls : List Call

pub data Event (Call : Type 0) : Type 0 where
  content : Bytes → Event Call
  tool_calls : List Call → Event Call

-- The end of the loop, or one more round of it with the events of this one.
pub data Round (Call : Type 0) : Type 0 where
  stops : State Call → Round Call
  goes_on : State Call → List (Event Call) → Round Call

module _ {Call : Type 0} where
  abbrev pub new_state : State Call
  new_state = record {
    pending = [];
    capture = [];
    capturing = false;
    fence = no_fence;
    pending_tool_calls = [];
  }

  -- An event for text that is not empty.
  abbrev pub contents : Bytes → List (Event Call)
  contents [] = []
  contents (c ∷ s) = content (c ∷ s) ∷ []

  abbrev pub calls_event : List Call → List (Event Call)
  calls_event [] = []
  calls_event (c ∷ cs) = tool_calls (c ∷ cs) ∷ []

  -- The calls that wait for the next chunk; calls that waited before are lost.
  abbrev pub keep_calls : List Call → List Call → List Call
  keep_calls [] old = old
  keep_calls (c ∷ cs) old = c ∷ cs

  -- The pending text joins the capture.
  abbrev pub gathered : State Call → State Call
  gathered s = record s { capture = s.capture ++ s.pending; pending = [] }

  -- Rounds enough for the text that is held.
  abbrev pub enough : State Call → ℕ
  enough s = 2 * (length s.pending + length s.capture) + 2

  -- The events for a capture that is taken apart at the end.
  abbrev taken_events : Taken Call → List (Event Call)
  taken_events (prefix, calls, suffix) = contents prefix ++ (calls_event calls ++ contents suffix)

  abbrev pub has_calls : Taken Call → Bool
  has_calls (prefix, calls, suffix) = not (is_nil calls)

  -- The text of the events is noted.
  abbrev note_events : Fence → List (Event Call) → Fence
  note_events f [] = f
  note_events f (content s ∷ events) = note_events (note_text f s) events
  note_events f (tool_calls cs ∷ events) = note_events f events

module _ {Call : Type 0} (m : Markup Call) where
  unfoldable pub capture_round : State Call → Round Call
  capture_round s = elim (consume_tool_capture m s.capture) [
    | none ↦ stops s
    | some (prefix, calls, suffix) ↦
        goes_on
          (record {
            pending = suffix;
            capture = [];
            capturing = false;
            fence = note_text s.fence prefix;
            pending_tool_calls = keep_calls calls s.pending_tool_calls;
          })
          (contents prefix)
  ]

  unfoldable pub segment_round : State Call → ℕ → Round Call
  segment_round s start =
      goes_on
        (record s {
          pending = [];
          capture = s.capture ++ drop start s.pending;
          capturing = true;
          fence = note_text s.fence (take start s.pending);
        })
        (contents (take start s.pending))

  unfoldable pub safe_round : State Call → Bytes → Bytes → Round Call
  safe_round s [] hold = stops s
  safe_round s (c ∷ safe) hold =
      goes_on (record s { pending = hold; fence = note_text s.fence (c ∷ safe) })
        (content (c ∷ safe) ∷ [])

  unfoldable pub text_round : State Call → Round Call
  text_round s = elim (find_tool_segment_start m s.fence s.pending) [
    | some start ↦ segment_round s start
    | none ↦ let (safe, hold) = split_safe_content m s.fence s.pending in safe_round s safe hold
  ]

  -- One round of the loop of `ProcessChunk`.
  unfoldable pub round : State Call → Round Call
  round s =
      if s.capturing
      then capture_round (gathered s)
      else if is_nil s.pending
      then stops s
      else text_round s

  unfoldable pub rounds : ℕ → State Call → State Call × List (Event Call)
  rounds zero s = (s, [])
  rounds (suc fuel) s = elim (round s) [
    | stops t ↦ (t, [])
    | goes_on t events ↦ let (last, later) = rounds fuel t in (last, events ++ later)
  ]

  unfoldable pub process_chunk : State Call → Bytes → State Call × List (Event Call)
  process_chunk s chunk =
      let t : State Call = record s { pending = s.pending ++ chunk; pending_tool_calls = [] } in
      let (last, events) = rounds (enough t) t in (last, calls_event s.pending_tool_calls ++ events)

  -- The capture at the end of the stream that is still not complete.
  unfoldable pub released : Bytes → List (Event Call)
  released capture =
      if bytes_eq (m.sanitize capture) capture
      then contents capture
      else elim (consume_xml_tool_capture m (m.sanitize capture)) [
        | none ↦ contents capture
        | some taken ↦ if has_calls taken then taken_events taken else contents capture
      ]

  unfoldable pub flush_capture : State Call → List (Event Call)
  flush_capture s =
      if s.capturing
      then elim (consume_tool_capture m s.capture) [
        | some taken ↦ taken_events taken
        | none ↦ released s.capture
      ]
      else []

  -- `Flush`
  unfoldable pub flush : State Call → State Call × List (Event Call)
  flush s =
      let (t, events) = process_chunk s [] in
      let last = flush_capture t ++ contents t.pending in
      (
        record {
          pending = [];
          capture = if t.capturing then [] else t.capture;
          capturing = false;
          fence = note_events t.fence last;
          pending_tool_calls = [];
        },
        events ++ (calls_event t.pending_tool_calls ++ last),
      )

  -- The chunks of a stream, one call of `ProcessChunk` each.
  unfoldable pub process_chunks : State Call → List Bytes → State Call × List (Event Call)
  process_chunks s [] = (s, [])
  process_chunks s (chunk ∷ chunks) =
      let (t, events) = process_chunk s chunk in
      let (last, later) = process_chunks t chunks in (last, events ++ later)

  -- A whole stream: its chunks, then `Flush`.
  abbrev pub sieve : List Bytes → List (Event Call)
  sieve chunks =
      let (s, events) = process_chunks new_state chunks in let (t, last) = flush s in events ++ last

-- The text of the content events.
abbrev pub sent : {Call : Type 0} → List (Event Call) → Bytes
sent [] = []
sent (content s ∷ events) = s ++ sent events
sent (tool_calls cs ∷ events) = sent events

-- The tool calls of the events, one list for each event.
abbrev pub called : {Call : Type 0} → List (Event Call) → List (List Call)
called [] = []
called (content s ∷ events) = called events
called (tool_calls cs ∷ events) = cs ∷ called events
