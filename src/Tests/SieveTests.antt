-- ===== src/Tests/SieveTests.antt =====
-- Examples for internal/toolstream: the letters A and B are an opening and a closing tag.
use deep_seek_web_to_api.Prelude.{
  ℕ, ◌+◌, ◌≤◌, ◌<◌, ◌≡◌, refl, ap, Bool, true, false, Option, none, some, List, [], ◌∷◌, length,
  take, drop, arith, ◌==◌, ◌++◌, ◌&&◌, leb, if◌then◌else◌, length-drop,
}
use deep_seek_web_to_api.Prelude.Int.{pos}
use deep_seek_web_to_api.Prelude.Text.{String, str_eq, codes}
use deep_seek_web_to_api.Sieve.Bytes.{Bytes, trim_left, trim_right, bytes_eq}
use deep_seek_web_to_api.Sieve.Fence.{no_fence, simulate, apply_fence_marker}
use deep_seek_web_to_api.Sieve.Fence.Notes.{notes, counted, fence_line, fence_missed}
use deep_seek_web_to_api.Sieve.Markup.{Tag, Markup}
use deep_seek_web_to_api.Sieve.Capture.{Taken, consume_tool_capture}
use deep_seek_web_to_api.Sieve.Capture.Unnamed.{consume_tool_capture-unnamed}
use deep_seek_web_to_api.Sieve.Loop.{
  State, new_state, process_chunks, process_chunk, rounds, enough, sent, called,
}
use deep_seek_web_to_api.Sieve.Loop.Remains.{joined, process_chunks-IsSubsequence}
use deep_seek_web_to_api.Sieve.Subsequence.{IsSubsequence}
use deep_seek_web_to_api.ToolCall.Interface.{Rest, tool_markup}
use deep_seek_web_to_api.Sieve.Loop.Overwrite.{calls_overwritten}
use deep_seek_web_to_api.Sieve.Loop.Rounds.{Ends, rounds-Ends}

abbrev letter : String → ℕ → Bool → Tag
letter name i closing = record {
  start = i;
  end = i;
  name_start = i;
  name_end = i;
  name = name;
  closing = closing;
  self_closing = false;
  dsml_like = false;
}

-- The first letter A or B of a text that stands at `i`.
unfoldable first_letter : String → ℕ → Bytes → Option Tag
first_letter name i [] = none
first_letter name i (c ∷ s) =
    let later = first_letter name (i + 1) s in
    if c == b'A'
    then some (letter name i false)
    else if c == b'B'
    then some (letter name i true)
    else later

first_letter-within :
    (name : String) (i : ℕ) (s : Bytes) (tag : Tag)
    → first_letter name i s ≡ some tag
    → (i ≤ tag.start) × (tag.start ≤ tag.end) × (tag.end < i + length s)
unfolding first_letter
first_letter-within name i [] tag h = cc h
first_letter-within name i (c ∷ s) tag h = ground (arith, first_letter-within name (i + 1) s tag)

find_letter-within :
    (name : String) (text : Bytes) (from : ℕ) (tag : Tag)
    → first_letter name from (drop from text) ≡ some tag
    → (from ≤ tag.start) × (tag.start ≤ tag.end) × (tag.end < length text)
find_letter-within name text from tag h =
    let (low, order, high) = first_letter-within name from (drop from text) tag h in
    (low, order, omega (arith, low, order, high, length-drop from text))

-- Letters as tags, with a parser of blocks.
abbrev letters : String → (Bytes → List ℕ × Bool) → Markup ℕ
letters name parse = record {
  find_tag = λ text from. first_letter name from (drop from text);
  is_partial = λ s. false;
  sanitize = λ s. s;
  parse = parse;
  equal_fold = λ s t. false;
  trim_space = λ s. s;
  found_within = find_letter-within name;
}

abbrev no_calls : Markup ℕ
no_calls = letters "tool_calls" (λ block. ([], false))

-- Every block is one call, named by its second byte.
abbrev one_call : Markup ℕ
one_call = letters "tool_calls" (λ block. (take 1 (drop 1 block), true))

abbrev capturing_state : State ℕ
capturing_state = record {
  pending = [];
  capture = codes "A";
  capturing = true;
  fence = no_fence;
  pending_tool_calls = [];
}

calls_overwritten_example :
    ((process_chunk one_call capturing_state (codes "1BA2B")).0.pending_tool_calls ≡ codes "2")
    × (called (process_chunk one_call capturing_state (codes "1BA2B")).1 ≡ [])
unfolding first_letter simulate deep_seek_web_to_api.Sieve.Capture.consume_tool_capture
    deep_seek_web_to_api.Sieve.Capture.consume_xml_tool_capture
    deep_seek_web_to_api.Sieve.Capture.scan_tags deep_seek_web_to_api.Sieve.Capture.tag_verdict
    deep_seek_web_to_api.Sieve.Capture.judge deep_seek_web_to_api.Sieve.Markup.find_matching_close
    deep_seek_web_to_api.Sieve.Markup.find_close
    deep_seek_web_to_api.Sieve.Capture.trim_wrapping_json_fence
    deep_seek_web_to_api.Sieve.Bytes.last_index deep_seek_web_to_api.Sieve.Bytes.trim_right
    deep_seek_web_to_api.Sieve.Markup.find_tool_segment_start
    deep_seek_web_to_api.Sieve.Markup.find_segment_from
    deep_seek_web_to_api.Sieve.Markup.is_bare_singular_tag
    deep_seek_web_to_api.Sieve.Fence.inside_code_fence
    deep_seek_web_to_api.Sieve.Markup.include_duplicate_leading_less_than
    deep_seek_web_to_api.Sieve.Fence.flush_pending deep_seek_web_to_api.Sieve.Fence.flush_ticks
    deep_seek_web_to_api.Sieve.Fence.flush_tildes deep_seek_web_to_api.Sieve.Fence.note_text
    deep_seek_web_to_api.Sieve.Bytes.only_space
calls_overwritten_example =
    calls_overwritten one_call capturing_state (codes "1BA2B") [] [] (codes "2B") b'A' 0 b'1' b'2'
      [] [] refl refl refl refl refl

fence_missed_example :
    ((notes (counted [] false 0) ((0xa ∷ []) ∷ fence_line 3 ∷ [])).stack ≡ [])
    × ((notes (counted [] false 0) ((0xa ∷ fence_line 3) ∷ [])).stack
        ≡ apply_fence_marker [] (pos 3))
fence_missed_example = fence_missed [] 3 (omega arith)

-- The letters as tags of another name.
abbrev hyphenated : Markup ℕ
hyphenated = letters "tool-calls" (λ block. (take 1 (drop 1 block), true))

first_letter-named :
    (name : String) (i : ℕ) (s : Bytes) (tag : Tag)
    → first_letter name i s ≡ some tag
    → tag.name ≡ name
unfolding first_letter
first_letter-named name i [] tag h = cc h
first_letter-named name i (c ∷ s) tag h = ground (arith, first_letter-named name (i + 1) s tag)

hyphenated_lem :
    (from : ℕ) (tag : Tag)
    → hyphenated.find_tag (codes "A1B") from ≡ some tag
    → str_eq tag.name "tool_calls" ≡ false
hyphenated_lem from tag h =
    ap (λ name. str_eq name "tool_calls")
      (first_letter-named "tool-calls" from (drop from (codes "A1B")) tag h)

consume_tool_capture-unnamed_example : ◌≡◌ {A = Taken ℕ} (codes "A1B", [], []) (codes "A1B", [], [])
unfolding consume_tool_capture deep_seek_web_to_api.Sieve.Capture.consume_xml_tool_capture
    deep_seek_web_to_api.Sieve.Capture.scan_tags first_letter
    deep_seek_web_to_api.Sieve.Capture.tag_verdict deep_seek_web_to_api.Sieve.Capture.repair_invoke
    deep_seek_web_to_api.Sieve.Capture.bare_invoke deep_seek_web_to_api.Sieve.Markup.find_by_name
    deep_seek_web_to_api.Sieve.Capture.has_open_from
    deep_seek_web_to_api.Sieve.Capture.should_keep_bare_invoke
consume_tool_capture-unnamed_example =
    consume_tool_capture-unnamed hyphenated (codes "A1B") hyphenated_lem (codes "A1B", [], []) refl

abbrev ascii_lower : Bytes → Bytes
ascii_lower [] = []
ascii_lower (c ∷ s) = (if leb b'A' c && leb c b'Z' then c + 32 else c) ∷ ascii_lower s

-- The search of the program, with lower case and space as ASCII has them; the repair of CDATA
-- changes nothing, and every block is a call, named by its length.
abbrev rest : Rest ℕ
rest = record {
  to_lower = ascii_lower;
  trim_space = λ s. trim_left (trim_right s);
  equal_fold = λ s t. bytes_eq s t;
  sanitize = λ s. s;
  parse = λ block. (length block ∷ [], true);
}

abbrev wrapped_chunks : List Bytes
wrapped_chunks = codes "a<tool_" ∷ codes "calls>b</tool_calls>c" ∷ codes "d" ∷ []

process_chunks-IsSubsequence_example :
    IsSubsequence
      (sent (process_chunks (tool_markup rest) new_state wrapped_chunks).1
        ++ ((process_chunks (tool_markup rest) new_state wrapped_chunks).0.capture
            ++ (process_chunks (tool_markup rest) new_state wrapped_chunks).0.pending))
      (joined wrapped_chunks)
process_chunks-IsSubsequence_example =
    process_chunks-IsSubsequence (tool_markup rest) wrapped_chunks

rounds-Ends_example :
    (n : ℕ) × (n < enough capturing_state)
    × Ends one_call capturing_state n (rounds one_call (enough capturing_state) capturing_state)
rounds-Ends_example = rounds-Ends one_call capturing_state
