-- ===== src/Sieve/Markup.antt =====
-- What internal/toolstream asks of package internal/toolcall, and its searches for tags
-- (tool_sieve_xml_scan.go, tool_sieve_core.go, tool_sieve_xml.go; toolcalls_scan.go,
-- `FindMatchingToolMarkupClose`). A search has one round for each byte of the text.
pub mod Closing
use deep_seek_web_to_api.Prelude.{
  ℕ, zero, suc, ◌+◌, ◌-◌, ◌≤◌, ◌<◌, ◌≡◌, Bool, true, false, ◌&&◌, ◌||◌, not, Option, none, some,
  List, [], ◌∷◌, length, take, drop, get_or, ltb, leb, ◌==◌, if◌then◌else◌, map,
}
use deep_seek_web_to_api.Prelude.Text.{String, str_eq, codes}
use deep_seek_web_to_api.Sieve.Bytes.{Bytes, is_nil, contains_byte, last_index}
use deep_seek_web_to_api.Sieve.Fence.{Fence, inside_code_fence}

pub record Tag : Type 0 where
  pub start : ℕ
  pub end : ℕ
  pub name_start : ℕ
  pub name_end : ℕ
  pub name : String
  pub closing : Bool
  pub self_closing : Bool
  pub dsml_like : Bool

-- `FindToolMarkupTagOutsideIgnored`, `IsPartialToolMarkupTagPrefix`, `SanitizeLooseCDATA` and
-- `ParseStandaloneToolCallsDetailed` (the calls, and whether tool-call syntax was seen, for the tools
-- of the request) of internal/toolcall, and strings.EqualFold and strings.TrimSpace. A tag that is found lies behind the
-- start of the search and within the text.
pub record Markup (Call : Type 0) : Type 0 where
  pub find_tag : Bytes → ℕ → Option Tag
  pub is_partial : Bytes → Bool
  pub sanitize : Bytes → Bytes
  pub parse : Bytes → List Call × Bool
  pub equal_fold : Bytes → Bytes → Bool
  pub trim_space : Bytes → Bytes
  pub found_within :
      (text : Bytes) (from : ℕ) (tag : Tag)
      → find_tag text from ≡ some tag
      → (from ≤ tag.start) × (tag.start ≤ tag.end) × (tag.end < length text)

unfoldable pub include_duplicate_leading_less_than : Bytes → ℕ → ℕ
include_duplicate_leading_less_than s zero = zero
include_duplicate_leading_less_than s (suc i) =
    let before = include_duplicate_leading_less_than s i in
    if get_or s i 0 == b'<' then before else suc i

module _ {Call : Type 0} (m : Markup Call) where
  unfoldable pub find_by_name : ℕ → Bytes → ℕ → String → Bool → Option Tag
  find_by_name zero s pos name closing = none
  find_by_name (suc fuel) s pos name closing =
      if not (ltb pos (length s)) then none else elim (m.find_tag s pos) [
        | none ↦ none
        | some tag ↦
            let later = find_by_name fuel s (tag.end + 1) name closing in
            if str_eq tag.name name && (if closing then tag.closing else not tag.closing)
            then some tag
            else later
      ]

  abbrev pub first_by_name : Bytes → ℕ → String → Bool → Option Tag
  first_by_name s start name closing = find_by_name (length s) s start name closing

  -- The depth behind a tag.
  abbrev pub close_depth : Tag → Tag → ℕ → ℕ
  close_depth opening tag depth =
      if not (str_eq tag.name opening.name)
      then depth
      else if tag.closing
      then depth - 1
      else if tag.self_closing
      then depth
      else depth + 1

  -- The loop of `FindMatchingToolMarkupClose`, which ends where the depth is 0.
  unfoldable pub find_close : ℕ → Bytes → Tag → ℕ → ℕ → Option Tag
  find_close zero text opening pos depth = none
  find_close (suc fuel) text opening pos depth =
      if not (ltb pos (length text)) then none else elim (m.find_tag text pos) [
        | none ↦ none
        | some tag ↦ elim (close_depth opening tag depth) [
          | zero ↦ some tag
          | suc d ↦ find_close fuel text opening (tag.end + 1) (suc d)
        ]
      ]

  unfoldable pub find_matching_close : Bytes → Tag → Option Tag
  find_matching_close text opening =
      if is_nil text || str_eq opening.name "" || opening.closing
      then none
      else find_close (length text) text opening (opening.end + 1) 1

  unfoldable pub is_bare_singular_tag : Bytes → Tag → Bool
  is_bare_singular_tag text tag =
      if tag.dsml_like
      then false
      else if str_eq tag.name "tool_call"
      then true
      else if not (str_eq tag.name "tool_calls")
      then false
      else if ltb (length text) tag.name_end || leb tag.name_end tag.name_start
      then false
      else m.equal_fold (take (tag.name_end - tag.name_start) (drop tag.name_start text))
          (codes "tool_call")

  unfoldable pub find_segment_from : ℕ → Fence → Bytes → ℕ → Option ℕ
  find_segment_from zero f s offset = none
  find_segment_from (suc fuel) f s offset = elim (m.find_tag s offset) [
    | none ↦ none
    | some tag ↦
        let later = find_segment_from fuel f s (tag.end + 1) in
        let start = include_duplicate_leading_less_than s tag.start in
        if is_bare_singular_tag s tag
        then later
        else if not (inside_code_fence f (take start s))
        then some start
        else later
  ]

  -- `findToolSegmentStart`
  unfoldable pub find_tool_segment_start : Fence → Bytes → Option ℕ
  find_tool_segment_start f s = if is_nil s then none else find_segment_from (suc (length s)) f s 0

  unfoldable pub find_partial_tag_start : Bytes → Option ℕ
  find_partial_tag_start s = elim (last_index (b'<' ∷ []) s) [
    | none ↦ none
    | some last ↦
        let start = include_duplicate_leading_less_than s last in
        if contains_byte b'>' (drop start s)
        then none
        else if m.is_partial (drop start s)
        then some start
        else none
  ]

  -- `splitSafeContentForToolDetection`: what may be sent, and what is held.
  unfoldable pub split_safe_content : Fence → Bytes → Bytes × Bytes
  split_safe_content f s = elim (find_partial_tag_start s) [
    | none ↦ (s, [])
    | some idx ↦
        if inside_code_fence f (take idx s)
        then (s, [])
        else if ltb 0 idx
        then (take idx s, drop idx s)
        else ([], s)
  ]
