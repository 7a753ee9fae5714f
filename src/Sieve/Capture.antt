-- ===== src/Sieve/Capture.antt =====
-- internal/toolstream/tool_sieve_xml.go, tool_sieve_jsonscan.go and `consumeToolCapture` of
-- tool_sieve_core.go: the tool calls of captured text.
pub mod Scan
pub mod Shorter
pub mod Remains
pub mod Unnamed
use deep_seek_web_to_api.Prelude.{
  ℕ, zero, suc, ◌+◌, ◌-◌, ◌%◌, Bool, true, false, ◌&&◌, ◌||◌, not, Option, none, some, List, [],
  ◌∷◌, ◌++◌, length, take, drop, ltb, leb, ◌==◌, if◌then◌else◌, map,
}
use deep_seek_web_to_api.Prelude.Text.{String, str_eq, codes}
use deep_seek_web_to_api.Sieve.Bytes.{
  Bytes, is_nil, has_prefix, last_index, count_from, trim_left, trim_right, only_space,
}
use deep_seek_web_to_api.Sieve.Markup.{Tag, Markup, first_by_name, find_matching_close}

abbrev backticks : Bytes
backticks = codes "```"

-- What a capture gives: the text before the calls, the calls, and the text behind them.
abbrev pub Taken : Type 0 → Type 0
Taken Call = Bytes × List Call × Bytes

-- A block that is no tool call: its start, the text before the rest, and the rest.
abbrev pub Rejected : Type 0
Rejected = Option (ℕ × Bytes × Bytes)

pub data Verdict (Call : Type 0) : Type 0 where
  accepts : Taken Call → Verdict Call
  goes_on : Bool → Rejected → Verdict Call

-- rejected == nil || tag.Start < rejected.start
abbrev keep_first : Rejected → ℕ → Bytes → Bytes → Rejected
keep_first none start prefix suffix = some (start, prefix, suffix)
keep_first (some (best, p, s)) start prefix suffix =
    if ltb start best then some (start, prefix, suffix) else some (best, p, s)

abbrev lower_byte : ℕ → ℕ
lower_byte c = if leb b'A' c && leb c b'Z' then c + 32 else c

abbrev starts_body : Bytes → Bool
starts_body s =
    has_prefix (codes "<parameter") (map lower_byte s)
    || has_prefix (codes "{") s
    || has_prefix (codes "[") s

-- Whether a tag was found, and passes the test.
abbrev finds : (Tag → Bool) → Option Tag → Bool
finds test none = false
finds test (some tag) = test tag

module _ {Call : Type 0} (m : Markup Call) where
  unfoldable pub trim_wrapping_json_fence : Bytes → Bytes → Bytes × Bytes
  trim_wrapping_json_fence prefix suffix =
      let trimmed_prefix = trim_right prefix in
      let trimmed_suffix = trim_left suffix in
      elim (last_index backticks trimmed_prefix) [
        | none ↦ (prefix, suffix)
        | some idx ↦
            let header = m.trim_space (drop (idx + 3) trimmed_prefix) in
            if count_from 0 backticks (take (idx + 3) trimmed_prefix) % 2 == 0
            then (prefix, suffix)
            else if not (is_nil header) && not (m.equal_fold header (codes "json"))
            then (prefix, suffix)
            else if not (has_prefix backticks trimmed_suffix)
            then (prefix, suffix)
            else (take idx trimmed_prefix, drop 3 trimmed_suffix)
      ]

  abbrev unfenced : Bytes → List Call → Bytes → Taken Call
  unfenced prefix calls suffix =
      let (p, s) = trim_wrapping_json_fence prefix suffix in (p, calls, s)

  -- What becomes of one opening tag of a wrapper.
  unfoldable pub judge : Bytes → Tag → Bool → Rejected → Verdict Call
  judge captured tag any_open rejected = elim (find_matching_close m captured tag) [
    | none ↦ goes_on true rejected
    | some close ↦
        let block = take (close.end + 1 - tag.start) (drop tag.start captured) in
        let prefix = take tag.start captured in
        let suffix = drop (close.end + 1) captured in
        let (calls, saw_syntax) = m.parse block in
        if not (is_nil calls)
        then accepts (unfenced prefix calls suffix)
        else if saw_syntax
        then goes_on any_open (keep_first rejected tag.start prefix suffix)
        else goes_on any_open (keep_first rejected tag.start (prefix ++ block) suffix)
  ]

  -- Only the opening tag of a wrapper counts.
  unfoldable pub tag_verdict : Bytes → Tag → Bool → Rejected → Verdict Call
  tag_verdict captured tag any_open rejected =
      if tag.closing || not (str_eq tag.name "tool_calls")
      then goes_on any_open rejected
      else judge captured tag any_open rejected

  -- The loop over the tags from `from` on.
  unfoldable pub scan_tags : ℕ → Bytes → ℕ → Bool → Rejected → Verdict Call
  scan_tags zero captured from any_open rejected = goes_on any_open rejected
  scan_tags (suc fuel) captured from any_open rejected =
      if not (ltb from (length captured))
      then goes_on any_open rejected
      else elim (m.find_tag captured from) [
        | none ↦ goes_on any_open rejected
        | some tag ↦ elim (tag_verdict captured tag any_open rejected) [
          | accepts taken ↦ accepts taken
          | goes_on o r ↦ scan_tags fuel captured (tag.end + 1) o r
        ]
      ]

  -- A closing wrapper behind an `invoke` tag that stands before any opening wrapper.
  unfoldable pub bare_invoke : Bytes → Option (Tag × Tag)
  bare_invoke captured = elim (first_by_name m captured 0 "invoke" false) [
    | none ↦ none
    | some invoke ↦
        let wrapped =
          finds (λ wrapper. leb wrapper.start invoke.start)
            (first_by_name m captured 0 "tool_calls" false) in
        if wrapped
        then none
        else elim (first_by_name m captured (invoke.start + 1) "tool_calls" true) [
          | none ↦ none
          | some close ↦ if ltb invoke.start close.start then some (invoke, close) else none
        ]
  ]

  -- The repair of a wrapper whose opening tag is missing.
  unfoldable pub repair_invoke : Bytes → Option (Taken Call)
  repair_invoke captured = elim (bare_invoke captured) [
    | none ↦ none
    | some (invoke, close) ↦
        let body = take (close.end + 1 - invoke.start) (drop invoke.start captured) in
        let prefix = take invoke.start captured in
        let suffix = drop (close.end + 1) captured in
        let (calls, saw_syntax) = m.parse (codes "<tool_calls>" ++ body) in
        if not (is_nil calls)
        then some (unfenced prefix calls suffix)
        else if saw_syntax
        then some (prefix, [], suffix)
        else some (prefix ++ body, [], suffix)
  ]

  unfoldable pub consume_xml_tool_capture : Bytes → Option (Taken Call)
  consume_xml_tool_capture captured = elim (scan_tags (length captured) captured 0 false none) [
    | accepts taken ↦ some taken
    | goes_on true rejected ↦ none
    | goes_on false (some (start, p, s)) ↦ some (p, [], s)
    | goes_on false none ↦ repair_invoke captured
  ]

  unfoldable pub has_open_from : ℕ → Bytes → ℕ → Bool
  has_open_from zero captured from = false
  has_open_from (suc fuel) captured from =
      if not (ltb from (length captured)) then false else elim (m.find_tag captured from) [
        | none ↦ false
        | some tag ↦
            let later = has_open_from fuel captured (tag.end + 1) in
            let unclosed = not (finds (λ close. true) (find_matching_close m captured tag)) in
            if tag.closing || not (str_eq tag.name "tool_calls") then later else unclosed || later
      ]

  -- `hasOpenXMLToolTag`
  abbrev pub has_open_tool_tag : Bytes → Bool
  has_open_tool_tag captured = has_open_from (length captured) captured 0

  -- What follows an `invoke` tag without a wrapper.
  abbrev keep_body : Bytes → Tag → Bool
  keep_body captured invoke =
      let trimmed_body = trim_left (drop (invoke.end + 1) captured) in
      if is_nil trimmed_body
      then true
      else elim (first_by_name m captured (invoke.end + 1) "invoke" true) [
        | some close ↦ is_nil (m.trim_space (drop (close.end + 1) captured))
        | none ↦ starts_body trimmed_body
      ]

  unfoldable pub should_keep_bare_invoke : Bytes → Bool
  should_keep_bare_invoke captured = elim (first_by_name m captured 0 "invoke" false) [
    | none ↦ false
    | some invoke ↦
        let wrapped =
          finds (λ wrapper. leb wrapper.start invoke.start)
            (first_by_name m captured 0 "tool_calls" false) in
        let closed =
          finds (λ close. ltb invoke.start close.start)
            (first_by_name m captured (invoke.start + 1) "tool_calls" true) in
        if wrapped then false else if closed then true else keep_body captured invoke
  ]

  -- `consumeToolCapture`: none where the capture is not complete.
  unfoldable pub consume_tool_capture : Bytes → Option (Taken Call)
  consume_tool_capture captured =
      if is_nil captured then none else elim (consume_xml_tool_capture captured) [
        | some taken ↦ some taken
        | none ↦
            if has_open_tool_tag captured || should_keep_bare_invoke captured
            then none
            else some (captured, [], [])
      ]
