-- ===== src/ToolCall/Scan.antt =====
-- internal/toolcall/toolcalls_scan.go, `FindToolMarkupTagOutsideIgnored` and `scanToolMarkupTagAt`, with
-- `cdataOpenerByteLenAt` (toolcalls_markup.go), `skipXMLIgnoredSection` and `findXMLTagEnd`
-- (toolcalls_parse_markup.go). The field Canonical of a tag is the negation of `dsml_like`.
pub mod Within
pub mod Total
pub mod Panic
pub mod Rounds
use deep_seek_web_to_api.Prelude.{
  ℕ, zero, suc, ◌+◌, ◌-◌, Bool, true, false, ◌&&◌, ◌||◌, not, Option, none, some, List, [], ◌∷◌,
  ◌++◌, length, take, drop, get_or, ltb, leb, ◌==◌, if◌then◌else◌,
}
use deep_seek_web_to_api.Prelude.Text.{String, codes}
use deep_seek_web_to_api.Sieve.Bytes.{Bytes, has_prefix, last_index}
use deep_seek_web_to_api.Sieve.Markup.{Tag}
use deep_seek_web_to_api.ToolCall.Names.{
  tail, tool_markup_names, wide_pipe, match_name, consume_pipe, consume_name_prefix, name_rounds,
}

-- What stands at a position: a section that never ends, one that ends before a position, or none.
pub data Skip : Type 0 where
  blocked : Skip
  advances : ℕ → Skip
  stays : Skip

-- strings.Index(s, sub), of a text `sub` that is not empty
unfoldable pub index : Bytes → Bytes → Option ℕ
index sub [] = none
index sub (c ∷ s) =
    let later = index sub s in
    if has_prefix sub (c ∷ s) then some 0 else elim later [ none ↦ none | some i ↦ some (suc i) ]

unfoldable pub cdata_opener_len_at : Bytes → ℕ → ℕ
cdata_opener_len_at lower i =
    if not (ltb i (length lower))
    then 0
    else if has_prefix (codes "<![cdata[") (drop i lower)
    then 9
    else if has_prefix (codes "<![cdata|") (drop i lower)
    then 9
    else if has_prefix (codes "<![cdata" ++ wide_pipe) (drop i lower)
    then 11
    else 0

-- The section whose body starts at `body` and that `closer` ends.
abbrev pub section_end : Bytes → ℕ → Bytes → Skip
section_end lower body closer = elim (index closer (drop body lower)) [
  | none ↦ blocked
  | some end ↦ advances (body + end + length closer)
]

unfoldable pub skip_ignored_section : Bytes → ℕ → Option Skip
skip_ignored_section lower i =
    let opener = cdata_opener_len_at lower i in
    if ltb 0 opener
    then some (section_end lower (i + opener) (codes "]]>"))
    else elim (tail lower i) [
      | none ↦ none
      | some rest ↦
          if has_prefix (codes "<!--") rest
          then some (section_end lower (i + 4) (codes "-->"))
          else some stays
    ]

-- The quote behind a byte; 0 where there is none.
abbrev pub next_quote : ℕ → ℕ → ℕ
next_quote quote ch =
    if not (quote == 0)
    then (if ch == quote then 0 else quote)
    else if (ch == b'"') || (ch == 0x27)
    then ch
    else 0

unfoldable pub tag_end_from : ℕ → Bytes → ℕ → Option ℕ
tag_end_from quote [] i = none
tag_end_from quote (ch ∷ text) i =
    let later = tag_end_from (next_quote quote ch) text (i + 1) in
    if (quote == 0) && (ch == b'>') then some i else later

-- `findXMLTagEnd`
abbrev pub find_xml_tag_end : Bytes → ℕ → Option ℕ
find_xml_tag_end text from = tag_end_from 0 (drop from text) from

unfoldable pub consume_pipes : ℕ → Bytes → ℕ → ℕ
consume_pipes zero text idx = idx
consume_pipes (suc fuel) text idx = elim (consume_pipe text idx) [
  | none ↦ idx
  | some next ↦ consume_pipes fuel text next
]

unfoldable pub has_boundary : Bytes → ℕ → Bool
has_boundary text idx =
    let ch = get_or text idx 0 in
    not (ltb idx (length text))
    || (ch == 0x20)
    || (ch == 0x9)
    || (ch == 0xa)
    || (ch == 0xd)
    || (ch == b'>')
    || (ch == b'/')
    || (ch == b'|')
    || has_prefix wide_pipe (drop idx text)

-- How often the byte stands at the start of the text.
unfoldable pub leading : ℕ → Bytes → ℕ
leading b [] = 0
leading b (c ∷ s) = let later = leading b s in if c == b then suc later else 0

-- Where a tag ends that has a pipe behind its name.
abbrev cut_end : Bytes → ℕ → ℕ → ℕ
cut_end text name_end end = elim (index (b'<' ∷ []) (drop name_end text)) [
  | none ↦ end
  | some next ↦ if leb (name_end + next) end then name_end - 1 else end
]

-- The end of a tag, whose name has a pipe behind it or not.
unfoldable pub end_of_tag : Bytes → ℕ → Bool → Option ℕ
end_of_tag text name_end trailing = elim (find_xml_tag_end text name_end) [
  | none ↦ if trailing then some (name_end - 1) else none
  | some end ↦ some (if trailing then cut_end text name_end end else end)
]

module _ (trim_space : Bytes → Bytes) where
  abbrev pub tag_at : Bytes → ℕ → ℕ → ℕ → String → Bool → Bool → ℕ → Tag
  tag_at text start name_start name_end name closing dsml_like end =
      let trimmed = trim_space (take (end + 1 - start) (drop start text)) in
      record {
        start = start;
        end = end;
        name_start = name_start;
        name_end = name_end;
        name = name;
        closing = closing;
        self_closing =
            leb 2 (length trimmed) && has_prefix (codes "/>") (drop (length trimmed - 2) trimmed);
        dsml_like = dsml_like;
      }

  -- The tag whose name stands before `before_pipes`.
  unfoldable pub finish_tag : Bytes → ℕ → ℕ → ℕ → String → Bool → Bool → Option Tag
  finish_tag text start name_start before_pipes name closing dsml_like =
      let name_end = consume_pipes (length text) text before_pipes in
      if not (has_boundary text name_end)
      then none
      else elim (end_of_tag text name_end (ltb before_pipes name_end)) [
        | none ↦ none
        | some end ↦ some (tag_at text start name_start name_end name closing dsml_like end)
      ]

  -- The tag whose name stands behind what may precede it.
  unfoldable pub scan_name : Bytes → Bytes → ℕ → ℕ → Bool → Option (Option Tag)
  scan_name lower text start from closing =
      elim (consume_name_prefix (name_rounds lower text) lower text from false) [
        | none ↦ none
        | some (i, dsml_like) ↦ elim (tail lower i) [
          | none ↦ none
          | some rest ↦ elim (match_name tool_markup_names rest) [
            | none ↦ some none
            | some (name, n) ↦ some (finish_tag text start i (i + n) name closing dsml_like)
          ]
        ]
      ]

  -- `scanToolMarkupTagAt`
  unfoldable pub scan_tag_at : Bytes → Bytes → ℕ → Option (Option Tag)
  scan_tag_at lower text start =
      let i = start + 1 + leading b'<' (drop (start + 1) text) in
      if not (ltb start (length text)) || not (get_or text start 0 == b'<')
      then some none
      else if ltb i (length text) && (get_or text i 0 == b'/')
      then scan_name lower text start (i + 1) true
      else scan_name lower text start i false

  -- The loop of `FindToolMarkupTagOutsideIgnored`.
  unfoldable pub find_from : ℕ → Bytes → Bytes → ℕ → Option (Option Tag)
  find_from zero lower text i = some none
  find_from (suc fuel) lower text i =
      if not (ltb i (length text)) then some none else elim (skip_ignored_section lower i) [
        | none ↦ none
        | some blocked ↦ some none
        | some (advances next) ↦ find_from fuel lower text next
        | some stays ↦ elim (scan_tag_at lower text i) [
          | none ↦ none
          | some (some tag) ↦ some (some tag)
          | some none ↦ find_from fuel lower text (i + 1)
        ]
      ]

  -- `FindToolMarkupTagOutsideIgnored`, for a text and its lower case.
  unfoldable pub find_tool_markup_tag : Bytes → Bytes → ℕ → Option (Option Tag)
  find_tool_markup_tag lower text start = find_from (length text) lower text start
