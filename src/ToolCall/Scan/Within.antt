-- ===== src/ToolCall/Scan/Within.antt =====
-- Where a tag stands in the text (internal/toolcall/toolcalls_scan.go).
use deep_seek_web_to_api.Prelude.{
  ℕ, zero, suc, ◌+◌, ◌-◌, ◌≤◌, ◌<◌, ◌≡◌, refl, sym, subst, ◌∙◌, Bool, true, false, not, Option,
  none, some, [], ◌∷◌, length, drop, ltb, arith, Bool-cases, Option-cases, inl, inr, if◌then◌else◌,
  length-drop,
}
use deep_seek_web_to_api.Prelude.Text.{String, codes}
use deep_seek_web_to_api.Sieve.Bytes.{Bytes}
use deep_seek_web_to_api.Sieve.Markup.{Tag}
use deep_seek_web_to_api.ToolCall.Names.{
  tail, tool_markup_names, match_name, consume_pipe, consume_name_prefix, name_rounds,
}
use deep_seek_web_to_api.ToolCall.Names.Steps.{consume_name_prefix-le, consume_pipe-within}
use deep_seek_web_to_api.ToolCall.Scan.{
  blocked, advances, stays, skip_ignored_section, section_end, cdata_opener_len_at, index,
  next_quote, tag_end_from, find_xml_tag_end, consume_pipes, has_boundary, leading, cut_end,
  end_of_tag, finish_tag, tag_at, scan_name, scan_tag_at, find_from, find_tool_markup_tag,
}

consume_pipes-within :
    (fuel : ℕ) (text : Bytes) (idx : ℕ)
    → (idx ≤ consume_pipes fuel text idx)
      × (idx < consume_pipes fuel text idx → consume_pipes fuel text idx ≤ length text)
unfolding consume_pipes
consume_pipes-within zero text idx = (omega arith, λ h. absurd (omega (arith, h)))
consume_pipes-within (suc fuel) text idx = elim (Option-cases (consume_pipe text idx)) [
  | inl e ↦ rw (consume_pipes, e) (omega arith, λ h. absurd (omega (arith, h)))
  | inr (next, e) ↦
      let (more, within) = consume_pipe-within text idx next e in
      let (low, high) = consume_pipes-within fuel text next in
      rw (consume_pipes, e) (omega (arith, more, low), λ h. ground (arith, high, within))
]

tag_end_from-within :
    (quote : ℕ) (text : Bytes) (i end : ℕ)
    → tag_end_from quote text i ≡ some end
    → (i ≤ end) × (end < i + length text)
unfolding tag_end_from
tag_end_from-within quote [] i end h = cc h
tag_end_from-within quote (ch ∷ text) i end h =
    ground (arith, tag_end_from-within (next_quote quote ch) text (i + 1) end)

find_xml_tag_end-within :
    (text : Bytes) (from end : ℕ)
    → find_xml_tag_end text from ≡ some end
    → (from ≤ end) × (end < length text)
find_xml_tag_end-within text from end h =
    let (low, high) = tag_end_from-within 0 (drop from text) from end h in
    (low, omega (arith, low, high, length-drop from text))

end_of_tag-within :
    (text : Bytes) (name_end end : ℕ) (trailing : Bool)
    → (trailing ≡ true → name_end ≤ length text)
    → 1 ≤ name_end
    → end_of_tag text name_end trailing ≡ some end
    → (name_end ≤ end + 1) × (end < length text)
unfolding end_of_tag
end_of_tag-within text name_end end trailing pipes some_name h =
    elim (Option-cases (find_xml_tag_end text name_end)) [
      | inl e ↦ elim (Bool-cases trailing) [
        | inl t ↦
            let opened : end_of_tag text name_end trailing ≡ some (name_end - 1) =
              rw (end_of_tag, e, t) refl in
            let last : some (name_end - 1) ≡ some end = sym opened ∙ h in
            ground (arith, last, pipes t)
        | inr t ↦
            let opened : end_of_tag text name_end trailing ≡ none = rw (end_of_tag, e, t) refl in
            cc (sym opened ∙ h)
      ]
      | inr (found, e) ↦
          let (low, high) = find_xml_tag_end-within text name_end found e in
          let opened : end_of_tag text name_end trailing
              ≡ some (if trailing then cut_end text name_end found else found) =
            rw (end_of_tag, e) refl in
          let last : some (if trailing then cut_end text name_end found else found) ≡ some end =
            sym opened ∙ h in
          ground (arith, last, low, high)
    ]

-- A tag whose first byte is at `start` has its name and its end behind it, within the text.
abbrev pub StandsAt : ℕ → Bytes → Tag → Type 0
StandsAt start text tag =
    (tag.start ≡ start)
    × (start < tag.name_start)
    × (tag.name_start ≤ tag.name_end)
    × (tag.name_end ≤ tag.end + 1)
    × (tag.end < length text)

finish_tag-within :
    (trim : Bytes → Bytes) (text : Bytes) (start name_start before : ℕ) (name : String)
    (closing dsml : Bool) (tag : Tag)
    → start < name_start
    → name_start ≤ before
    → finish_tag trim text start name_start before name closing dsml ≡ some tag
    → StandsAt start text tag
unfolding finish_tag
finish_tag-within trim text start name_start before name closing dsml tag ahead named h =
    let name_end = consume_pipes (length text) text before in
    let (low, high) = consume_pipes-within (length text) text before in
    elim (Bool-cases (not (has_boundary text name_end))) [
      | inl b ↦ ground (arith, b)
      | inr b ↦ elim (Option-cases (end_of_tag text name_end (ltb before name_end))) [
        | inl e ↦ ground (arith, b, e)
        | inr (end, e) ↦
            let inside =
              end_of_tag-within text name_end end (ltb before name_end)
                (λ t. high (ground (arith, t))) (omega (arith, low, ahead, named)) e in
            let made = tag_at trim text start name_start name_end name closing dsml end in
            let opened : finish_tag trim text start name_start before name closing dsml
                ≡ some made =
              rw (finish_tag, b, e) refl in
            let same : made ≡ tag = cc (sym opened ∙ h) in
            subst (StandsAt start text) same
              (refl, ahead, omega (arith, low, named), inside.0, inside.1)
      ]
    ]

scan_name-within :
    (trim : Bytes → Bytes) (lower text : Bytes) (start from : ℕ) (closing : Bool) (tag : Tag)
    → start < from
    → scan_name trim lower text start from closing ≡ some (some tag)
    → StandsAt start text tag
unfolding scan_name
scan_name-within trim lower text start from closing tag ahead h =
    elim (Option-cases (consume_name_prefix (name_rounds lower text) lower text from false)) [
      | inl e ↦ ground (arith, e)
      | inr ((i, dsml), e) ↦ elim (Option-cases (tail lower i)) [
        | inl f ↦ ground (arith, e, f)
        | inr (rest, f) ↦ elim (Option-cases (match_name tool_markup_names rest)) [
          | inl g ↦ ground (arith, e, f, g)
          | inr ((name, n), g) ↦
              let low =
                consume_name_prefix-le (name_rounds lower text) lower text from false i dsml e in
              let opened : scan_name trim lower text start from closing
                  ≡ some (finish_tag trim text start i (i + n) name closing dsml) =
                rw (scan_name, e, f, g) refl in
              let same : finish_tag trim text start i (i + n) name closing dsml ≡ some tag =
                cc (sym opened ∙ h) in
              finish_tag-within trim text start i (i + n) name closing dsml tag
                (omega (arith, low, ahead)) (omega arith) same
        ]
      ]
    ]

scan_tag_at-within :
    (trim : Bytes → Bytes) (lower text : Bytes) (start : ℕ) (tag : Tag)
    → scan_tag_at trim lower text start ≡ some (some tag)
    → StandsAt start text tag
unfolding scan_tag_at
scan_tag_at-within trim lower text start tag h =
    let i = start + 1 + leading b'<' (drop (start + 1) text) in
    ground (
      arith,
      scan_name-within trim lower text start (i + 1) true tag,
      scan_name-within trim lower text start i false tag,
    )

section_end-lt :
    (lower : Bytes) (body : ℕ) (closer : Bytes) (next : ℕ)
    → 1 ≤ length closer
    → section_end lower body closer ≡ advances next
    → body < next
section_end-lt lower body closer next some_byte h =
    elim (Option-cases (index closer (drop body lower))) [
      | inl e ↦ ground (arith, e)
      | inr (end, e) ↦ ground (arith, e)
    ]

-- A section that is passed over ends behind the position.
pub skip_ignored_section-lt :
    (lower : Bytes) (i next : ℕ) → skip_ignored_section lower i ≡ some (advances next) → i < next
unfolding skip_ignored_section
skip_ignored_section-lt lower i next h = ground (
  arith,
  section_end-lt lower (i + cdata_opener_len_at lower i) (codes "]]>") next (omega arith),
  section_end-lt lower (i + 4) (codes "-->") next (omega arith),
)

find_from-within :
    (trim : Bytes → Bytes) (fuel : ℕ) (lower text : Bytes) (i : ℕ) (tag : Tag)
    → find_from trim fuel lower text i ≡ some (some tag)
    → (i ≤ tag.start) × StandsAt tag.start text tag
unfolding find_from
find_from-within trim zero lower text i tag h = cc h
find_from-within trim (suc fuel) lower text i tag h =
    elim (Bool-cases (not (ltb i (length text)))) [
      | inl b ↦ ground (arith, b)
      | inr b ↦ elim (Option-cases (skip_ignored_section lower i)) [
        | inl e ↦ ground (arith, b, e)
        | inr (blocked, e) ↦ ground (arith, b, e)
        | inr (advances next, e) ↦
            let opened : find_from trim (suc fuel) lower text i
                ≡ find_from trim fuel lower text next =
              rw (find_from, b, e) refl in
            let (low, stands) = find_from-within trim fuel lower text next tag (sym opened ∙ h) in
            (omega (arith, low, skip_ignored_section-lt lower i next e), stands)
        | inr (stays, e) ↦
            after b e (find_from-within trim fuel lower text (i + 1) tag)
              (scan_tag_at trim lower text i) refl
      ]
    ]
  where
    after :
        not (ltb i (length text)) ≡ false
        → skip_ignored_section lower i ≡ some stays
        → (find_from trim fuel lower text (i + 1) ≡ some (some tag)
            → (i + 1 ≤ tag.start) × StandsAt tag.start text tag)
        → (r : Option (Option Tag)) → scan_tag_at trim lower text i ≡ r
        → (i ≤ tag.start) × StandsAt tag.start text tag
    after b e later none g = ground (arith, b, e, g)
    after b e later (some none) g =
        let opened : find_from trim (suc fuel) lower text i
            ≡ find_from trim fuel lower text (i + 1) =
          rw (find_from, b, e, g) refl in
        let (low, stands) = later (sym opened ∙ h) in (omega (arith, low), stands)
    after b e later (some (some found)) g =
        let opened : find_from trim (suc fuel) lower text i ≡ some (some found) =
          rw (find_from, b, e, g) refl in
        let same : found ≡ tag = cc (sym opened ∙ h) in
        let (at, ahead, named, ends, inside) = scan_tag_at-within trim lower text i found g in
        subst (λ t. (i ≤ t.start) × StandsAt t.start text t) same
          (omega (arith, at), (refl, omega (arith, at, ahead), named, ends, inside))

-- A tag that the search finds starts at or behind the start of the search; its name stands behind its
-- first byte, its end is not before the last byte of the name, and all of it lies within the text,
-- whatever the text in lower case is.
pub find_tool_markup_tag-within :
    (trim : Bytes → Bytes) (lower text : Bytes) (from : ℕ) (tag : Tag)
    → find_tool_markup_tag trim lower text from ≡ some (some tag)
    → (from ≤ tag.start) × StandsAt tag.start text tag
unfolding find_tool_markup_tag
find_tool_markup_tag-within trim lower text from tag h =
    find_from-within trim (length text) lower text from tag h
