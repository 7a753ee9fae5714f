-- ===== src/Sieve/Capture/Unnamed.antt =====
-- Captured text without a tag of the wrapper's name (internal/toolstream/tool_sieve_xml.go).
use deep_seek_web_to_api.Prelude.{
  ℕ, zero, suc, ◌+◌, ◌≡◌, refl, Bool, true, false, not, none, some, [], length, ltb, arith,
  Bool-cases, Option-cases, inl, inr,
}
use deep_seek_web_to_api.Prelude.Text.{str_eq}
use deep_seek_web_to_api.Sieve.Bytes.{Bytes}
use deep_seek_web_to_api.Sieve.Markup.{Tag, Markup, find_by_name, first_by_name}
use deep_seek_web_to_api.Sieve.Capture.{
  Taken, Rejected, goes_on, tag_verdict, scan_tags, bare_invoke, repair_invoke,
  consume_xml_tool_capture, consume_tool_capture,
}

module _ {Call : Type 0} (m : Markup Call) (captured : Bytes)
    (unnamed : (from : ℕ) (tag : Tag)
      → m.find_tag captured from ≡ some tag
      → str_eq tag.name "tool_calls" ≡ false) where
  scan_tags-unnamed :
      (fuel from : ℕ) (o : Bool) (r : Rejected) → scan_tags m fuel captured from o r ≡ goes_on o r
  unfolding scan_tags tag_verdict
  scan_tags-unnamed zero from o r = refl
  scan_tags-unnamed (suc fuel) from o r = elim (Bool-cases (not (ltb from (length captured)))) [
    | inl b ↦ rw (scan_tags, b) refl
    | inr b ↦ elim (Option-cases (m.find_tag captured from)) [
      | inl e ↦ rw (scan_tags, b, e) refl
      | inr (tag, e) ↦
          let passed : tag_verdict m captured tag o r ≡ goes_on o r =
            ground (arith, unnamed from tag e) in
          rw (scan_tags, b, e, passed) (scan_tags-unnamed fuel (tag.end + 1) o r)
    ]
  ]

  find_by_name-unnamed :
      (fuel from : ℕ) (closing : Bool)
      → find_by_name m fuel captured from "tool_calls" closing ≡ none
  unfolding find_by_name
  find_by_name-unnamed zero from closing = refl
  find_by_name-unnamed (suc fuel) from closing =
      elim (Bool-cases (not (ltb from (length captured)))) [
        | inl b ↦ rw (find_by_name, b) refl
        | inr b ↦ elim (Option-cases (m.find_tag captured from)) [
          | inl e ↦ rw (find_by_name, b, e) refl
          | inr (tag, e) ↦
              rw (find_by_name, b, e, unnamed from tag e)
                (find_by_name-unnamed fuel (tag.end + 1) closing)
        ]
      ]

  repair_invoke-unnamed : repair_invoke m captured ≡ none
  unfolding repair_invoke bare_invoke
  repair_invoke-unnamed = elim (Option-cases (first_by_name m captured 0 "invoke" false)) [
    | inl e ↦ rw (repair_invoke, bare_invoke, e) refl
    | inr (invoke, e) ↦
        rw
          (
            repair_invoke,
            bare_invoke,
            e,
            find_by_name-unnamed (length captured) 0 false,
            find_by_name-unnamed (length captured) (invoke.start + 1) true,
          )
          refl
  ]

  consume_xml-unnamed : consume_xml_tool_capture m captured ≡ none
  unfolding consume_xml_tool_capture
  consume_xml-unnamed =
      rw (consume_xml_tool_capture, scan_tags-unnamed (length captured) 0 false none)
        repair_invoke-unnamed

  -- A capture in which no tag has the name `tool_calls` gives no tool call: it goes on, or all of its
  -- text is given back as text.
  pub consume_tool_capture-unnamed :
      (taken : Taken Call)
      → consume_tool_capture m captured ≡ some taken
      → taken ≡ (captured, [], [])
  unfolding consume_tool_capture
  consume_tool_capture-unnamed taken h = ground (arith, consume_xml-unnamed, h)
