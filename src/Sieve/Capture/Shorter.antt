-- ===== src/Sieve/Capture/Shorter.antt =====
-- What stands behind a capture is shorter than it (internal/toolstream).
use deep_seek_web_to_api.Prelude.{
  ℕ, ◌+◌, ◌-◌, ◌≤◌, ◌<◌, ◌≡◌, refl, sym, subst, ◌∙◌, Bool, true, false, not, ◌||◌, none, some, [],
  ◌∷◌, ◌++◌, length, take, drop, ltb, arith, Bool-cases, Option-cases, inl, inr, length-drop,
}
use deep_seek_web_to_api.Sieve.Bytes.{Bytes, is_nil, trim_left}
use deep_seek_web_to_api.Sieve.Markup.{Tag, Markup, find_matching_close}
use deep_seek_web_to_api.Sieve.Markup.Closing.{find_matching_close-within}
use deep_seek_web_to_api.Sieve.Capture.Scan.{scan_tags-keeps, bare_invoke-order}
use deep_seek_web_to_api.Sieve.Capture.{
  Taken, Rejected, Verdict, accepts, goes_on, keep_first, trim_wrapping_json_fence, unfenced, judge,
  scan_tags, bare_invoke, repair_invoke, consume_xml_tool_capture, consume_tool_capture,
  has_open_tool_tag, should_keep_bare_invoke,
}

length-trim_left : (s : Bytes) → length (trim_left s) ≤ length s
unfolding trim_left
length-trim_left [] = omega arith
length-trim_left (c ∷ s) = ground (arith, length-trim_left s)

-- What stands behind the end of a tag.
drop-shorter : (s : Bytes) (end : ℕ) → end < length s → length (drop (end + 1) s) < length s
drop-shorter s end h = omega (arith, length-drop (end + 1) s)

-- The rest of a rejected block.
abbrev IsShortRest : Bytes → Rejected → Type 0
IsShortRest captured none = Unit
IsShortRest captured (some (start, p, s)) = length s < length captured

abbrev IsShort : {Call : Type 0} → Bytes → Verdict Call → Type 0
IsShort captured (accepts (p, calls, s)) = length s < length captured
IsShort captured (goes_on o r) = IsShortRest captured r

keep_first-IsShortRest :
    (captured : Bytes) (r : Rejected) (start : ℕ) (p s : Bytes)
    → IsShortRest captured r
    → length s < length captured
    → IsShortRest captured (keep_first r start p s)
keep_first-IsShortRest captured none start p s w h = h
keep_first-IsShortRest captured (some (best, q, t)) start p s w h =
    elim (Bool-cases (ltb start best)) [ inl e ↦ rw e h | inr e ↦ rw e w ]

module _ {Call : Type 0} (m : Markup Call) where
  trim_wrapping-length :
      (prefix suffix : Bytes) → length (trim_wrapping_json_fence m prefix suffix).1 ≤ length suffix
  unfolding trim_wrapping_json_fence
  trim_wrapping-length prefix suffix =
      ground (arith, length-trim_left suffix, length-drop 3 (trim_left suffix))

  judge-IsShort :
      (captured : Bytes) (tag : Tag) (o : Bool) (r : Rejected)
      → tag.start ≤ tag.end
      → IsShortRest captured r
      → IsShort captured (judge m captured tag o r)
  unfolding judge
  judge-IsShort captured tag o r h w = elim (Option-cases (find_matching_close m captured tag)) [
    | inl e ↦
        let none_found : judge m captured tag o r ≡ goes_on true r = rw (judge, e) refl in
        subst (IsShort captured) (sym none_found) w
    | inr (close, e) ↦
        let (low, high) = find_matching_close-within m captured tag close e in
        let prefix = take tag.start captured in
        let suffix = drop (close.end + 1) captured in
        let block = take (close.end + 1 - tag.start) (drop tag.start captured) in
        let short = drop-shorter captured close.end high in
        elim (Bool-cases (not (is_nil (m.parse block).0))) [
          | inl f ↦
              let found : judge m captured tag o r
                  ≡ accepts (unfenced m prefix (m.parse block).0 suffix) =
                rw (judge, e, f) refl in
              subst (IsShort captured) (sym found)
                (omega (arith, trim_wrapping-length prefix suffix, short))
          | inr f ↦ elim (Bool-cases (m.parse block).1) [
            | inl g ↦
                let kept : judge m captured tag o r
                    ≡ goes_on o (keep_first r tag.start prefix suffix) =
                  rw (judge, e, f, g) refl in
                subst (IsShort captured) (sym kept)
                  (keep_first-IsShortRest captured r tag.start prefix suffix w short)
            | inr g ↦
                let kept : judge m captured tag o r
                    ≡ goes_on o (keep_first r tag.start (prefix ++ block) suffix) =
                  rw (judge, e, f, g) refl in
                subst (IsShort captured) (sym kept)
                  (keep_first-IsShortRest captured r tag.start (prefix ++ block) suffix w short)
          ]
        ]
  ]

  repair_invoke-short :
      (captured : Bytes) (taken : Taken Call)
      → repair_invoke m captured ≡ some taken
      → length taken.2 < length captured
  unfolding repair_invoke
  repair_invoke-short captured taken h = elim (Option-cases (bare_invoke m captured)) [
    | inl e ↦ ground (arith, e)
    | inr ((invoke, close), e) ↦
        let suffix = drop (close.end + 1) captured in
        let short =
          drop-shorter captured close.end (bare_invoke-order m captured invoke close e).1 in
        ground (arith, e, short, trim_wrapping-length (take invoke.start captured) suffix)
  ]

  consume_xml-short :
      (captured : Bytes) (taken : Taken Call)
      → consume_xml_tool_capture m captured ≡ some taken
      → length taken.2 < length captured
  unfolding consume_xml_tool_capture
  consume_xml-short captured taken h =
      go (scan_tags m (length captured) captured 0 false none) refl (
        scan_tags-keeps m (IsShort captured) captured (judge-IsShort captured) (length captured) 0
          false none tt)
    where
      go :
          (v : Verdict Call)
          → scan_tags m (length captured) captured 0 false none ≡ v
          → IsShort captured v
          → length taken.2 < length captured
      go (accepts (q, cs, t)) e short =
          let opened : consume_xml_tool_capture m captured ≡ some (q, cs, t) =
            rw (consume_xml_tool_capture, e) refl in
          let same : (q, cs, t) ≡ taken = cc (sym opened ∙ h) in
          subst (λ x. length x.2 < length captured) same short
      go (goes_on true r) e short = ground (arith, e)
      go (goes_on false (some (start, q, t))) e short =
          let opened : consume_xml_tool_capture m captured ≡ some (q, [], t) =
            rw (consume_xml_tool_capture, e) refl in
          let same : (q, [], t) ≡ taken = cc (sym opened ∙ h) in
          subst (λ x. length x.2 < length captured) same short
      go (goes_on false none) e short =
          let opened : consume_xml_tool_capture m captured ≡ repair_invoke m captured =
            rw (consume_xml_tool_capture, e) refl in
          repair_invoke-short captured taken (sym opened ∙ h)

  -- The text behind the tool calls of a capture is shorter than the capture.
  pub consume_tool_capture-shorter :
      (captured : Bytes) (taken : Taken Call)
      → consume_tool_capture m captured ≡ some taken
      → length taken.2 < length captured
  unfolding consume_tool_capture
  consume_tool_capture-shorter [] taken h = cc h
  consume_tool_capture-shorter (c ∷ text) taken h =
      elim (Option-cases (consume_xml_tool_capture m (c ∷ text))) [
        | inr ((q, cs, t), f) ↦
            let opened : consume_tool_capture m (c ∷ text) ≡ some (q, cs, t) =
              rw (consume_tool_capture, f) refl in
            let same : (q, cs, t) ≡ taken = cc (sym opened ∙ h) in
            subst (λ x. length x.2 < length (c ∷ text)) same
              (consume_xml-short (c ∷ text) (q, cs, t) f)
        | inl f ↦
            elim (Bool-cases
              (has_open_tool_tag m (c ∷ text) || should_keep_bare_invoke m (c ∷ text))) [
                | inl g ↦
                    let opened : consume_tool_capture m (c ∷ text) ≡ none =
                      rw (consume_tool_capture, f, g) refl in
                    cc (sym opened ∙ h)
                | inr g ↦
                    let opened : consume_tool_capture m (c ∷ text) ≡ some (c ∷ text, [], []) =
                      rw (consume_tool_capture, f, g) refl in
                    let same : (c ∷ text, [], []) ≡ taken = cc (sym opened ∙ h) in
                    subst (λ x. length x.2 < length (c ∷ text)) same (omega arith)
              ]
      ]
