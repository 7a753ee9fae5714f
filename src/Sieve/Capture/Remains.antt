-- ===== src/Sieve/Capture/Remains.antt =====
-- What a capture leaves of the captured text, whatever the parser finds (internal/toolstream).
use deep_seek_web_to_api.Prelude.{
  ℕ, ◌+◌, ◌-◌, ◌≤◌, ◌≡◌, refl, sym, ap, take-append-drop, take-add, subst, ◌∙◌, Bool, true, false,
  not, ◌&&◌, ◌==◌, ◌%◌, ◌||◌, none, some, List, [], ◌∷◌, ◌++◌, length, take, drop, ltb, arith,
  Bool-cases, Option-cases, inl, inr, if◌then◌else◌,
}
use mathlib.Core.List.{append-nil}
use deep_seek_web_to_api.Prelude.Text.{codes}
use deep_seek_web_to_api.Sieve.Bytes.{
  Bytes, is_nil, trim_left, trim_right, has_prefix, last_index, count_from,
}
use deep_seek_web_to_api.Sieve.Subsequence.{
  IsSubsequence, IsSubsequence-refl, IsSubsequence-trans, IsSubsequence-append, take-IsSubsequence,
  drop-IsSubsequence, gap-IsSubsequence, trim_left-IsSubsequence, trim_right-IsSubsequence,
}
use deep_seek_web_to_api.Sieve.Markup.{Tag, Markup, find_matching_close}
use deep_seek_web_to_api.Sieve.Markup.Closing.{find_matching_close-within}
use deep_seek_web_to_api.Sieve.Capture.Scan.{scan_tags-keeps, bare_invoke-order}
use deep_seek_web_to_api.Sieve.Capture.{
  Taken, Rejected, Verdict, accepts, goes_on, keep_first, trim_wrapping_json_fence, unfenced, judge,
  scan_tags, bare_invoke, repair_invoke, consume_xml_tool_capture, consume_tool_capture,
  has_open_tool_tag, should_keep_bare_invoke,
}

-- The text in three parts.
three_parts : (a b : ℕ) (c : Bytes) → a ≤ b → (take a c ++ take (b - a) (drop a c)) ++ drop b c ≡ c
three_parts a b c h =
    let sum : a + (b - a) ≡ b = omega arith in
    ap (λ x. x ++ drop b c) (sym (take-add a (b - a) c) ∙ ap (λ k. take k c) sum)
    ∙ take-append-drop b c

-- The text of a rejected block before the rest, and the rest, are left of the captured text.
abbrev IsRest : Bytes → Rejected → Type 0
IsRest captured none = Unit
IsRest captured (some (start, p, s)) = IsSubsequence (p ++ s) captured

-- The text before the calls and behind them is left of the captured text.
abbrev pub IsRemains : {Call : Type 0} → Bytes → Taken Call → Type 0
IsRemains captured (p, calls, s) = IsSubsequence (p ++ s) captured

abbrev IsFair : {Call : Type 0} → Bytes → Verdict Call → Type 0
IsFair captured (accepts taken) = IsRemains captured taken
IsFair captured (goes_on o r) = IsRest captured r

keep_first-IsRest :
    (captured : Bytes) (r : Rejected) (start : ℕ) (p s : Bytes)
    → IsRest captured r
    → IsSubsequence (p ++ s) captured
    → IsRest captured (keep_first r start p s)
keep_first-IsRest captured none start p s w h = h
keep_first-IsRest captured (some (best, q, t)) start p s w h = elim (Bool-cases (ltb start best)) [
  | inl e ↦ rw e h
  | inr e ↦ rw e w
]

module _ {Call : Type 0} (m : Markup Call) where
  -- A fence that is trimmed.
  cut-IsSubsequence :
      (i : ℕ) (p s : Bytes) → IsSubsequence (take i (trim_right p) ++ drop 3 (trim_left s)) (p ++ s)
  cut-IsSubsequence i p s =
      IsSubsequence-append
        (IsSubsequence-trans (take-IsSubsequence i (trim_right p)) (trim_right-IsSubsequence p))
        (IsSubsequence-trans (drop-IsSubsequence 3 (trim_left s)) (trim_left-IsSubsequence s))

  trim_wrapping-IsSubsequence :
      (p s : Bytes)
      → IsSubsequence
          ((trim_wrapping_json_fence m p s).0 ++ (trim_wrapping_json_fence m p s).1)
          (p ++ s)
  unfolding trim_wrapping_json_fence
  trim_wrapping-IsSubsequence p s = elim (Option-cases (last_index (codes "```") (trim_right p))) [
    | inl e ↦ rw (trim_wrapping_json_fence, e) (IsSubsequence-refl (p ++ s))
    | inr (i, e) ↦
        rw (trim_wrapping_json_fence, e)
          (by_tests i (count_from 0 (codes "```") (take (i + 3) (trim_right p)) % 2 == 0)
            (not (is_nil (m.trim_space (drop (i + 3) (trim_right p))))
              && not (m.equal_fold (m.trim_space (drop (i + 3) (trim_right p))) (codes "json")))
            (not (has_prefix (codes "```") (trim_left s))))
  ]
    where
      by_tests :
          (i : ℕ) (a b c : Bool)
          → let r : Bytes × Bytes =
              if a
              then (p, s)
              else if b
              then (p, s)
              else if c
              then (p, s)
              else (take i (trim_right p), drop 3 (trim_left s)) in
            IsSubsequence (r.0 ++ r.1) (p ++ s)
      by_tests i true b c = IsSubsequence-refl (p ++ s)
      by_tests i false true c = IsSubsequence-refl (p ++ s)
      by_tests i false false true = IsSubsequence-refl (p ++ s)
      by_tests i false false false = cut-IsSubsequence i p s

  unfenced-IsRemains :
      (captured p s : Bytes) (calls : List Call)
      → IsSubsequence (p ++ s) captured
      → IsRemains captured (unfenced m p calls s)
  unfenced-IsRemains captured p s calls h = IsSubsequence-trans (trim_wrapping-IsSubsequence p s) h

  judge-IsFair :
      (captured : Bytes) (tag : Tag) (o : Bool) (r : Rejected)
      → tag.start ≤ tag.end
      → IsRest captured r
      → IsFair captured (judge m captured tag o r)
  unfolding judge
  judge-IsFair captured tag o r h w = elim (Option-cases (find_matching_close m captured tag)) [
    | inl e ↦
        let none_found : judge m captured tag o r ≡ goes_on true r = rw (judge, e) refl in
        subst (IsFair captured) (sym none_found) w
    | inr (close, e) ↦
        let (low, high) = find_matching_close-within m captured tag close e in
        let prefix = take tag.start captured in
        let suffix = drop (close.end + 1) captured in
        let block = take (close.end + 1 - tag.start) (drop tag.start captured) in
        let gap : IsSubsequence (prefix ++ suffix) captured =
          gap-IsSubsequence tag.start (close.end + 1) captured (omega (arith, low, h)) in
        let whole : IsSubsequence ((prefix ++ block) ++ suffix) captured =
          subst (λ s. IsSubsequence s captured)
            (sym (three_parts tag.start (close.end + 1) captured (omega (arith, low, h))))
            (IsSubsequence-refl captured) in
        elim (Bool-cases (not (is_nil (m.parse block).0))) [
          | inl f ↦
              let found : judge m captured tag o r
                  ≡ accepts (unfenced m prefix (m.parse block).0 suffix) =
                rw (judge, e, f) refl in
              subst (IsFair captured) (sym found)
                (unfenced-IsRemains captured prefix suffix (m.parse block).0 gap)
          | inr f ↦ elim (Bool-cases (m.parse block).1) [
            | inl g ↦
                let kept : judge m captured tag o r
                    ≡ goes_on o (keep_first r tag.start prefix suffix) =
                  rw (judge, e, f, g) refl in
                subst (IsFair captured) (sym kept)
                  (keep_first-IsRest captured r tag.start prefix suffix w gap)
            | inr g ↦
                let kept : judge m captured tag o r
                    ≡ goes_on o (keep_first r tag.start (prefix ++ block) suffix) =
                  rw (judge, e, f, g) refl in
                subst (IsFair captured) (sym kept)
                  (keep_first-IsRest captured r tag.start (prefix ++ block) suffix w whole)
          ]
        ]
  ]

  repair_invoke-IsRemains :
      (captured : Bytes) (taken : Taken Call)
      → repair_invoke m captured ≡ some taken
      → IsRemains captured taken
  unfolding repair_invoke
  repair_invoke-IsRemains captured taken h = elim (Option-cases (bare_invoke m captured)) [
    | inl e ↦ ground (arith, e)
    | inr ((invoke, close), e) ↦
        let order = (bare_invoke-order m captured invoke close e).0 in
        let prefix = take invoke.start captured in
        let suffix = drop (close.end + 1) captured in
        let body = take (close.end + 1 - invoke.start) (drop invoke.start captured) in
        let gap : IsSubsequence (prefix ++ suffix) captured =
          gap-IsSubsequence invoke.start (close.end + 1) captured order in
        let whole : IsSubsequence ((prefix ++ body) ++ suffix) captured =
          subst (λ s. IsSubsequence s captured)
            (sym (three_parts invoke.start (close.end + 1) captured order))
            (IsSubsequence-refl captured) in
        let parsed = m.parse (codes "<tool_calls>" ++ body) in
        elim (Bool-cases (not (is_nil parsed.0))) [
          | inl f ↦
              let found : repair_invoke m captured ≡ some (unfenced m prefix parsed.0 suffix) =
                rw (repair_invoke, e, f) refl in
              let same : unfenced m prefix parsed.0 suffix ≡ taken = cc (sym found ∙ h) in
              subst (IsRemains captured) same
                (unfenced-IsRemains captured prefix suffix parsed.0 gap)
          | inr f ↦ elim (Bool-cases parsed.1) [
            | inl g ↦
                let found : repair_invoke m captured ≡ some (prefix, [], suffix) =
                  rw (repair_invoke, e, f, g) refl in
                let same : (prefix, [], suffix) ≡ taken = cc (sym found ∙ h) in
                subst (IsRemains captured) same gap
            | inr g ↦
                let found : repair_invoke m captured ≡ some (prefix ++ body, [], suffix) =
                  rw (repair_invoke, e, f, g) refl in
                let same : (prefix ++ body, [], suffix) ≡ taken = cc (sym found ∙ h) in
                subst (IsRemains captured) same whole
          ]
        ]
  ]

  consume_xml-IsRemains :
      (captured : Bytes) (taken : Taken Call)
      → consume_xml_tool_capture m captured ≡ some taken
      → IsRemains captured taken
  unfolding consume_xml_tool_capture
  consume_xml-IsRemains captured taken h =
      go (scan_tags m (length captured) captured 0 false none) refl (
        scan_tags-keeps m (IsFair captured) captured (judge-IsFair captured) (length captured) 0
          false none tt)
    where
      go :
          (v : Verdict Call)
          → scan_tags m (length captured) captured 0 false none ≡ v
          → IsFair captured v
          → IsRemains captured taken
      go (accepts (q, cs, t)) e short =
          let opened : consume_xml_tool_capture m captured ≡ some (q, cs, t) =
            rw (consume_xml_tool_capture, e) refl in
          let same : (q, cs, t) ≡ taken = cc (sym opened ∙ h) in
          subst (IsRemains captured) same short
      go (goes_on true r) e short = ground (arith, e)
      go (goes_on false (some (start, q, t))) e short =
          let opened : consume_xml_tool_capture m captured ≡ some (q, [], t) =
            rw (consume_xml_tool_capture, e) refl in
          let same : (q, [], t) ≡ taken = cc (sym opened ∙ h) in
          subst (IsRemains captured) same short
      go (goes_on false none) e short =
          let opened : consume_xml_tool_capture m captured ≡ repair_invoke m captured =
            rw (consume_xml_tool_capture, e) refl in
          repair_invoke-IsRemains captured taken (sym opened ∙ h)

  -- Whatever the parser finds, the text before the tool calls of a capture and the text behind them
  -- are left of the captured text.
  pub consume_tool_capture-IsRemains :
      (captured : Bytes) (taken : Taken Call)
      → consume_tool_capture m captured ≡ some taken
      → IsRemains captured taken
  unfolding consume_tool_capture
  consume_tool_capture-IsRemains [] taken h = cc h
  consume_tool_capture-IsRemains (c ∷ text) taken h =
      elim (Option-cases (consume_xml_tool_capture m (c ∷ text))) [
        | inr ((q, cs, t), f) ↦
            let opened : consume_tool_capture m (c ∷ text) ≡ some (q, cs, t) =
              rw (consume_tool_capture, f) refl in
            let same : (q, cs, t) ≡ taken = cc (sym opened ∙ h) in
            subst (IsRemains (c ∷ text)) same (consume_xml-IsRemains (c ∷ text) (q, cs, t) f)
        | inl f ↦
            elim (Bool-cases
              (has_open_tool_tag m (c ∷ text) || should_keep_bare_invoke m (c ∷ text))) [
                | inl g ↦
                    let opened : consume_tool_capture m (c ∷ text) ≡ none =
                      rw (consume_tool_capture, f, g) refl in
                    cc (sym opened ∙ h)
                | inr g ↦
                    let opened : consume_tool_capture m (c ∷ text) ≡ some (c ∷ text, [], []) =
                      rw (consume_tool_capture, f, g) refl in
                    let same : (c ∷ text, [], []) ≡ taken = cc (sym opened ∙ h) in
                    let nothing_taken : IsSubsequence ((c ∷ text) ++ []) (c ∷ text) =
                      subst (λ s. IsSubsequence s (c ∷ text)) (sym (append-nil (c ∷ text)))
                        (IsSubsequence-refl (c ∷ text)) in
                    subst (IsRemains (c ∷ text)) same nothing_taken
              ]
      ]
