-- ===== src/ToolCall/Scan/Total.antt =====
-- The search for a tag does not panic where the lower case of the text is as long as the text
-- (internal/toolcall/toolcalls_scan.go).
use deep_seek_web_to_api.Prelude.{
  ℕ, zero, suc, ◌+◌, ◌≤◌, ◌≡◌, ◌≢◌, refl, sym, ◌∙◌, Bool, true, false, not, Option, none, some,
  List, [], ◌∷◌, length, drop, ltb, arith, Bool-cases, Option-cases, inl, inr, length-drop,
}
use deep_seek_web_to_api.Prelude.Text.{codes}
use deep_seek_web_to_api.Sieve.Bytes.{Bytes}
use deep_seek_web_to_api.ToolCall.Names.{
  tail, consume_space_separator, consume_token_artifact, match_artifact,
  tool_markup_token_artifacts, consume_hyphen_separator, consume_last, consume_once,
  consume_name_prefix, name_rounds,
}
use deep_seek_web_to_api.ToolCall.Names.Steps.{has_prefix-length, consume_pipe-within}
use deep_seek_web_to_api.ToolCall.Scan.{
  blocked, advances, stays, skip_ignored_section, leading, scan_name, scan_tag_at, find_from,
  find_tool_markup_tag,
}

match_artifact-length :
    (artifacts : List Bytes) (text : Bytes) (n : ℕ)
    → match_artifact artifacts text ≡ some n
    → n ≤ length text
unfolding match_artifact
match_artifact-length [] text n h = cc h
match_artifact-length (a ∷ rest) text n h =
    ground (arith, has_prefix-length a text, match_artifact-length rest text n)

consume_token_artifact-le :
    (text : Bytes) (idx next : ℕ) → consume_token_artifact text idx ≡ some next → next ≤ length text
unfolding consume_token_artifact
consume_token_artifact-le text idx next h =
    elim (Option-cases (match_artifact tool_markup_token_artifacts (drop idx text))) [
      | inl e ↦ ground (arith, e)
      | inr (n, e) ↦
          let short = match_artifact-length tool_markup_token_artifacts (drop idx text) n e in
          ground (arith, e, short, length-drop idx text)
    ]

leading-le : (b : ℕ) (text : Bytes) → leading b text ≤ length text
unfolding leading
leading-le b [] = omega arith
leading-le b (c ∷ text) = ground (arith, leading-le b text)

module _ (lower text : Bytes) (same_length : length lower ≡ length text) where
  consume_last-le :
      (idx next : ℕ) (allow : Bool)
      → consume_last lower text idx allow ≡ some (some next)
      → next ≤ length text
  unfolding consume_last consume_hyphen_separator
  consume_last-le idx next allow h = ground (arith, consume_token_artifact-le text idx next)

  consume_last-total : (idx : ℕ) (allow : Bool) → consume_last lower text idx allow ≢ none
  unfolding consume_last consume_hyphen_separator tail
  consume_last-total idx allow h = ground (arith, same_length)

  consume_once-le :
      (idx next : ℕ) (allow : Bool)
      → consume_once lower text idx allow ≡ some (some next)
      → next ≤ length text
  unfolding consume_once consume_space_separator tail
  consume_once-le idx next allow h = ground (
    arith,
    consume_pipe-within text idx next,
    consume_last-le idx next allow,
    same_length,
    has_prefix-length (codes "{:dsml}") (drop idx lower),
    has_prefix-length (codes "dsml") (drop idx lower),
    length-drop idx lower,
  )

  consume_once-total :
      (idx : ℕ) (allow : Bool) → idx ≤ length text → consume_once lower text idx allow ≢ none
  unfolding consume_once tail
  consume_once-total idx allow inside h = ground (arith, same_length, consume_last-total idx allow)

  -- What may precede a name ends within the text.
  abbrev IsInside : Option (ℕ × Bool) → Type 0
  IsInside none = ⊥
  IsInside (some (i, dsml)) = i ≤ length text

  consume_name_prefix-IsInside :
      (fuel : ℕ) (idx : ℕ) (dsml : Bool)
      → idx ≤ length text
      → IsInside (consume_name_prefix fuel lower text idx dsml)
  unfolding consume_name_prefix
  consume_name_prefix-IsInside zero idx dsml inside = inside
  consume_name_prefix-IsInside (suc fuel) idx dsml inside =
      elim (Option-cases (consume_once lower text idx dsml)) [
        | inl e ↦ absurd (consume_once-total idx dsml inside e)
        | inr (none, e) ↦ rw (consume_name_prefix, e) inside
        | inr (some next, e) ↦
            rw (consume_name_prefix, e)
              (consume_name_prefix-IsInside fuel next true (consume_once-le idx next dsml e))
      ]

  scan_name-total :
      (trim : Bytes → Bytes) (start from : ℕ) (closing : Bool)
      → from ≤ length text
      → scan_name trim lower text start from closing ≢ none
  unfolding scan_name tail
  scan_name-total trim start from closing inside h =
      go (consume_name_prefix (name_rounds lower text) lower text from false) refl
        (consume_name_prefix-IsInside (name_rounds lower text) from false inside)
    where
      go :
          (r : Option (ℕ × Bool))
          → consume_name_prefix (name_rounds lower text) lower text from false ≡ r
          → IsInside r
          → ⊥
      go none e within = within
      go (some (i, dsml)) e within = ground (arith, same_length, e, h)

  scan_tag_at-total : (trim : Bytes → Bytes) (start : ℕ) → scan_tag_at trim lower text start ≢ none
  unfolding scan_tag_at
  scan_tag_at-total trim start h =
      let i = start + 1 + leading b'<' (drop (start + 1) text) in
      ground (
        arith,
        h,
        scan_name-total trim start (i + 1) true,
        scan_name-total trim start i false,
        leading-le b'<' (drop (start + 1) text),
        length-drop (start + 1) text,
      )

  skip_ignored_section-total : (i : ℕ) → i ≤ length text → skip_ignored_section lower i ≢ none
  unfolding skip_ignored_section tail
  skip_ignored_section-total i inside h = ground (arith, h, same_length)

  find_from-total : (trim : Bytes → Bytes) (fuel i : ℕ) → find_from trim fuel lower text i ≢ none
  unfolding find_from
  find_from-total trim zero i h = cc h
  find_from-total trim (suc fuel) i h = elim (Bool-cases (not (ltb i (length text)))) [
    | inl b ↦ ground (arith, b, h)
    | inr b ↦ elim (Option-cases (skip_ignored_section lower i)) [
      | inl e ↦ skip_ignored_section-total i (ground (arith, b)) e
      | inr (blocked, e) ↦ ground (arith, b, e, h)
      | inr (advances next, e) ↦
          let opened : find_from trim (suc fuel) lower text i
              ≡ find_from trim fuel lower text next =
            rw (find_from, b, e) refl in
          find_from-total trim fuel next (sym opened ∙ h)
      | inr (stays, e) ↦ elim (Option-cases (scan_tag_at trim lower text i)) [
        | inl g ↦ scan_tag_at-total trim i g
        | inr (some tag, g) ↦ ground (arith, b, e, g, h)
        | inr (none, g) ↦
            let opened : find_from trim (suc fuel) lower text i
                ≡ find_from trim fuel lower text (i + 1) =
              rw (find_from, b, e, g) refl in
            find_from-total trim fuel (i + 1) (sym opened ∙ h)
      ]
    ]
  ]

-- Where the text in lower case is as long as the text, the search for a tag does not panic.
pub find_tool_markup_tag-total :
    (trim : Bytes → Bytes) (lower text : Bytes) (from : ℕ)
    → length lower ≡ length text
    → find_tool_markup_tag trim lower text from ≢ none
unfolding find_tool_markup_tag
find_tool_markup_tag-total trim lower text from same_length =
    find_from-total lower text same_length trim (length text) from
