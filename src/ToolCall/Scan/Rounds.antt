-- ===== src/ToolCall/Scan/Rounds.antt =====
-- The loops of the search for a tag end within the rounds given (internal/toolcall/toolcalls_scan.go).
use deep_seek_web_to_api.Prelude.{
  ℕ, zero, suc, ◌+◌, ◌≤◌, ◌≡◌, refl, ap, ◌∙◌, Bool, true, not, none, some, length, ltb, arith,
  Bool-cases, Option-cases, inl, inr,
}
use deep_seek_web_to_api.Sieve.Bytes.{Bytes}
use deep_seek_web_to_api.ToolCall.Names.{consume_once, consume_name_prefix, name_rounds}
use deep_seek_web_to_api.ToolCall.Names.Steps.{consume_once-lt}
use deep_seek_web_to_api.ToolCall.Scan.{
  blocked, advances, stays, skip_ignored_section, scan_tag_at, find_from, find_tool_markup_tag,
}
use deep_seek_web_to_api.ToolCall.Scan.Within.{skip_ignored_section-lt}

consume_name_prefix-suc :
    (fuel : ℕ) (lower text : Bytes) (idx : ℕ) (dsml : Bool)
    → length lower + length text ≤ idx + fuel
    → consume_name_prefix (suc (suc fuel)) lower text idx dsml
      ≡ consume_name_prefix (suc fuel) lower text idx dsml
unfolding consume_name_prefix
consume_name_prefix-suc zero lower text idx dsml enough =
    elim (Option-cases (consume_once lower text idx dsml)) [
      | inl e ↦ rw (consume_name_prefix, e) refl
      | inr (none, e) ↦ rw (consume_name_prefix, e) refl
      | inr (some next, e) ↦
          let ahead = consume_once-lt lower text idx next dsml e in
          absurd (omega (arith, enough, ahead.1))
    ]
consume_name_prefix-suc (suc fuel) lower text idx dsml enough =
    elim (Option-cases (consume_once lower text idx dsml)) [
      | inl e ↦ rw (consume_name_prefix, e) refl
      | inr (none, e) ↦ rw (consume_name_prefix, e) refl
      | inr (some next, e) ↦
          let ahead = consume_once-lt lower text idx next dsml e in
          rw (consume_name_prefix, e)
            (consume_name_prefix-suc fuel lower text next true (omega (arith, enough, ahead.0)))
    ]

-- More rounds over what may precede a name change nothing.
pub consume_name_prefix-rounds :
    (more : ℕ) (lower text : Bytes) (idx : ℕ) (dsml : Bool)
    → consume_name_prefix (more + name_rounds lower text) lower text idx dsml
      ≡ consume_name_prefix (name_rounds lower text) lower text idx dsml
consume_name_prefix-rounds zero lower text idx dsml =
    let none_more : 0 + name_rounds lower text ≡ name_rounds lower text = omega arith in
    ap (λ n. consume_name_prefix n lower text idx dsml) none_more
consume_name_prefix-rounds (suc more) lower text idx dsml =
    let total = length lower + length text in
    let one_more : suc more + name_rounds lower text ≡ suc (suc (more + total)) = omega arith in
    let same : suc (more + total) ≡ more + name_rounds lower text = omega arith in
    ap (λ n. consume_name_prefix n lower text idx dsml) one_more
    ∙ consume_name_prefix-suc (more + total) lower text idx dsml (omega arith)
    ∙ ap (λ n. consume_name_prefix n lower text idx dsml) same
    ∙ consume_name_prefix-rounds more lower text idx dsml

find_from-suc :
    (trim : Bytes → Bytes) (fuel : ℕ) (lower text : Bytes) (i : ℕ)
    → length text ≤ i + fuel
    → find_from trim (suc fuel) lower text i ≡ find_from trim fuel lower text i
unfolding find_from
find_from-suc trim zero lower text i enough = ground (arith, enough)
find_from-suc trim (suc fuel) lower text i enough = elim (Bool-cases (not (ltb i (length text)))) [
  | inl b ↦ rw (find_from, b) refl
  | inr b ↦ elim (Option-cases (skip_ignored_section lower i)) [
    | inl e ↦ rw (find_from, b, e) refl
    | inr (blocked, e) ↦ rw (find_from, b, e) refl
    | inr (advances next, e) ↦
        rw (find_from, b, e)
          (find_from-suc trim fuel lower text next
            (omega (arith, enough, skip_ignored_section-lt lower i next e)))
    | inr (stays, e) ↦ elim (Option-cases (scan_tag_at trim lower text i)) [
      | inl g ↦ rw (find_from, b, e, g) refl
      | inr (some tag, g) ↦ rw (find_from, b, e, g) refl
      | inr (none, g) ↦
          rw (find_from, b, e, g)
            (find_from-suc trim fuel lower text (i + 1) (omega (arith, enough)))
    ]
  ]
]

-- The loop of the search ends within a round for each byte of the text: more rounds change nothing.
pub find_tool_markup_tag-rounds :
    (trim : Bytes → Bytes) (more : ℕ) (lower text : Bytes) (i : ℕ)
    → find_from trim (more + length text) lower text i ≡ find_tool_markup_tag trim lower text i
unfolding find_tool_markup_tag
find_tool_markup_tag-rounds trim zero lower text i =
    let none_more : 0 + length text ≡ length text = omega arith in
    ap (λ n. find_from trim n lower text i) none_more
find_tool_markup_tag-rounds trim (suc more) lower text i =
    let one_more : suc more + length text ≡ suc (more + length text) = omega arith in
    ap (λ n. find_from trim n lower text i) one_more
    ∙ find_from-suc trim (more + length text) lower text i (omega arith)
    ∙ find_tool_markup_tag-rounds trim more lower text i
