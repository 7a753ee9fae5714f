-- ===== src/ToolCall/Partial.antt =====
-- internal/toolcall/toolcalls_scan.go, `IsPartialToolMarkupTagPrefix`.
use deep_seek_web_to_api.Prelude.{
  ℕ, zero, suc, ◌+◌, Bool, true, false, ◌||◌, not, Option, none, some, length, drop, get_or, ltb,
  ◌==◌, if◌then◌else◌,
}
use deep_seek_web_to_api.Prelude.Text.{codes}
use deep_seek_web_to_api.Sieve.Bytes.{Bytes, is_nil, has_prefix, contains_byte}
use deep_seek_web_to_api.ToolCall.Names.{
  tail, tool_markup_names, has_name_prefix, consume_once, name_rounds,
}
use deep_seek_web_to_api.ToolCall.Scan.{leading}

-- `hasToolMarkupDSMLPrefixPrefix`
abbrev may_become_dsml : Bytes → Bool
may_become_dsml rest = has_prefix rest (codes "dsml") || has_prefix rest (codes "{:dsml}")

-- The loop; the option is the panic.
unfoldable pub partial_from : ℕ → Bytes → Bytes → ℕ → Bool → Option Bool
partial_from zero lower text i dsml_like = some false
partial_from (suc fuel) lower text i dsml_like =
    if ltb (length text) i
    then some false
    else if i == length text
    then some true
    else elim (tail lower i) [
      | none ↦ none
      | some rest ↦
          if has_name_prefix tool_markup_names rest || may_become_dsml rest
          then some true
          else elim (consume_once lower text i dsml_like) [
            | none ↦ none
            | some none ↦ some false
            | some (some next) ↦ partial_from fuel lower text next true
          ]
    ]

unfoldable pub is_partial_tool_markup_tag_prefix : Bytes → Bytes → Option Bool
is_partial_tool_markup_tag_prefix lower text =
    let i = 1 + leading b'<' (drop 1 text) in
    if is_nil text || not (get_or text 0 0 == b'<') || contains_byte b'>' text
    then some false
    else if not (ltb i (length text))
    then some true
    else partial_from (name_rounds lower text) lower text
        (if get_or text i 0 == b'/' then i + 1 else i) false
