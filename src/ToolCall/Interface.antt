-- ===== src/ToolCall/Interface.antt =====
-- What internal/toolcall gives to the sieve of internal/toolstream. A search that panics finds nothing
-- here; it does not where lower case keeps the length of the text (ToolCall.Scan.Total).
use deep_seek_web_to_api.Prelude.{
  ℕ, ◌≤◌, ◌<◌, ◌≡◌, ap, ◌∙◌, Bool, false, Option, none, some, List, length, arith, refl,
}
use deep_seek_web_to_api.Sieve.Bytes.{Bytes}
use deep_seek_web_to_api.Sieve.Markup.{Tag, Markup}
use deep_seek_web_to_api.ToolCall.Scan.{find_tool_markup_tag}
use deep_seek_web_to_api.ToolCall.Scan.Within.{find_tool_markup_tag-within}
use deep_seek_web_to_api.ToolCall.Partial.{is_partial_tool_markup_tag_prefix}

-- The value of a call, or the one given where it panics.
abbrev pub returned {ℓ} : {A : Type ℓ} → A → Option A → A
returned d none = d
returned d (some x) = x

-- Functions of package strings, the repair of CDATA sections and the parser of a block.
pub record Rest (Call : Type 0) : Type 0 where
  pub to_lower : Bytes → Bytes
  pub trim_space : Bytes → Bytes
  pub equal_fold : Bytes → Bytes → Bool
  pub sanitize : Bytes → Bytes
  pub parse : Bytes → List Call × Bool

module _ {Call : Type 0} (r : Rest Call) where
  abbrev pub found : Bytes → ℕ → Option Tag
  found text from = returned none (find_tool_markup_tag r.trim_space (r.to_lower text) text from)

  pub found-within :
      (text : Bytes) (from : ℕ) (tag : Tag)
      → found text from ≡ some tag
      → (from ≤ tag.start) × (tag.start ≤ tag.end) × (tag.end < length text)
  found-within text from tag h =
      go (find_tool_markup_tag r.trim_space (r.to_lower text) text from) refl h
    where
      go :
          (o : Option (Option Tag))
          → find_tool_markup_tag r.trim_space (r.to_lower text) text from ≡ o
          → returned none o ≡ some tag
          → (from ≤ tag.start) × (tag.start ≤ tag.end) × (tag.end < length text)
      go none e h = cc h
      go (some none) e h = cc h
      go (some (some t)) e h =
          let (low, (at, ahead, named, ends, inside)) =
            find_tool_markup_tag-within r.trim_space (r.to_lower text) text from tag
              (e ∙ ap (λ x. some x) h) in
          (low, omega (arith, ahead, named, ends), inside)

  -- The interface of the sieve.
  abbrev pub tool_markup : Markup Call
  tool_markup = record {
    find_tag = found;
    is_partial = λ s. returned false (is_partial_tool_markup_tag_prefix (r.to_lower s) s);
    sanitize = r.sanitize;
    parse = r.parse;
    equal_fold = r.equal_fold;
    trim_space = r.trim_space;
    found_within = found-within;
  }
