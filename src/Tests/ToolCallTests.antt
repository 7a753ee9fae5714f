-- ===== src/Tests/ToolCallTests.antt =====
-- Examples for internal/toolcall. A Kelvin sign is the three bytes E2 84 AA; its lower case is one.
use deep_seek_web_to_api.Prelude.{◌≤◌, ◌≡◌, ◌≢◌, refl, false, none, [], ◌∷◌, arith}
use deep_seek_web_to_api.Prelude.Text.{codes}
use deep_seek_web_to_api.Sieve.Bytes.{Bytes}
use deep_seek_web_to_api.Sieve.Markup.{Tag}
use deep_seek_web_to_api.ToolCall.Scan.{find_from, find_tool_markup_tag}
use deep_seek_web_to_api.ToolCall.Scan.Within.{StandsAt, find_tool_markup_tag-within}
use deep_seek_web_to_api.ToolCall.Scan.Total.{find_tool_markup_tag-total}
use deep_seek_web_to_api.ToolCall.Scan.Panic.{find_tool_markup_tag-panics}

abbrev same : Bytes → Bytes
same s = s

abbrev kelvin : Bytes
kelvin = 0xe2 ∷ 0x84 ∷ 0xaa ∷ []

abbrev wrapper : Tag
wrapper = record {
  start = 1;
  end = 12;
  name_start = 2;
  name_end = 12;
  name = "tool_calls";
  closing = false;
  self_closing = false;
  dsml_like = false;
}

find_tool_markup_tag-within_example : (0 ≤ 1) × StandsAt 1 (codes "a<tool_calls>") wrapper
unfolding find_tool_markup_tag find_from deep_seek_web_to_api.ToolCall.Scan.skip_ignored_section
    deep_seek_web_to_api.ToolCall.Scan.cdata_opener_len_at
    deep_seek_web_to_api.Sieve.Bytes.has_prefix deep_seek_web_to_api.ToolCall.Names.tail
    deep_seek_web_to_api.ToolCall.Scan.scan_tag_at deep_seek_web_to_api.ToolCall.Scan.leading
    deep_seek_web_to_api.ToolCall.Scan.scan_name
    deep_seek_web_to_api.ToolCall.Names.consume_name_prefix
    deep_seek_web_to_api.ToolCall.Names.consume_once
    deep_seek_web_to_api.ToolCall.Names.consume_pipe
    deep_seek_web_to_api.ToolCall.Names.consume_space_separator
    deep_seek_web_to_api.ToolCall.Names.consume_last
    deep_seek_web_to_api.ToolCall.Names.consume_hyphen_separator
    deep_seek_web_to_api.ToolCall.Names.match_name deep_seek_web_to_api.ToolCall.Scan.finish_tag
    deep_seek_web_to_api.ToolCall.Scan.consume_pipes deep_seek_web_to_api.ToolCall.Scan.end_of_tag
    deep_seek_web_to_api.ToolCall.Scan.has_boundary deep_seek_web_to_api.ToolCall.Scan.tag_end_from
find_tool_markup_tag-within_example =
    find_tool_markup_tag-within same (codes "a<tool_calls>") (codes "a<tool_calls>") 0 wrapper refl

find_tool_markup_tag-total_example : find_tool_markup_tag same (codes "a<k") (codes "A<K") 0 ≢ none
find_tool_markup_tag-total_example =
    find_tool_markup_tag-total same (codes "a<k") (codes "A<K") 0 refl

find_tool_markup_tag-panics_example : find_tool_markup_tag same (b'k' ∷ []) kelvin 0 ≡ none
unfolding deep_seek_web_to_api.Sieve.Bytes.contains_byte
find_tool_markup_tag-panics_example =
    find_tool_markup_tag-panics same (b'k' ∷ []) kelvin 0 refl refl (omega arith) (omega arith)
