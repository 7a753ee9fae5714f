-- ===== src/ToolCall/Plain.antt =====
-- The sieve of internal/toolstream over the search of internal/toolcall, for text without tags.
use deep_seek_web_to_api.Sieve.Bytes.{Bytes}
