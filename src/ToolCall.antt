-- ===== src/ToolCall.antt =====
-- internal/toolcall: the search for the tags of tool calls in the text of a model.
pub mod Names
pub mod Scan
pub mod Partial
pub mod Interface
pub mod Plain
