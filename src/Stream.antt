-- ===== src/Stream.antt =====
-- internal/stream: the loop that feeds a parsed upstream stream to a handler.
pub mod Engine
pub mod Failure
