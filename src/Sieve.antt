-- ===== src/Sieve.antt =====
-- Package internal/toolstream: the sieve that takes tool calls out of streamed text.
pub mod Bytes
pub mod Fence
pub mod Markup
pub mod Subsequence
pub mod Capture
pub mod Loop
