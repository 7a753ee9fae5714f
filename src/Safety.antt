-- ===== src/Safety.antt =====
-- internal/safetyllm: the cache of verdicts.
pub mod Lru
