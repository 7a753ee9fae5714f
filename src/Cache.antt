-- ===== src/Cache.antt =====
-- internal/responsecache: the entries that are kept in memory.
pub mod Entry
pub mod Memory
