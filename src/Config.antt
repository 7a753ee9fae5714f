-- ===== src/Config.antt =====
-- Package internal/config: the account record and its identity, and the store that finds accounts.
pub mod Mobile
pub mod Account
pub mod Store
