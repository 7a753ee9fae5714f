-- ===== src/Account.antt =====
-- Package internal/account: the pool of upstream accounts, their health and the session affinity.
pub mod Health
pub mod Affinity
pub mod Pool
