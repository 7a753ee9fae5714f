-- ===== src/Session.antt =====
-- Package internal/upstreamsession: the branches of upstream conversations that a request may
-- extend, and the leases on them.
pub mod Message
pub mod Match
pub mod Branch
pub mod Store
