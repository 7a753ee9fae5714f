-- ===== src/Pow.antt =====
-- Package pow: the proof of work that the upstream asks for.
pub mod Keccak
pub mod Hash
pub mod Digits
pub mod Solve
