-- ===== src/Tests.antt =====
-- Examples on small inputs, which are also those of the repository's own tests where it has such.
pub mod AuthTests
pub mod CacheTests
pub mod ConfigTests
pub mod PoolTests
pub mod PowTests
pub mod SafetyTests
pub mod SessionTests
pub mod SieveTests
pub mod StreamTests
pub mod ToolCallTests
pub mod VersionTests
