-- ===== src/Examples.antt =====
-- The interfaces filled by functions on plain data, and the theorems at concrete inputs.
pub mod Memory
pub mod MemoryRedis
pub mod Texts
pub mod Applying
pub mod Pending
pub mod Issuing
pub mod Redeeming
pub mod Lookup
pub mod Servers
pub mod Sweeping
pub mod Querying
