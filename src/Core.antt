-- ===== src/Core.antt =====
-- crates/core: the parts of the DNS server behind the matcher.
pub mod HashMap
pub mod BinarySearch
pub mod SafeSearch
pub mod Config
pub mod Server
pub mod Shadow
pub mod FailureCache
pub mod Cache
pub mod Tests
