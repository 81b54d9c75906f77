-- ===== src/Core/Cache.antt =====
-- crates/core/src/cache.rs: cached responses and how long they are served.
pub mod Entry
pub mod Freshness
pub mod Slab
pub mod Client
