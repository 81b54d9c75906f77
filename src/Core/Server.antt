-- ===== src/Core/Server.antt =====
-- crates/core/src/server.rs: the parts of the pipeline that keep state.
pub mod Lookups
pub mod Settle
