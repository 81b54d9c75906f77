-- ===== src/Filter.antt =====
-- crates/filter: the rule parser and the compiled matcher.
pub mod Glob
pub mod Labels
pub mod Wildcard
pub mod Index
pub mod Types
pub mod Domain
pub mod Spaces
pub mod Parse
pub mod Store
pub mod Engine
pub mod Verdict
pub mod Tests
