-- ===== src/Filter/Tests.antt =====
-- Runs of the matcher, and the theorems applied to small lists and names.
pub mod Rules
pub mod Names
pub mod Lists
pub mod Decisions
