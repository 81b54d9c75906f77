-- ===== src/Core/Tests.antt =====
-- Runs of the caches, and the theorems applied to small inputs.
pub mod Failures
pub mod Responses
pub mod Slots
pub mod Searches
pub mod Configs
pub mod Misses
pub mod Answers
pub mod References
