-- ===== src/Repo.antt =====
-- crates/types: the repo state, its validation, merge, summary and delta.
pub mod State
pub mod Payload
pub mod Validate
pub mod Merge
pub mod Delta
