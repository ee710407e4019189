-- ===== src/Binding.antt =====
-- crates/next-infra-binding/src/lib.rs: relations that a user configures.
pub mod Input
pub mod Commit
pub mod Service
mod Tests
