-- ===== src/Sync.antt =====
-- crates/next-infra-sync: the writer queue and the engine that turns a batch into a commit.
pub mod Writer
pub mod Identity
pub mod Project
pub mod Changes
pub mod Guards
pub mod Build
pub mod Engine
pub mod Tests
