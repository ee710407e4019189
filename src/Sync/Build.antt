-- ===== src/Sync/Build.antt =====
-- `SyncEngine::build_commit` of crates/next-infra-sync/src/engine.rs, a loop to a module. What the
-- loops collect is the record `Draft`.
pub mod Draft
pub mod Resources
pub mod Relations
pub mod Absences
pub mod Commit
