-- ===== src/Runtime.antt =====
-- crates/next-infra-runtime/src/lib.rs: the scheduler and the life of the control plane's runtime.
pub mod Scheduler
pub mod Machine
pub mod Sqlite
mod Tests
