-- ===== src/Query.antt =====
-- crates/next-infra-query: bounded queries over a source of committed snapshots.
pub mod Dto
pub mod Limits
pub mod Service
mod Tests
