-- ===== src/Inference.antt =====
-- crates/next-infra-inference/src/lib.rs: relations that rules infer from stored versions.
pub mod Candidates
pub mod Rows
pub mod Engine
mod Tests
