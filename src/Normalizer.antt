-- ===== src/Normalizer.antt =====
-- crates/next-infra-normalizer/src/lib.rs
pub mod Batch
pub mod Scan
pub mod Attributes
pub mod Normalize
mod Tests
