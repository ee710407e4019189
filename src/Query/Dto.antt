-- ===== src/Query/Dto.antt =====
-- crates/next-infra-query/src/dto/mod.rs: the data that queries answer with.
pub mod Common
pub mod Resources
pub mod Runs
pub mod Changes
pub mod Answers
