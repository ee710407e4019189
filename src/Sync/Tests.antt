-- ===== src/Sync/Tests.antt =====
-- A store in memory, as the tests of crates/next-infra-sync/src/engine.rs use one, and the theorems of
-- the writer and the engine at concrete inputs.
pub mod Fixture
pub mod Builds
mod Engine
mod Writer
mod Laws
