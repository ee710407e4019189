-- ===== src/Core.antt =====
-- crates/next-infra-core: the domain contracts, a child for each source file, with the JSON values
-- that they are serialised to.
pub mod Error
pub mod Ids
pub mod Status
pub mod Json
pub mod Coverage
pub mod Evidence
pub mod Secret
pub mod Model
pub mod Encode
pub mod MissingEvidence
pub mod Hashing
pub mod Ports
