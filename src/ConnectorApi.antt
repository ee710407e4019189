-- ===== src/ConnectorApi.antt =====
-- crates/next-infra-connector-api: what a connector is asked, and what it observes.
pub mod Observation
