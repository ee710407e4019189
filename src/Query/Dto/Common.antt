-- ===== src/Query/Dto/Common.antt =====
-- crates/next-infra-query/src/dto/mod.rs: metadata, pages, errors and states.
use next_infra.Base.{ℕ, Bool, Option, Text}

abbrev pub SchemaVersion : Type 0
SchemaVersion = ℕ

abbrev pub query_dto_schema_version : SchemaVersion
query_dto_schema_version = 1

pub record SnapshotMetadata : Type 0 where
  pub schema_version : SchemaVersion
  pub snapshot_version : Text
  pub generated_at : Text

pub record PageInfo : Type 0 where
  pub next_cursor : Option Text

pub record ErrorEnvelope : Type 0 where
  pub schema_version : SchemaVersion
  pub code : Text
  pub message : Text
  pub retryable : Bool

pub data Lifecycle : Type 0 where
  active : Lifecycle
  tombstoned : Lifecycle
  orphaned : Lifecycle

pub data ResourceHealth : Type 0 where
  healthy : ResourceHealth
  degraded : ResourceHealth
  unhealthy : ResourceHealth
  unknown : ResourceHealth

pub data Freshness : Type 0 where
  fresh : Freshness
  stale : Freshness
  expired : Freshness

pub data ConnectorHealth : Type 0 where
  healthy : ConnectorHealth
  degraded : ConnectorHealth
  auth_failed : ConnectorHealth
  rate_limited : ConnectorHealth
  unreachable : ConnectorHealth
  disabled : ConnectorHealth

pub data EvidenceType : Type 0 where
  provider : EvidenceType
  configured : EvidenceType
  inferred : EvidenceType
