-- ===== src/Normalizer/Batch.antt =====
-- The data of crates/next-infra-normalizer/src/lib.rs.
use next_infra.Base.{List, Option, Text, BTreeMap}
use next_infra.Core.Ids.{
  ConnectionId, EvidenceKey, Fingerprint, LabelKey, RelationKind, ResourceKind, SchemaVersion,
  Scope, SyncCursor, SyncRunId, Timestamp,
}
use next_infra.Core.Json.{Value}
use next_infra.Core.Status.{ResourceHealth}
use next_infra.Core.Coverage.{SyncCoverage}
use next_infra.Core.Evidence.{RelationEvidence}
use next_infra.Core.Model.{ResourceKey}
use next_infra.ConnectorApi.Observation.{
  ObservationWarning, RedactionReport, ProviderRequestSummary,
}

pub record AttributeSchema : Type 0 where
  pub kind : ResourceKind
  pub schema_version : SchemaVersion
  pub allowed_attributes : List Text

pub record RelationSchema : Type 0 where
  pub kind : RelationKind
  pub source_kind : ResourceKind
  pub target_kind : ResourceKind

pub record ValidatedRelationKey : Type 0 where
  pub source : ResourceKey
  pub target : ResourceKey
  pub kind : RelationKind
  pub evidence_key : EvidenceKey

pub record ValidatedResource : Type 0 where
  pub key : ResourceKey
  pub name : Text
  pub display_name : Text
  pub scope : Scope
  pub labels : BTreeMap LabelKey Text
  pub health : ResourceHealth
  pub attributes : Value
  pub attribute_schema_version : SchemaVersion
  pub observed_at : Timestamp
  pub fingerprint : Fingerprint

pub record ValidatedRelation : Type 0 where
  pub key : ValidatedRelationKey
  pub evidence : RelationEvidence
  pub observed_at : Timestamp
  pub fingerprint : Fingerprint

pub record ValidatedBatch : Type 0 where
  pub connection_id : ConnectionId
  pub sync_run_id : SyncRunId
  pub resources : List ValidatedResource
  pub relations : List ValidatedRelation
  pub coverage : SyncCoverage
  pub next_cursor : Option SyncCursor
  pub warnings : List ObservationWarning
  pub redaction_report : RedactionReport
  pub provider_request_summary : ProviderRequestSummary
