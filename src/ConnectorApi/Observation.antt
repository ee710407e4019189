-- ===== src/ConnectorApi/Observation.antt =====
-- crates/next-infra-connector-api/src/observation.rs
use next_infra.Base.{
  ℕ, Bool, true, false, not, List, [], ◌∷◌, Option, Text, text, BTreeMap, Result, ok, ◌>>◌,
  reject_if, ◌!=◌, nat_eq,
}
use next_infra.Core.Error.{ErrorCode, DomainError, invalid_value}
use next_infra.Core.Ids.{
  ConnectionId, ConnectorType, EvidenceKey, ExternalId, FieldPath, LabelKey, RelationKind,
  ResourceKind, SchemaVersion, Scope, SyncCursor, SyncRunId, Timestamp,
}
use next_infra.Core.Json.{Value}
use next_infra.Core.Status.{SyncMode, ResourceHealth}
use next_infra.Core.Coverage.{SyncCoverage}

pub record ConnectionInput : Type 0 where
  pub connection_id : ConnectionId
  pub connector_type : ConnectorType
  pub config : Value
  pub config_schema_version : SchemaVersion

pub data ValidationStatus : Type 0 where
  valid invalid : ValidationStatus

pub record ValidationIssue : Type 0 where
  pub code : ErrorCode
  pub message : Text

pub record ValidationReport : Type 0 where
  pub status : ValidationStatus
  pub warnings : List ValidationIssue
  pub errors : List ValidationIssue

abbrev no_issues : List ValidationIssue → Bool
no_issues [] = true
no_issues (issue ∷ issues) = false

abbrev coherent : ValidationStatus → List ValidationIssue → Bool
coherent ValidationStatus.valid errors = no_issues errors
coherent ValidationStatus.invalid errors = not (no_issues errors)

unfoldable pub validate_report : ValidationReport → Result DomainError (Unit {0})
validate_report report =
    reject_if (not (coherent report.status report.errors))
      (invalid_value (text "validation status and errors disagree"))

pub record ResourceLocator : Type 0 where
  pub kind : ResourceKind
  pub external_id : ExternalId

pub record SyncRequest : Type 0 where
  pub sync_run_id : SyncRunId
  pub connection : ConnectionInput
  pub mode : SyncMode
  pub scope : Scope
  pub cursor : Option SyncCursor
  pub targeted_resources : List ResourceLocator

-- The table of modes and coverages that `accepts_coverage` and the engine's `validate_coverage` share.
unfoldable pub compatible : SyncMode → SyncCoverage → Bool
compatible SyncMode.full (SyncCoverage.authoritative_full scope) = true
compatible SyncMode.full (SyncCoverage.partial scope reason) = true
compatible SyncMode.incremental (SyncCoverage.incremental cursor) = true
compatible SyncMode.incremental (SyncCoverage.partial scope reason) = true
compatible SyncMode.targeted (SyncCoverage.targeted resource_ids) = true
compatible SyncMode.targeted (SyncCoverage.partial scope reason) = true
compatible _ _ = false

unfoldable pub accepts_coverage : SyncRequest → SyncCoverage → Bool
unfolding compatible
accepts_coverage request coverage = compatible request.mode coverage

pub record ResourceObservation : Type 0 where
  pub kind : ResourceKind
  pub external_id : ExternalId
  pub name : Text
  pub display_name : Text
  pub scope : Scope
  pub labels : BTreeMap LabelKey Text
  pub health : ResourceHealth
  pub attributes : Value
  pub attribute_schema_version : SchemaVersion
  pub observed_at : Timestamp

pub record RelationObservation : Type 0 where
  pub source : ResourceLocator
  pub target : ResourceLocator
  pub kind : RelationKind
  pub evidence_key : EvidenceKey
  pub field_path : FieldPath
  pub observed_at : Timestamp

pub record RedactionReport : Type 0 where
  pub removed_fields : ℕ
  pub unknown_fields_dropped : ℕ
  pub secret_sentinels_detected : ℕ

pub record ProviderRequestSummary : Type 0 where
  pub request_count : ℕ
  pub elapsed_ms : ℕ
  pub status_class_counts : BTreeMap Text ℕ

pub record ObservationWarning : Type 0 where
  pub code : ErrorCode
  pub message : Text

pub record ObservationBatch : Type 0 where
  pub resources : List ResourceObservation
  pub relations : List RelationObservation
  pub coverage : SyncCoverage
  pub next_cursor : Option SyncCursor
  pub warnings : List ObservationWarning
  pub redaction_report : RedactionReport
  pub provider_request_summary : ProviderRequestSummary

unfoldable pub validate_for : ObservationBatch → SyncRequest → Result DomainError (Unit {0})
unfolding accepts_coverage
validate_for batch request = do
  reject_if (not (accepts_coverage request batch.coverage))
      (invalid_value (text "observation coverage is incompatible with sync mode"))
  reject_if (batch.redaction_report.secret_sentinels_detected != 0)
      (invalid_value (text "observation batch contains a secret sentinel"))
  ok tt
