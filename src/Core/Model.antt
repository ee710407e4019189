-- ===== src/Core/Model.antt =====
-- crates/next-infra-core/src/model.rs
use next_infra.Base.{ℕ, Bool, List, Option, Text, Eq, BTreeMap, ℕ_discrete}
use next_infra.Core.Error.{ErrorCode, DomainError}
use next_infra.Core.Ids.{
  ConnectionId, ResourceId, ResourceVersionId, RelationId, RelationVersionId, BindingId,
  InferenceRunId, SyncRunId, ChangeId, ExternalId, Scope, Fingerprint, EvidenceKey, FieldPath,
  RuleVersion, SyncCursor, ConnectorType, ResourceKind, RelationKind, LabelKey, SchemaVersion,
  Timestamp,
}
use next_infra.Core.Status.{
  Lifecycle, ResourceHealth, ConnectorHealth, SyncMode, SyncTrigger, SyncRunStatus, BindingStatus,
  InferenceRunStatus,
}
use next_infra.Core.Json.{Value}
use next_infra.Core.Coverage.{SyncCoverage}
use next_infra.Core.Evidence.{
  EvidenceType, RelationEvidence, OriginRef, evidence_type, RelationEvidence-discrete,
}
use next_infra.Core.Evidence
use next_infra.Core.Secret.{SecretRef}

pub record ResourceKey : Type 0 where
  pub connection_id : ConnectionId
  pub kind : ResourceKind
  pub external_id : ExternalId

pub record RelationKey : Type 0 where
  pub source_resource_id : ResourceId
  pub target_resource_id : ResourceId
  pub kind : RelationKind
  pub evidence_type : EvidenceType
  pub evidence_key : EvidenceKey

pub record Connection : Type 0 where
  pub connection_id : ConnectionId
  pub connector_type : ConnectorType
  pub display_name : Text
  pub enabled : Bool
  pub config : Value
  pub secret_ref : Option SecretRef
  pub health : ConnectorHealth
  pub last_success_at : Option Timestamp
  pub last_attempt_at : Option Timestamp
  pub config_schema_version : SchemaVersion
  pub deleted_at : Option Timestamp

pub record Resource : Type 0 where
  pub resource_id : ResourceId
  pub connection_id : ConnectionId
  pub kind : ResourceKind
  pub external_id : ExternalId
  pub name : Text
  pub display_name : Text
  pub scope : Scope
  pub labels : BTreeMap LabelKey Text
  pub lifecycle : Lifecycle
  pub health : ResourceHealth
  pub attributes : Value
  pub attribute_schema_version : SchemaVersion
  pub fingerprint : Fingerprint
  pub first_seen_at : Timestamp
  pub last_seen_at : Timestamp
  pub last_changed_at : Timestamp
  pub last_sync_run_id : SyncRunId

unfoldable pub resource_key : Resource → ResourceKey
resource_key r = record {
  connection_id = r.connection_id;
  kind = r.kind;
  external_id = r.external_id;
}

pub record FieldChange : Type 0 where
  pub path : FieldPath
  pub before : Option Value
  pub after : Option Value

pub record ResourceVersion : Type 0 where
  pub version_id : ResourceVersionId
  pub resource_id : ResourceId
  pub observed_at : Timestamp
  pub sync_run_id : SyncRunId
  pub normalized_snapshot : Value
  pub fingerprint : Fingerprint
  pub schema_version : SchemaVersion
  pub change_summary : List FieldChange

pub record Relation : Type 0 where
  pub relation_id : RelationId
  pub source_resource_id : ResourceId
  pub target_resource_id : ResourceId
  pub kind : RelationKind
  pub evidence_key : EvidenceKey
  pub evidence : RelationEvidence
  pub first_seen_at : Timestamp
  pub last_seen_at : Timestamp
  pub lifecycle : Lifecycle

unfoldable pub relation_key : Relation → RelationKey
relation_key r = record {
  source_resource_id = r.source_resource_id;
  target_resource_id = r.target_resource_id;
  kind = r.kind;
  evidence_type = evidence_type r.evidence;
  evidence_key = r.evidence_key;
}

unfoldable pub relation_last_sync_run_id : Relation → Option SyncRunId
unfolding Evidence.sync_run_id
relation_last_sync_run_id r = Evidence.sync_run_id r.evidence

pub record RelationVersion : Type 0 where
  pub relation_version_id : RelationVersionId
  pub relation_id : RelationId
  pub observed_at : Timestamp
  pub normalized_snapshot : Value
  pub fingerprint : Fingerprint
  pub schema_version : SchemaVersion
  pub origin : OriginRef

pub record Binding : Type 0 where
  pub binding_id : BindingId
  pub source_resource_id : ResourceId
  pub target_resource_id : ResourceId
  pub kind : RelationKind
  pub status : BindingStatus
  pub created_at : Timestamp
  pub updated_at : Timestamp

pub record InferenceRun : Type 0 where
  pub inference_run_id : InferenceRunId
  pub rule_version : RuleVersion
  pub started_at : Timestamp
  pub finished_at : Option Timestamp
  pub status : InferenceRunStatus
  pub input_resource_version_ids : List ResourceVersionId
  pub input_relation_version_ids : List RelationVersionId
  pub output_relation_ids : List RelationId

-- The counts are `u64`.
pub record SyncRunCounts : Type 0 where
  pub read : ℕ
  pub created : ℕ
  pub updated : ℕ
  pub unchanged : ℕ
  pub warnings : ℕ

pub record SyncRunWarning : Type 0 where
  pub code : ErrorCode
  pub message : Text

pub record SyncRun : Type 0 where
  pub sync_run_id : SyncRunId
  pub connection_id : ConnectionId
  pub mode : SyncMode
  pub trigger : SyncTrigger
  pub started_at : Timestamp
  pub finished_at : Option Timestamp
  pub status : SyncRunStatus
  pub coverage : SyncCoverage
  pub cursor_before : Option SyncCursor
  pub cursor_after : Option SyncCursor
  pub counts : SyncRunCounts
  pub errors : List DomainError
  pub warnings : List SyncRunWarning

pub data ChangeSubject : Type 0 where
  resource : ResourceId → ChangeSubject
  relation : RelationId → ChangeSubject
  binding : BindingId → ChangeSubject

pub record Change : Type 0 where
  pub change_id : ChangeId
  pub subject : ChangeSubject
  pub observed_at : Timestamp
  pub fields : List FieldChange
  pub origin : OriginRef

unfoldable pub Binding-discrete : Discrete Binding
Binding-discrete = hlevel ℕ_discrete

unfoldable pub Relation-discrete : Discrete Relation
Relation-discrete = hlevel ℕ_discrete

instance abbrev pub binding_eq : Eq Binding
binding_eq = record { decides = Binding-discrete }

instance abbrev pub relation_eq : Eq Relation
relation_eq = record { decides = Relation-discrete }
