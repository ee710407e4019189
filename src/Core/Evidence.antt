-- ===== src/Core/Evidence.antt =====
-- crates/next-infra-core/src/evidence.rs
use next_infra.Base.{List, Option, none, some, ℕ_discrete}
use next_infra.Core.Ids.{
  ConnectionId, SyncRunId, FieldPath, BindingId, RuleVersion, ResourceVersionId, RelationVersionId,
  Confidence,
}

pub data EvidenceType : Type 0 where
  provider configured inferred : EvidenceType

pub data RelationEvidence : Type 0 where
  provider : ConnectionId → SyncRunId → FieldPath → RelationEvidence
  configured : BindingId → RelationEvidence
  inferred :
      RuleVersion → List ResourceVersionId → List RelationVersionId → Confidence → RelationEvidence

unfoldable pub evidence_type : RelationEvidence → EvidenceType
evidence_type (RelationEvidence.provider connection_id sync_run_id field_path) =
    EvidenceType.provider
evidence_type (RelationEvidence.configured binding_id) = EvidenceType.configured
evidence_type (RelationEvidence.inferred rule resources relations confidence) =
    EvidenceType.inferred

unfoldable pub sync_run_id : RelationEvidence → Option SyncRunId
sync_run_id (RelationEvidence.provider connection_id run field_path) = some run
sync_run_id (RelationEvidence.configured binding_id) = none
sync_run_id (RelationEvidence.inferred rule resources relations confidence) = none

unfoldable pub confidence : RelationEvidence → Option Confidence
confidence (RelationEvidence.inferred rule resources relations value) = some value
confidence (RelationEvidence.provider connection_id run field_path) = none
confidence (RelationEvidence.configured binding_id) = none

pub data OriginRef : Type 0 where
  sync_run : SyncRunId → OriginRef
  binding : BindingId → OriginRef
  inference : RuleVersion → List ResourceVersionId → List RelationVersionId → OriginRef

unfoldable pub RelationEvidence-discrete : Discrete RelationEvidence
RelationEvidence-discrete = hlevel ℕ_discrete
