-- ===== src/Core/Ports.antt =====
-- crates/next-infra-core/src/ports.rs: commits, and the store traits as records of operations on a
-- store of type `S` with errors `E`. A method on `&mut self` returns the store that it leaves.
use next_infra.Base.{ℕ, Bool, List, Option, Result}
use next_infra.Core.Ids.{
  ConnectionId, ResourceId, RelationId, SyncRunId, Scope, Fingerprint, SyncCursor, Timestamp,
  BindingId, ResourceVersionId, RelationVersionId, RuleVersion,
}
use next_infra.Core.Model.{
  Connection, Resource, ResourceVersion, Relation, RelationVersion, Binding, InferenceRun, SyncRun,
  Change,
}
use next_infra.Core.MissingEvidence.{MissingEvidenceState}

pub record SyncCommit : Type 0 where
  pub sync_run : SyncRun
  pub resources : List Resource
  pub resource_versions : List ResourceVersion
  pub relations : List Relation
  pub relation_versions : List RelationVersion
  pub changes : List Change
  pub cursor_after : Option SyncCursor
  pub missing_evidence : Option MissingEvidenceState

pub record BindingCommit : Type 0 where
  pub binding : Binding
  pub relations : List Relation
  pub relation_versions : List RelationVersion
  pub changes : List Change

pub record InferenceCommit : Type 0 where
  pub run : InferenceRun
  pub relations : List Relation
  pub relation_versions : List RelationVersion
  pub changes : List Change

pub record CommitResult : Type 0 where
  pub resources_written : ℕ
  pub resource_versions_written : ℕ
  pub relations_written : ℕ
  pub relation_versions_written : ℕ
  pub changes_written : ℕ

pub record StoreReader (S E : Type 0) : Type 0 where
  pub get_connection : S → ConnectionId → Result E (Option Connection)
  pub get_resource : S → ResourceId → Result E (Option Resource)
  pub get_relation : S → RelationId → Result E (Option Relation)
  pub latest_relation_version_fingerprint : S → RelationId → Result E (Option Fingerprint)
  pub get_sync_run : S → SyncRunId → Result E (Option SyncRun)
  pub sync_cursor : S → ConnectionId → Result E (Option SyncCursor)
  pub list_resources_for_scope : S → ConnectionId → Scope → Result E (List Resource)
  pub missing_evidence_state : S → ConnectionId → Scope → Result E (Option MissingEvidenceState)

pub record StoreWriter (S E : Type 0) : Type 0 where
  pub upsert_connection : S → Connection → Result E (Unit {0}) × S
  pub start_sync_run : S → SyncRun → Result E (Unit {0}) × S
  pub commit_sync : S → SyncCommit → Result E CommitResult × S
  pub mark_running_syncs_interrupted : S → Timestamp → Result E ℕ × S

pub record BindingStore (S E : Type 0) : Type 0 where
  pub reader : StoreReader S E
  pub get_binding : S → BindingId → Result E (Option Binding)
  pub list_bindings : S → Result E (List Binding)
  pub commit_binding : S → BindingCommit → Result E (Unit {0}) × S

pub record InferenceStore (S E : Type 0) : Type 0 where
  pub reader : StoreReader S E
  pub resource_version_exists : S → ResourceVersionId → Result E Bool
  pub relation_version_exists : S → RelationVersionId → Result E Bool
  pub inferred_relations_for_rule : S → RuleVersion → Result E (List Relation)
  pub commit_inference : S → InferenceCommit → Result E (Unit {0}) × S
