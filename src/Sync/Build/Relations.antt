-- ===== src/Sync/Build/Relations.antt =====
-- The loop of `build_commit` over the observed relations.
pub mod Effect
pub mod Loop
use next_infra.Base.{
  Bool, ◌||◌, List, [], ◌∷◌, ◌++◌, Option, text_eq, contains, Result, ok, ◌>>=◌, ◌>>◌, map_err,
  reject_if, if◌then◌else◌, ◌!=◌,
}
use next_infra.Base.Maps.{text_ord}
use next_infra.Core.Error.{DomainError}
use next_infra.Core.Ids.{ResourceId}
use next_infra.Core.Ids.{Fingerprint, RelationId}
use next_infra.Core.Status.{lifecycle_eq}
use next_infra.Core.Evidence.{OriginRef}
use next_infra.Core.Model.{Relation, RelationVersion, Change, SyncRun}
use next_infra.Core.Ports.{StoreReader}
use next_infra.Normalizer.Batch.{ValidatedRelation}
use next_infra.Sync.Identity.{
  stable_resource_id, stable_relation_id, relation_version_id, next_schema_version,
}
use next_infra.Sync.Project.{project_relation, is_none_or, is_some_and, is_none}
use next_infra.Sync.Changes.{relation_snapshot, relation_diff, relation_change}
use next_infra.Sync.Build.Draft.{
  Draft, EngineError, store_error, domain_error, missing_resource, count_row,
}

module _ {S E : Type 0} (reader : StoreReader S E) (store : S) (run : SyncRun) where
  unfoldable pub ensure_relation_endpoint :
      List ResourceId → ResourceId → Result (EngineError E) (Unit {0})
  ensure_relation_endpoint planned id = if contains planned id then ok tt else (do
    found ← map_err store_error (reader.get_resource store id)
    reject_if (is_none found) (missing_resource id))

  unfoldable pub relation_version :
      ValidatedRelation → Relation → Option Relation → Result DomainError (RelationVersion × Change)
  relation_version validated relation existing = do
    summary ← relation_diff existing relation
    version_id ← relation_version_id relation.relation_id run.sync_run_id
    schema ← next_schema_version
    change ← relation_change relation existing summary run.sync_run_id validated.observed_at
    ok (
      record {
        relation_version_id = version_id;
        relation_id = relation.relation_id;
        observed_at = validated.observed_at;
        normalized_snapshot = relation_snapshot relation;
        fingerprint = validated.fingerprint;
        schema_version = schema;
        origin = OriginRef.sync_run run.sync_run_id;
      },
      change,
    )

  unfoldable pub relation_lifecycle_change :
      ValidatedRelation → Relation → Option Relation → Result DomainError Change
  relation_lifecycle_change validated relation existing = do
    summary ← relation_diff existing relation
    relation_change relation existing summary run.sync_run_id validated.observed_at

  unfoldable pub record_relation :
      ValidatedRelation
      → Relation
      → Option Relation
      → Bool
      → Bool
      → Draft
      → Result DomainError Draft
  unfolding relation_version relation_lifecycle_change
  record_relation validated relation existing versioned lifecycle_changed draft =
      if versioned
      then (do
        (version, change) ← relation_version validated relation existing
        ok (record draft {
          relation_versions = draft.relation_versions ++ version ∷ [];
          changes = draft.changes ++ change ∷ [];
        }))
      else if lifecycle_changed
      then (do
        change ← relation_lifecycle_change validated relation existing
        ok (record draft { changes = draft.changes ++ change ∷ [] }))
      else ok draft

  -- The version that is stored last decides whether the relation changed.
  abbrev fingerprint_changed : ValidatedRelation → Option Fingerprint → Option Relation → Bool
  fingerprint_changed validated latest existing =
      is_none_or (λ old. is_none_or (λ previous. previous != validated.fingerprint) latest) existing

  abbrev lifecycle_changed : Relation → Option Relation → Bool
  lifecycle_changed relation existing =
      is_some_and (λ old. old.lifecycle != relation.lifecycle) existing

  -- The body of the loop once the stored rows are read.
  unfoldable pub count_relation :
      Draft → ValidatedRelation → Relation → Option Fingerprint → Option Relation → Draft
  count_relation draft validated relation latest existing = record draft {
    counts =
        count_row (is_none existing)
          (fingerprint_changed validated latest existing || lifecycle_changed relation existing)
          draft.counts;
  }

  unfoldable pub apply_relation :
      Draft
      → ValidatedRelation
      → Relation
      → Option Fingerprint
      → Option Relation
      → Result DomainError Draft
  unfolding record_relation count_relation
  apply_relation draft validated relation latest existing = do
    recorded ←
        record_relation validated relation existing
          (is_none existing || fingerprint_changed validated latest existing)
          (lifecycle_changed relation existing)
          (count_relation draft validated relation latest existing)
    ok (record recorded { relations = recorded.relations ++ relation ∷ [] })

  -- From the identifiers on: the endpoints are checked, the stored rows read, the relation applied.
  unfoldable pub read_and_apply :
      Draft
      → ValidatedRelation
      → RelationId
      → ResourceId
      → ResourceId
      → Result (EngineError E) Draft
  unfolding apply_relation
  read_and_apply draft validated relation_id source_id target_id = do
    existing ← map_err store_error (reader.get_relation store relation_id)
    latest ← map_err store_error (reader.latest_relation_version_fingerprint store relation_id)
    map_err domain_error (
        apply_relation draft validated
          (project_relation validated relation_id source_id target_id existing) latest existing)

  unfoldable pub check_and_apply :
      Draft
      → ValidatedRelation
      → RelationId
      → ResourceId
      → ResourceId
      → Result (EngineError E) Draft
  unfolding ensure_relation_endpoint read_and_apply
  check_and_apply draft validated relation_id source_id target_id = do
    ensure_relation_endpoint draft.observed_resource_ids source_id
    ensure_relation_endpoint draft.observed_resource_ids target_id
    read_and_apply draft validated relation_id source_id target_id

  unfoldable pub observe_relation : Draft → ValidatedRelation → Result (EngineError E) Draft
  unfolding check_and_apply
  observe_relation draft validated = do
    relation_id ← map_err domain_error (stable_relation_id validated.key)
    source_id ← map_err domain_error (stable_resource_id validated.key.source)
    target_id ← map_err domain_error (stable_resource_id validated.key.target)
    check_and_apply draft validated relation_id source_id target_id

  unfoldable pub observe_relations : Draft → List ValidatedRelation → Result (EngineError E) Draft
  observe_relations draft [] = ok draft
  observe_relations draft (validated ∷ rest) = do
    next ← observe_relation draft validated
    observe_relations next rest
