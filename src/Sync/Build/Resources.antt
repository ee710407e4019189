-- ===== src/Sync/Build/Resources.antt =====
-- The loop of `build_commit` over the observed resources.
pub mod Effect
pub mod Loop
use next_infra.Base.{
  Bool, ◌||◌, List, [], ◌∷◌, ◌++◌, Option, text_eq, Result, ok, ◌>>=◌, map_err, if◌then◌else◌, ◌!=◌,
}
use next_infra.Base.Maps.{set_insert}
use next_infra.Base.Maps.{text_ord}
use next_infra.Core.Error.{DomainError}
use next_infra.Core.Ids.{ResourceId}
use next_infra.Core.Status.{lifecycle_eq}
use next_infra.Core.Model.{Resource, ResourceVersion, Change, SyncRun}
use next_infra.Core.Ports.{StoreReader}
use next_infra.Normalizer.Batch.{ValidatedResource}
use next_infra.Sync.Identity.{stable_resource_id, resource_version_id}
use next_infra.Sync.Project.{project_resource, is_none_or, is_some_and, is_none}
use next_infra.Sync.Changes.{resource_snapshot, resource_diff, resource_change}
use next_infra.Sync.Build.Draft.{Draft, EngineError, store_error, domain_error, count_row}

module _ {S E : Type 0} (reader : StoreReader S E) (store : S) (run : SyncRun) where
  unfoldable pub resource_version :
      ValidatedResource → Resource → Option Resource → Result DomainError (ResourceVersion × Change)
  resource_version validated resource existing = do
    summary ← resource_diff existing resource
    version_id ← resource_version_id resource.resource_id run.sync_run_id
    change ← resource_change resource existing summary run.sync_run_id validated.observed_at
    ok (
      record {
        version_id = version_id;
        resource_id = resource.resource_id;
        observed_at = validated.observed_at;
        sync_run_id = run.sync_run_id;
        normalized_snapshot = resource_snapshot resource;
        fingerprint = resource.fingerprint;
        schema_version = resource.attribute_schema_version;
        change_summary = summary;
      },
      change,
    )

  unfoldable pub lifecycle_change :
      ValidatedResource → Resource → Option Resource → Result DomainError Change
  lifecycle_change validated resource existing = do
    summary ← resource_diff existing resource
    resource_change resource existing summary run.sync_run_id validated.observed_at

  -- A new or changed resource gets a version and a change, a revived one a change.
  unfoldable pub record_resource :
      ValidatedResource
      → Resource
      → Option Resource
      → Bool
      → Bool
      → Draft
      → Result DomainError Draft
  unfolding resource_version lifecycle_change
  record_resource validated resource existing versioned lifecycle_changed draft =
      if versioned
      then (do
        (version, change) ← resource_version validated resource existing
        ok (record draft {
          resource_versions = draft.resource_versions ++ version ∷ [];
          changes = draft.changes ++ change ∷ [];
        }))
      else if lifecycle_changed
      then (do
        change ← lifecycle_change validated resource existing
        ok (record draft { changes = draft.changes ++ change ∷ [] }))
      else ok draft

  abbrev fingerprint_changed : Resource → Option Resource → Bool
  fingerprint_changed resource existing =
      is_none_or (λ old. old.fingerprint != resource.fingerprint) existing

  abbrev lifecycle_changed : Resource → Option Resource → Bool
  lifecycle_changed resource existing =
      is_some_and (λ old. old.lifecycle != resource.lifecycle) existing

  -- The body of the loop once the stored row is read: the id is noted and the row counted, a version
  -- or a change recorded, and the row kept.
  unfoldable pub count_resource : Draft → Resource → Option Resource → Draft
  count_resource draft resource existing = record draft {
    observed_resource_ids = set_insert draft.observed_resource_ids resource.resource_id;
    counts =
        count_row (is_none existing)
          (fingerprint_changed resource existing || lifecycle_changed resource existing)
          draft.counts;
  }

  unfoldable pub apply_resource :
      Draft → ValidatedResource → Resource → Option Resource → Result DomainError Draft
  unfolding record_resource count_resource
  apply_resource draft validated resource existing = do
    recorded ←
        record_resource validated resource existing
          (is_none existing || fingerprint_changed resource existing)
          (lifecycle_changed resource existing) (count_resource draft resource existing)
    ok (record recorded { resources = recorded.resources ++ resource ∷ [] })

  unfoldable pub observe_resource : Draft → ValidatedResource → Result (EngineError E) Draft
  unfolding apply_resource
  observe_resource draft validated = do
    resource_id ← map_err domain_error (stable_resource_id validated.key)
    existing ← map_err store_error (reader.get_resource store resource_id)
    map_err domain_error (
        apply_resource draft validated (project_resource validated resource_id run existing)
          existing)

  unfoldable pub observe_resources : Draft → List ValidatedResource → Result (EngineError E) Draft
  observe_resources draft [] = ok draft
  observe_resources draft (validated ∷ rest) = do
    next ← observe_resource draft validated
    observe_resources next rest
