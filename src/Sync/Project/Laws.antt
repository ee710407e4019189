-- ===== src/Sync/Project/Laws.antt =====
-- What projection keeps of a stored row, and what it takes from the observation.
use next_infra.Base.{Option, none, some, ◌≡◌, ◌≢◌, refl, arith, text_eq, ◌⊎◌}
use next_infra.Core.Ids.{ResourceId}
use next_infra.Core.Status.{Lifecycle, lifecycle_eq}
use next_infra.Core.Model.{Resource, SyncRun}
use next_infra.Normalizer.Batch.{ValidatedResource}
use next_infra.Sync.Project.{project_resource}

module _ (v : ValidatedResource) (id : ResourceId) (run : SyncRun) where
  pub resource_id-project_resource :
      (old : Option Resource) → (project_resource v id run old).resource_id ≡ id
  unfolding project_resource
  resource_id-project_resource none = refl
  resource_id-project_resource (some old) = ground arith

  -- Projecting an observation onto a stored resource revives it, keeps the time at which it was first
  -- seen and takes the time of the observation as last seen. Its time of change moves to the
  -- observation if the fingerprint differs or the stored row was not active, and stays otherwise.
  pub project_resource-times :
      (old : Resource)
      → ((project_resource v id run (some old)).lifecycle ≡ Lifecycle.active)
        × ((project_resource v id run (some old)).first_seen_at ≡ old.first_seen_at)
        × ((project_resource v id run (some old)).last_seen_at ≡ v.observed_at)
        × ((old.fingerprint ≡ v.fingerprint)
            → (old.lifecycle ≡ Lifecycle.active)
            → (project_resource v id run (some old)).last_changed_at ≡ old.last_changed_at)
        × ((old.fingerprint ≢ v.fingerprint) ⊎ (old.lifecycle ≢ Lifecycle.active)
            → (project_resource v id run (some old)).last_changed_at ≡ v.observed_at)
  unfolding project_resource
  project_resource-times old =
      (ground arith, ground arith, ground arith, λ h k. ground arith, λ h. ground arith)
