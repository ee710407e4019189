-- ===== src/Sync/Project.antt =====
-- How crates/next-infra-sync/src/engine.rs projects validated facts onto stored rows.
pub mod Laws
use next_infra.Base.{ℕ, Bool, true, false, ◌||◌, Option, none, some, if◌then◌else◌, ◌!=◌, text_eq}
use next_infra.Core.Ids.{ResourceId, RelationId, Timestamp}
use next_infra.Core.Status.{Lifecycle, lifecycle_eq}
use next_infra.Core.Model.{Resource, Relation, SyncRun}
use next_infra.Normalizer.Batch.{ValidatedResource, ValidatedRelation}

-- `Option::map_or`, `is_none_or`, `is_some_and`, `is_none`.
abbrev pub map_or {ℓ κ} : {A : Type ℓ} {B : Type κ} → B → (A → B) → Option A → B
map_or b f none = b
map_or b f (some a) = f a

abbrev pub is_none_or {ℓ} : {A : Type ℓ} → (A → Bool) → Option A → Bool
is_none_or p o = map_or true p o

abbrev pub is_some_and {ℓ} : {A : Type ℓ} → (A → Bool) → Option A → Bool
is_some_and p o = map_or false p o

abbrev pub is_none {ℓ} : {A : Type ℓ} → Option A → Bool
is_none o = map_or true (λ a. false) o

unfoldable pub project_resource :
    ValidatedResource → ResourceId → SyncRun → Option Resource → Resource
project_resource validated resource_id run existing =
    if is_none_or
      (λ old. (old.fingerprint != resource.fingerprint) || (old.lifecycle != Lifecycle.active))
      existing
    then record resource { last_changed_at = validated.observed_at }
    else resource
  where
    resource : Resource
    resource = record {
      resource_id = resource_id;
      connection_id = validated.key.connection_id;
      kind = validated.key.kind;
      external_id = validated.key.external_id;
      name = validated.name;
      display_name = validated.display_name;
      scope = validated.scope;
      labels = validated.labels;
      lifecycle = Lifecycle.active;
      health = validated.health;
      attributes = validated.attributes;
      attribute_schema_version = validated.attribute_schema_version;
      fingerprint = validated.fingerprint;
      first_seen_at = map_or validated.observed_at (λ old. old.first_seen_at) existing;
      last_seen_at = validated.observed_at;
      last_changed_at = map_or validated.observed_at (λ old. old.last_changed_at) existing;
      last_sync_run_id = run.sync_run_id;
    }

unfoldable pub project_relation :
    ValidatedRelation → RelationId → ResourceId → ResourceId → Option Relation → Relation
project_relation validated relation_id source target existing = record {
  relation_id = relation_id;
  source_resource_id = source;
  target_resource_id = target;
  kind = validated.key.kind;
  evidence_key = validated.key.evidence_key;
  evidence = validated.evidence;
  first_seen_at = map_or validated.observed_at (λ old. old.first_seen_at) existing;
  last_seen_at = validated.observed_at;
  lifecycle = Lifecycle.active;
}

unfoldable pub tombstone_resource : Resource → SyncRun → Timestamp → Resource
tombstone_resource existing run at = record existing {
  lifecycle = Lifecycle.tombstoned;
  last_changed_at = at;
  last_sync_run_id = run.sync_run_id;
}
