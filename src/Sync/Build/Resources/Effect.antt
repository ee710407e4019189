-- ===== src/Sync/Build/Resources/Effect.antt =====
-- What one observed resource adds to the draft.
use next_infra.Base.{
  Bool, true, false, [], ◌∷◌, ◌++◌, Option, ok, ◌≡◌, ap, ◌∙◌, arith, map_err, >>=-eq-ok,
  map_err-eq-ok, text_eq,
}
use next_infra.Base.Maps.{set_insert, text_ord}
use next_infra.Core.Ids.{ResourceId}
use next_infra.Core.Status.{lifecycle_eq}
use next_infra.Core.Model.{Resource, SyncRun}
use next_infra.Core.Ports.{StoreReader}
use next_infra.Normalizer.Batch.{ValidatedResource}
use next_infra.Sync.Identity.{stable_resource_id}
use next_infra.Sync.Project.Laws.{resource_id-project_resource}
use next_infra.Sync.Project.{project_resource, is_none}
use next_infra.Sync.Build.Draft.{Draft, store_error, domain_error, count_row}
use next_infra.Sync.Build.Resources.{
  record_resource, count_resource, apply_resource, observe_resource, resource_version,
  lifecycle_change,
}

-- Two drafts that differ in versions and changes at most.
pub record SameRows (d e : Draft) : Type 0 where
  pub resources : e.resources ≡ d.resources
  pub relations : e.relations ≡ d.relations
  pub counts : e.counts ≡ d.counts
  pub observed : e.observed_resource_ids ≡ d.observed_resource_ids

module _ {S E : Type 0} (reader : StoreReader S E) (store : S) (run : SyncRun) where
  record_resource-SameRows :
      (v : ValidatedResource) (r : Resource) (old : Option Resource) (versioned lifecycle : Bool)
      (d e : Draft)
      → record_resource reader store run v r old versioned lifecycle d ≡ ok e
      → SameRows d e
  unfolding record_resource
  record_resource-SameRows v r old true lifecycle d e h =
      let parts = >>=-eq-ok (resource_version reader store run v r old) _ h in
      ground (arith, parts.2)
  record_resource-SameRows v r old false true d e h =
      let parts = >>=-eq-ok (lifecycle_change reader store run v r old) _ h in
      ground (arith, parts.2)
  record_resource-SameRows v r old false false d e h = ground arith

  -- What `observe_resource` read, and what it did to the rows and the counts.
  pub record Observed (v : ValidatedResource) (d e : Draft) : Type 0 where
    pub id : ResourceId
    pub old : Option Resource
    pub identified : stable_resource_id v.key ≡ ok id
    pub read : reader.get_resource store id ≡ ok old
    pub resources : e.resources ≡ d.resources ++ project_resource v id run old ∷ []
    pub relations : e.relations ≡ d.relations
    pub observed : e.observed_resource_ids ≡ set_insert d.observed_resource_ids id
    pub updated : Bool
    pub counts : e.counts ≡ count_row (is_none old) updated d.counts

  apply_resource-rows :
      (d e : Draft) (v : ValidatedResource) (r : Resource) (old : Option Resource)
      → apply_resource reader store run d v r old ≡ ok e
      → (e.resources ≡ d.resources ++ r ∷ [])
        × SameRows (count_resource reader store run d r old) (record e { resources = d.resources })
  unfolding apply_resource
  apply_resource-rows d e v r old h =
      let (recorded, did, h₁) =
        >>=-eq-ok
          (record_resource reader store run v r old _ _ (count_resource reader store run d r old))
          (λ c. ok (record c { resources = c.resources ++ r ∷ [] })) h in
      let same =
        record_resource-SameRows v r old _ _ (count_resource reader store run d r old) recorded
          did in
      ground (arith, same)

  pub observe_resource-Observed :
      (d e : Draft) (v : ValidatedResource)
      → observe_resource reader store run d v ≡ ok e
      → Observed v d e
  unfolding observe_resource count_resource
  observe_resource-Observed d e v h =
      let (id, identified, h₁) = >>=-eq-ok (map_err domain_error (stable_resource_id v.key)) _ h in
      let row = λ (o : Option Resource). project_resource v id run o in
      let (old, read, h₂) =
        >>=-eq-ok (map_err store_error (reader.get_resource store id))
          (λ o. map_err domain_error (apply_resource reader store run d v (row o) o)) h₁ in
      let rows = apply_resource-rows d e v (row old) old (map_err-eq-ok domain_error _ h₂) in
      record {
        id = id;
        old = old;
        identified = map_err-eq-ok domain_error _ identified;
        read = map_err-eq-ok store_error _ read;
        resources = rows.0;
        relations = rows.1.relations;
        observed =
            rows.1.observed
            ∙ ap (set_insert d.observed_resource_ids) (resource_id-project_resource v id run old);
        updated = _;
        counts = rows.1.counts;
      }
