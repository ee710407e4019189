-- ===== src/Sync/Build/Relations/Effect.antt =====
-- What one observed relation adds to the draft, and that its endpoints are known.
use next_infra.Base.{
  Bool, true, false, [], ◌∷◌, ◌++◌, Option, none, some, ok, ◌≡◌, arith, map_err, >>=-eq-ok,
  map_err-eq-ok, text_eq, Bool-cases, inl, inr, ◌>>=◌, contains, ◌⊎◌, reject_if,
}
use next_infra.Core.Ids.{ResourceId, RelationId, Fingerprint}
use next_infra.Core.Model.{Resource, Relation, SyncRun}
use next_infra.Core.Ports.{StoreReader}
use next_infra.Normalizer.Batch.{ValidatedRelation}
use next_infra.Sync.Identity.{stable_resource_id, stable_relation_id}
use next_infra.Sync.Project.{project_relation, is_none}
use next_infra.Sync.Build.Draft.{
  Draft, EngineError, store_error, domain_error, count_row, missing_resource,
}
use next_infra.Sync.Build.Resources.Effect.{SameRows}
use next_infra.Sync.Build.Relations.{
  record_relation, count_relation, apply_relation, read_and_apply, check_and_apply,
  observe_relation, relation_version, relation_lifecycle_change, ensure_relation_endpoint,
}

module _ {S E : Type 0} (reader : StoreReader S E) (store : S) (run : SyncRun) where
  record_relation-SameRows :
      (v : ValidatedRelation) (r : Relation) (old : Option Relation) (versioned lifecycle : Bool)
      (d e : Draft)
      → record_relation reader store run v r old versioned lifecycle d ≡ ok e
      → SameRows d e
  unfolding record_relation
  record_relation-SameRows v r old true lifecycle d e h =
      let parts = >>=-eq-ok (relation_version reader store run v r old) _ h in
      ground (arith, parts.2)
  record_relation-SameRows v r old false true d e h =
      let parts = >>=-eq-ok (relation_lifecycle_change reader store run v r old) _ h in
      ground (arith, parts.2)
  record_relation-SameRows v r old false false d e h = ground arith

  apply_relation-rows :
      (d e : Draft) (v : ValidatedRelation) (r : Relation) (latest : Option Fingerprint)
      (old : Option Relation)
      → apply_relation reader store run d v r latest old ≡ ok e
      → (e.relations ≡ d.relations ++ r ∷ [])
        × SameRows
            (count_relation reader store run d v r latest old)
            (record e { relations = d.relations })
  unfolding apply_relation
  apply_relation-rows d e v r latest old h =
      let (recorded, did, h₁) =
        >>=-eq-ok
          (record_relation reader store run v r old _ _
            (count_relation reader store run d v r latest old))
          (λ c. ok (record c { relations = c.relations ++ r ∷ [] })) h in
      let same =
        record_relation-SameRows v r old _ _ (count_relation reader store run d v r latest old)
          recorded did in
      ground (arith, same)

  -- An endpoint is among the resources of this batch, or is stored.
  abbrev pub Known : Draft → ResourceId → Type 0
  Known d id =
      (contains d.observed_resource_ids id ≡ true)
      ⊎ ((r : Resource) × (reader.get_resource store id ≡ ok (some r)))

  stored_resource :
      (id : ResourceId) (found : Option Resource)
      → reader.get_resource store id ≡ ok found
      → reject_if {E = EngineError E} (is_none found) (missing_resource id) ≡ ok tt
      → (r : Resource) × (reader.get_resource store id ≡ ok (some r))
  stored_resource id none read h = cc
  stored_resource id (some r) read h = (r, read)

  ensure_relation_endpoint-Known :
      (d : Draft) (id : ResourceId)
      → ensure_relation_endpoint reader store run d.observed_resource_ids id ≡ ok tt
      → Known d id
  unfolding ensure_relation_endpoint
  ensure_relation_endpoint-Known d id h = elim (Bool-cases (contains d.observed_resource_ids id)) [
    | inl planned ↦ inl planned
    | inr other ↦
        let (found, read, h₁) =
          >>=-eq-ok (map_err store_error (reader.get_resource store id)) _
            (rw (other, ensure_relation_endpoint) at h) in
        inr (stored_resource id found (map_err-eq-ok store_error _ read) h₁)
  ]

  -- What `observe_relation` read, and what it did to the rows and the counts.
  pub record Related (v : ValidatedRelation) (d e : Draft) : Type 0 where
    pub id : RelationId
    pub source : ResourceId
    pub target : ResourceId
    pub old : Option Relation
    pub identified : stable_relation_id v.key ≡ ok id
    pub source_identified : stable_resource_id v.key.source ≡ ok source
    pub target_identified : stable_resource_id v.key.target ≡ ok target
    pub source_known : Known d source
    pub target_known : Known d target
    pub read : reader.get_relation store id ≡ ok old
    pub relations : e.relations ≡ d.relations ++ project_relation v id source target old ∷ []
    pub resources : e.resources ≡ d.resources
    pub observed : e.observed_resource_ids ≡ d.observed_resource_ids
    pub updated : Bool
    pub counts : e.counts ≡ count_row (is_none old) updated d.counts

  read_and_apply-eq-ok :
      (d e : Draft) (v : ValidatedRelation) (id : RelationId) (source target : ResourceId)
      → read_and_apply reader store run d v id source target ≡ ok e
      → (old : Option Relation) × (latest : Option Fingerprint) × (reader.get_relation store id
          ≡ ok old)
        × (apply_relation reader store run d v (project_relation v id source target old) latest old
            ≡ ok e)
  unfolding read_and_apply
  read_and_apply-eq-ok d e v id source target h =
      let (old, read, h₁) = >>=-eq-ok (map_err store_error (reader.get_relation store id)) _ h in
      let (latest, known, h₂) =
        >>=-eq-ok (map_err store_error (reader.latest_relation_version_fingerprint store id))
          (λ l.
            map_err domain_error
              (apply_relation reader store run d v (project_relation v id source target old) l old))
          h₁ in
      (old, latest, map_err-eq-ok store_error _ read, map_err-eq-ok domain_error _ h₂)

  check_and_apply-eq-ok :
      (d e : Draft) (v : ValidatedRelation) (id : RelationId) (source target : ResourceId)
      → check_and_apply reader store run d v id source target ≡ ok e
      → Known d source
        × Known d target
        × (read_and_apply reader store run d v id source target ≡ ok e)
  unfolding check_and_apply
  check_and_apply-eq-ok d e v id source target h =
      let (_, at_source, h₁) =
        >>=-eq-ok (ensure_relation_endpoint reader store run d.observed_resource_ids source) _ h in
      let (_, at_target, h₂) =
        >>=-eq-ok (ensure_relation_endpoint reader store run d.observed_resource_ids target)
          (λ _. read_and_apply reader store run d v id source target) h₁ in
      (
        ensure_relation_endpoint-Known d source at_source,
        ensure_relation_endpoint-Known d target at_target,
        h₂,
      )

  check_and_apply-Related :
      (d e : Draft) (v : ValidatedRelation) (id : RelationId) (source target : ResourceId)
      → stable_relation_id v.key ≡ ok id
      → stable_resource_id v.key.source ≡ ok source
      → stable_resource_id v.key.target ≡ ok target
      → check_and_apply reader store run d v id source target ≡ ok e
      → Related v d e
  unfolding count_relation
  check_and_apply-Related d e v id source target at_id at_source at_target h =
      let (source_known, target_known, h₁) = check_and_apply-eq-ok d e v id source target h in
      let (old, latest, read, h₂) = read_and_apply-eq-ok d e v id source target h₁ in
      let rows =
        apply_relation-rows d e v (project_relation v id source target old) latest old h₂ in
      record {
        id = id;
        source = source;
        target = target;
        old = old;
        identified = at_id;
        source_identified = at_source;
        target_identified = at_target;
        source_known = source_known;
        target_known = target_known;
        read = read;
        relations = rows.0;
        resources = rows.1.resources;
        observed = rows.1.observed;
        updated = _;
        counts = rows.1.counts;
      }

  pub observe_relation-Related :
      (d e : Draft) (v : ValidatedRelation)
      → observe_relation reader store run d v ≡ ok e
      → Related v d e
  unfolding observe_relation
  observe_relation-Related d e v h =
      let (id, at_id, h₁) = >>=-eq-ok (map_err domain_error (stable_relation_id v.key)) _ h in
      let (source, at_source, h₂) =
        >>=-eq-ok (map_err domain_error (stable_resource_id v.key.source))
          (λ s. map_err domain_error (stable_resource_id v.key.target) >>= λ t.
            check_and_apply reader store run d v id s t)
          h₁ in
      let (target, at_target, h₃) =
        >>=-eq-ok (map_err domain_error (stable_resource_id v.key.target))
          (λ t. check_and_apply reader store run d v id source t) h₂ in
      check_and_apply-Related d e v id source target (map_err-eq-ok domain_error _ at_id)
        (map_err-eq-ok domain_error _ at_source) (map_err-eq-ok domain_error _ at_target) h₃
