-- ===== src/Sync/Build/Relations/Loop.antt =====
-- The whole loop over the observed relations.
use next_infra.Base.{
  ◌+◌, ◌<◌, ◌^◌, true, List, [], ◌∷◌, ◌++◌, Option, some, ok, ◌≡◌, refl, ap, ◌∙◌, arith, contains,
  >>=-eq-ok, text_eq, subst, length, ◌⊎◌,
}
use mathlib.Core.List.{append_assoc, append-nil}
use next_infra.Core.Ids.{ResourceId, RelationId}
use next_infra.Core.Model.{Resource, Relation, SyncRun}
use next_infra.Core.Ports.{StoreReader}
use next_infra.Normalizer.Batch.{ValidatedRelation}
use next_infra.Sync.Identity.{stable_resource_id, stable_relation_id}
use next_infra.Sync.Project.{project_relation, is_none}
use next_infra.Sync.Build.Draft.{Draft, total, total-step, read-count_row}
use next_infra.Sync.Build.Relations.{observe_relation, observe_relations}
use next_infra.Sync.Build.Relations.Effect.{observe_relation-Related}

module _ {S E : Type 0} (reader : StoreReader S E) (store : S) (run : SyncRun) where
  -- The resource is among the observed ones, or the store has it.
  abbrev pub Known : List ResourceId → ResourceId → Type 0
  Known observed id =
      (contains observed id ≡ true)
      ⊎ ((r : Resource) × (reader.get_resource store id ≡ ok (some r)))

  -- The row is the projection of the relation, between two known resources.
  pub record Projected (observed : List ResourceId) (v : ValidatedRelation) (row : Relation)
      : Type 0 where
    pub id : RelationId
    pub source : ResourceId
    pub target : ResourceId
    pub old : Option Relation
    pub identified : stable_relation_id v.key ≡ ok id
    pub source_identified : stable_resource_id v.key.source ≡ ok source
    pub target_identified : stable_resource_id v.key.target ≡ ok target
    pub source_known : Known observed source
    pub target_known : Known observed target
    pub read : reader.get_relation store id ≡ ok old
    pub projected : row ≡ project_relation v id source target old

  abbrev pub AllProjected : List ResourceId → List ValidatedRelation → List Relation → Type 0
  AllProjected observed [] [] = Unit
  AllProjected observed [] (row ∷ rows) = ⊥
  AllProjected observed (v ∷ vs) [] = ⊥
  AllProjected observed (v ∷ vs) (row ∷ rows) =
      Projected observed v row × AllProjected observed vs rows

  pub length-AllProjected :
      (observed : List ResourceId) (vs : List ValidatedRelation) (rows : List Relation)
      → AllProjected observed vs rows
      → length rows ≡ length vs
  length-AllProjected observed [] [] h = refl
  length-AllProjected observed [] (row ∷ rows) h = absurd h
  length-AllProjected observed (v ∷ vs) [] h = absurd h
  length-AllProjected observed (v ∷ vs) (row ∷ rows) h =
      omega (arith, length-AllProjected observed vs rows h.1)

  pub record Loop (vs : List ValidatedRelation) (d e : Draft) : Type 0 where
    pub rows : List Relation
    pub relations : e.relations ≡ d.relations ++ rows
    pub projected : AllProjected d.observed_resource_ids vs rows
    pub resources : e.resources ≡ d.resources
    pub observed : e.observed_resource_ids ≡ d.observed_resource_ids
    pub counted : total d.counts + length vs < 2 ^ 64 → total e.counts ≡ total d.counts + length vs
    pub read : e.counts.read ≡ d.counts.read
    pub warnings : e.counts.warnings ≡ d.counts.warnings

  pub observe_relations-Loop :
      (d e : Draft) (vs : List ValidatedRelation)
      → observe_relations reader store run d vs ≡ ok e
      → Loop vs d e
  unfolding observe_relations
  observe_relations-Loop d e [] h = record {
    rows = [];
    relations = rw (append-nil d.relations) (ground arith);
    projected = tt;
    resources = ground arith;
    observed = ground arith;
    counted = λ small. ground arith;
    read = ground arith;
    warnings = ground arith;
  }
  observe_relations-Loop d e (v ∷ vs) h =
      let (next, did, h₁) = >>=-eq-ok (observe_relation reader store run d v) _ h in
      let o = observe_relation-Related reader store run d next v did in
      let rest = observe_relations-Loop next e vs h₁ in
      let row = project_relation v o.id o.source o.target o.old in
      record {
        rows = row ∷ rest.rows;
        relations =
            rest.relations
            ∙ ap (λ rs. rs ++ rest.rows) o.relations
            ∙ append_assoc d.relations (row ∷ []) rest.rows;
        projected = (
          record {
            id = o.id;
            source = o.source;
            target = o.target;
            old = o.old;
            identified = o.identified;
            source_identified = o.source_identified;
            target_identified = o.target_identified;
            source_known = o.source_known;
            target_known = o.target_known;
            read = o.read;
            projected = refl;
          },
          subst (λ ids. AllProjected ids vs rest.rows) o.observed rest.projected,
        );
        resources = rest.resources ∙ o.resources;
        observed = rest.observed ∙ o.observed;
        counted =
            total-step (is_none o.old) o.updated d.counts next.counts e.counts (length vs) o.counts
              rest.counted;
        read = rest.read ∙ ap (λ c. c.read) o.counts ∙ (read-count_row _ _ d.counts).0;
        warnings = rest.warnings ∙ ap (λ c. c.warnings) o.counts ∙ (read-count_row _ _ d.counts).1;
      }
