-- ===== src/Sync/Build/Resources/Loop.antt =====
-- The whole loop over the observed resources.
use next_infra.Base.{
  ◌+◌, ◌<◌, ◌^◌, Bool, false, ◌||◌, List, [], ◌∷◌, ◌++◌, Option, Result, ok, err, ◌≡◌, refl, ap,
  ◌∙◌, arith, contains, >>=-eq-ok, ◌==◌, text_eq, any, length,
}
use mathlib.Core.List.{append_assoc, append-nil}
use next_infra.Base.Maps.{contains-set_insert, text_ord}
use next_infra.Core.Ids.{ResourceId}
use next_infra.Core.Error.{DomainError}
use next_infra.Core.Model.{Resource, SyncRun}
use next_infra.Core.Ports.{StoreReader}
use next_infra.Normalizer.Batch.{ValidatedResource}
use next_infra.Sync.Identity.{stable_resource_id}
use next_infra.Sync.Project.{project_resource, is_none}
use next_infra.Sync.Build.Draft.{Draft, total, total-step, read-count_row}
use next_infra.Sync.Build.Resources.{observe_resource, observe_resources}
use next_infra.Sync.Build.Resources.Effect.{Observed, observe_resource-Observed}

abbrev identifies : Result DomainError ResourceId → ResourceId → Bool
identifies (ok j) id = id == j
identifies (err e) id = false

-- Some resource of the batch has this stable id.
abbrev pub shows : List ValidatedResource → ResourceId → Bool
shows vs id = any (λ v. identifies (stable_resource_id v.key) id) vs

module _ {S E : Type 0} (reader : StoreReader S E) (store : S) (run : SyncRun) where
  -- The row is the projection of the resource onto the row that the store has for it, if any.
  pub record Projected (v : ValidatedResource) (row : Resource) : Type 0 where
    pub id : ResourceId
    pub old : Option Resource
    pub identified : stable_resource_id v.key ≡ ok id
    pub read : reader.get_resource store id ≡ ok old
    pub projected : row ≡ project_resource v id run old

  abbrev pub AllProjected : List ValidatedResource → List Resource → Type 0
  AllProjected [] [] = Unit
  AllProjected [] (row ∷ rows) = ⊥
  AllProjected (v ∷ vs) [] = ⊥
  AllProjected (v ∷ vs) (row ∷ rows) = Projected v row × AllProjected vs rows

  pub length-AllProjected :
      (vs : List ValidatedResource) (rows : List Resource)
      → AllProjected vs rows
      → length rows ≡ length vs
  length-AllProjected [] [] h = refl
  length-AllProjected [] (row ∷ rows) h = absurd h
  length-AllProjected (v ∷ vs) [] h = absurd h
  length-AllProjected (v ∷ vs) (row ∷ rows) h = omega (arith, length-AllProjected vs rows h.1)

  pub record Loop (vs : List ValidatedResource) (d e : Draft) : Type 0 where
    pub rows : List Resource
    pub resources : e.resources ≡ d.resources ++ rows
    pub projected : AllProjected vs rows
    pub relations : e.relations ≡ d.relations
    pub observed :
        (id : ResourceId)
        → contains e.observed_resource_ids id ≡ (contains d.observed_resource_ids id || shows vs id)
    pub counted : total d.counts + length vs < 2 ^ 64 → total e.counts ≡ total d.counts + length vs
    pub read : e.counts.read ≡ d.counts.read
    pub warnings : e.counts.warnings ≡ d.counts.warnings

  shown_step :
      (d e : Draft) (v : ValidatedResource)
      → Observed reader store run v d e
      → (id : ResourceId)
      → contains e.observed_resource_ids id
        ≡ (contains d.observed_resource_ids id || identifies (stable_resource_id v.key) id)
  shown_step d e v o id =
      rw (o.observed, contains-set_insert d.observed_resource_ids o.id id, o.identified, identifies)
        (ground arith)

  pub observe_resources-Loop :
      (d e : Draft) (vs : List ValidatedResource)
      → observe_resources reader store run d vs ≡ ok e
      → Loop vs d e
  unfolding observe_resources
  observe_resources-Loop d e [] h = record {
    rows = [];
    resources = rw (append-nil d.resources) (ground arith);
    projected = tt;
    relations = ground arith;
    observed = λ id. ground arith;
    counted = λ small. ground arith;
    read = ground arith;
    warnings = ground arith;
  }
  observe_resources-Loop d e (v ∷ vs) h =
      let (next, did, h₁) = >>=-eq-ok (observe_resource reader store run d v) _ h in
      let o = observe_resource-Observed reader store run d next v did in
      let rest = observe_resources-Loop next e vs h₁ in
      record {
        rows = project_resource v o.id run o.old ∷ rest.rows;
        resources =
            rest.resources
            ∙ ap (λ rs. rs ++ rest.rows) o.resources
            ∙ append_assoc d.resources (project_resource v o.id run o.old ∷ []) rest.rows;
        projected = (
          record {
            id = o.id;
            old = o.old;
            identified = o.identified;
            read = o.read;
            projected = refl;
          },
          rest.projected,
        );
        relations = rest.relations ∙ o.relations;
        observed = λ id. ground (arith, rest.observed id, shown_step d next v o id);
        counted =
            total-step (is_none o.old) o.updated d.counts next.counts e.counts (length vs) o.counts
              rest.counted;
        read = rest.read ∙ ap (λ c. c.read) o.counts ∙ (read-count_row _ _ d.counts).0;
        warnings = rest.warnings ∙ ap (λ c. c.warnings) o.counts ∙ (read-count_row _ _ d.counts).1;
      }
