-- ===== src/Sync/Build/Commit/Authoritative.antt =====
-- What an authoritative full batch commits: the ledger of absences, and the tombstones.
use mathlib.Core.Path.{fun_ext}
use next_infra.Base.{
  ℕ, Bool, List, ◌++◌, Option, some, ok, ◌≡◌, refl, ap, ◌∙◌, arith, subst, contains, text_eq,
  if◌then◌else◌,
}
use next_infra.Core.Ids.{ResourceId, Scope, Timestamp}
use next_infra.Core.Coverage.{SyncCoverage}
use next_infra.Core.Model.{Resource, SyncRun}
use next_infra.Core.MissingEvidence.{MissingEvidenceState, count_for}
use next_infra.Core.Ports.{SyncCommit, StoreReader}
use next_infra.Normalizer.Batch.{ValidatedBatch, ValidatedResource}
use next_infra.Sync.Guards.{SyncRunHandle}
use next_infra.Sync.Build.Draft.{Draft}
use next_infra.Sync.Build.Resources
use next_infra.Sync.Build.Resources.Loop.{shows}
use next_infra.Sync.Build.Absences.{forget_observed}
use next_infra.Sync.Build.Absences.Strikes.{strike}
use next_infra.Sync.Build.Absences.Ledger.{
  is_row, Distinct, tombstones, observe_absences-ledger, count_for-forget_observed,
  tombstones-unshown,
}
use next_infra.Sync.Build.Commit.{closed_run, count_absences, build_commit, or_new}
use next_infra.Sync.Build.Commit.Parts.{build_commit-Parts}
use next_infra.Sync.Build.Commit.Rows.{Counted, count_absences-Counted}

-- The count of a resource after an authoritative run, from its count before: what is shown starts
-- again, what is stored and not shown gets a strike, at most two.
abbrev pub next_count : List ValidatedResource → List Resource → ResourceId → ℕ → ℕ
next_count shown existing id n =
    if shows shown id then 0 else if is_row existing id then strike n else n

reset_count :
    (shown row : Bool) (after before forgotten : ℕ)
    → forgotten ≡ (if shown then 0 else before)
    → after ≡ (if shown then forgotten else if row then strike forgotten else forgotten)
    → after ≡ (if shown then 0 else if row then strike before else before)
reset_count shown row after before forgotten h k = ground arith

module _ {S E : Type 0} (reader : StoreReader S E) (store : S) (handle : SyncRunHandle)
    (batch : ValidatedBatch) (at : Timestamp) (scope : Scope) (stored : Option MissingEvidenceState)
    (existing : List Resource) where
  abbrev run : SyncRun
  run = closed_run handle batch at

  module _ (shown : ResourceId → Bool) (d e : Draft) (missing : Option MissingEvidenceState)
      (counted : Counted reader store run at d e stored existing missing scope)
      (shown_is : contains d.observed_resource_ids ≡ shown) (distinct : Distinct existing) where
    abbrev forgotten : MissingEvidenceState
    forgotten = forget_observed (or_new stored scope) d.observed_resource_ids

    next_count-ledger :
        (id : ResourceId)
        → count_for counted.after.state id ≡ (
            if shown id
            then 0
            else if is_row existing id
            then strike (count_for (or_new stored scope) id)
            else count_for (or_new stored scope) id)
    next_count-ledger id =
        subst
          (λ p. count_for counted.after.state id ≡ (
            if p id
            then 0
            else if is_row existing id
            then strike (count_for (or_new stored scope) id)
            else count_for (or_new stored scope) id))
          shown_is
          (reset_count (contains d.observed_resource_ids id) (is_row existing id)
            (count_for counted.after.state id) (count_for (or_new stored scope) id)
            (count_for forgotten id) (count_for-forget_observed (or_new stored scope) _ id)
            ((observe_absences-ledger run at (record { state = forgotten; draft = d }) counted.after
                existing distinct counted.looped).0
              id))

    resources-ledger :
        e.resources ≡ d.resources ++ tombstones run at shown (or_new stored scope) existing
    resources-ledger =
        ap (λ (x : Draft). x.resources) counted.draft
        ∙ (observe_absences-ledger run at (record { state = forgotten; draft = d }) counted.after
            existing distinct counted.looped).1
        ∙ ap (◌++◌ d.resources) (
            tombstones-unshown run at (contains d.observed_resource_ids) (or_new stored scope)
              forgotten existing
              (λ j unshown.
                rw
                  (
                    count_for-forget_observed (or_new stored scope) d.observed_resource_ids j,
                    unshown,
                  )
                  refl)
            ∙ ap (λ p. tombstones run at p (or_new stored scope) existing) shown_is)

  -- With an authoritative full coverage, and a store whose rows of the scope are distinct, a built
  -- commit holds the projections of the batch's resources, in order, and then a tombstone for each
  -- stored row that the batch does not show, that is not tombstoned and that had been absent before.
  -- Its ledger resets what is shown, and gives each stored row that is not shown a strike.
  pub build_commit-authoritative :
      (c : SyncCommit)
      → batch.coverage ≡ SyncCoverage.authoritative_full scope
      → reader.missing_evidence_state store handle.run.connection_id scope ≡ ok stored
      → reader.list_resources_for_scope store handle.run.connection_id scope ≡ ok existing
      → Distinct existing
      → build_commit reader store handle batch at ≡ ok c
      → (rows : List Resource) × (state : MissingEvidenceState) × Resources.Loop.AllProjected reader
          store
          (closed_run handle batch at)
          batch.resources
          rows
        × (c.resources
            ≡ rows
              ++ tombstones
                  (closed_run handle batch at)
                  at
                  (shows batch.resources)
                  (or_new stored scope)
                  existing)
        × (c.missing_evidence ≡ some state)
        × ((id : ResourceId)
            → count_for state id
              ≡ next_count batch.resources existing id (count_for (or_new stored scope) id))
  unfolding contains
  build_commit-authoritative c coverage read listed distinct h =
      let parts = build_commit-Parts reader store handle batch at c h in
      let third =
        subst
          (λ cov.
            count_absences reader store run cov at parts.with_relations
            ≡ ok (parts.draft, c.missing_evidence))
          coverage parts.third in
      let (stored', existing', read', listed', counted) =
        count_absences-Counted reader store run scope at parts.with_relations parts.draft
          c.missing_evidence third in
      let same_stored : stored' ≡ stored = ground arith in
      let same_existing : existing' ≡ existing = ground arith in
      let counted' : Counted reader store run at parts.with_relations parts.draft stored existing
          c.missing_evidence scope =
        subst
          (λ s.
            Counted reader store run at parts.with_relations parts.draft s existing
              c.missing_evidence scope)
          same_stored
          (subst
            (λ rows.
              Counted reader store run at parts.with_relations parts.draft stored' rows
                c.missing_evidence scope)
            same_existing counted) in
      let shown_is : contains parts.with_relations.observed_resource_ids ≡ shows batch.resources =
        ap contains parts.second.observed ∙ fun_ext parts.first.observed in
      (
        parts.first.rows,
        counted'.after.state,
        parts.first.projected,
        parts.resources
            ∙ resources-ledger (shows batch.resources) parts.with_relations parts.draft
                c.missing_evidence counted' shown_is distinct
            ∙ ap
                (λ rs.
                  rs ++ tombstones run at (shows batch.resources) (or_new stored scope) existing)
                (parts.second.resources ∙ parts.first.resources),
        counted'.missing_is,
        next_count-ledger (shows batch.resources) parts.with_relations parts.draft
            c.missing_evidence counted' shown_is distinct,
      )
