-- ===== src/Sync/Build/Commit/Rows.antt =====
-- What a built commit holds: projected rows, honest counts, and nothing about what a batch that is
-- not authoritative did not show.
use next_infra.Base.{
  ◌+◌, ◌<◌, ◌≤◌, contains, text_eq, ◌++◌, subst, ◌^◌, false, List, Option, none, some, ok, ◌≡◌, sym,
  ap, ◌∙◌, arith, >>=-eq-ok, ◌>>=◌, length, map_err, map_err-eq-ok,
}
use next_infra.Core.Ids.{ResourceId, Scope, Timestamp}
use next_infra.Core.Coverage.{SyncCoverage, contributes_missing_evidence}
use next_infra.Core.Model.{Resource, SyncRun}
use next_infra.Core.MissingEvidence.{MissingEvidenceState}
use next_infra.Core.Ports.{SyncCommit, StoreReader}
use next_infra.Normalizer.Batch.{ValidatedBatch}
use next_infra.Sync.Guards.{SyncRunHandle}
use next_infra.Sync.Build.Draft.{Draft, total, store_error, domain_error}
use next_infra.Sync.Build.Resources
use next_infra.Sync.Build.Relations
use next_infra.Sync.Build.Resources.Loop.{shows}
use next_infra.Sync.Build.Absences.{Absences, forget_observed, observe_absences}
use next_infra.Sync.Build.Absences.Ledger.{
  observe_absences-total, observe_absences-relations, observe_absences-grows,
}
use next_infra.Sync.Build.Commit.{closed_run, count_absences, build_commit, or_new}
use next_infra.Sync.Build.Commit.Parts.{Parts, build_commit-Parts}

module _ {S E : Type 0} (reader : StoreReader S E) (store : S) where
  -- The loop of an authoritative coverage, with what it read.
  pub record Counted (run : SyncRun) (at : Timestamp) (d e : Draft)
      (stored : Option MissingEvidenceState) (existing : List Resource)
      (missing : Option MissingEvidenceState) (scope : Scope) : Type 0 where
    pub after : Absences
    pub looped :
        observe_absences run at
          (record {
            state = forget_observed (or_new stored scope) d.observed_resource_ids;
            draft = d;
          })
          existing
        ≡ ok after
    pub draft : e ≡ after.draft
    pub missing_is : missing ≡ some after.state

  pub count_absences-Counted :
      (run : SyncRun) (scope : Scope) (at : Timestamp) (d e : Draft)
      (missing : Option MissingEvidenceState)
      → count_absences reader store run (SyncCoverage.authoritative_full scope) at d
        ≡ ok (e, missing)
      → (stored : Option MissingEvidenceState) × (existing : List Resource)
        × (reader.missing_evidence_state store run.connection_id scope ≡ ok stored)
        × (reader.list_resources_for_scope store run.connection_id scope ≡ ok existing)
        × Counted run at d e stored existing missing scope
  unfolding count_absences
  count_absences-Counted run scope at d e missing h =
      let (stored, read, h₁) =
        >>=-eq-ok
          (map_err store_error (reader.missing_evidence_state store run.connection_id scope)) _ h in
      let (existing, listed, h₂) =
        >>=-eq-ok
          (map_err store_error (reader.list_resources_for_scope store run.connection_id scope))
          (λ rows.
            map_err domain_error (
              observe_absences run at
                (record {
                  state = forget_observed (or_new stored scope) d.observed_resource_ids;
                  draft = d;
                })
                rows)
            >>= λ absences. ok (absences.draft, some absences.state))
          h₁ in
      let (after, looped, h₃) =
        >>=-eq-ok
          (map_err domain_error (
            observe_absences run at
              (record {
                state = forget_observed (or_new stored scope) d.observed_resource_ids;
                draft = d;
              })
              existing))
          (λ absences. ok (absences.draft, some absences.state)) h₂ in
      (
        stored,
        existing,
        map_err-eq-ok store_error _ read,
        map_err-eq-ok store_error _ listed,
        record {
          after = after;
          looped = map_err-eq-ok domain_error _ looped;
          draft = ground (arith, h₃);
          missing_is = ground (arith, h₃);
        },
      )

  count_absences-total :
      (run : SyncRun) (coverage : SyncCoverage) (at : Timestamp) (d e : Draft)
      (missing : Option MissingEvidenceState)
      → count_absences reader store run coverage at d ≡ ok (e, missing)
      → total d.counts + length e.resources < 2 ^ 64 + length d.resources
      → (total e.counts + length d.resources ≡ total d.counts + length e.resources)
  unfolding count_absences
  count_absences-total run (SyncCoverage.authoritative_full scope) at d e missing h small =
      let (stored, existing, read, listed, counted) =
        count_absences-Counted run scope at d e missing h in
      let rows = ap (λ (x : Draft). length x.resources) counted.draft in
      let counts = ap (λ (x : Draft). total x.counts) counted.draft in
      let sums =
        observe_absences-total run at _ counted.after existing counted.looped (omega arith) in
      omega arith
  count_absences-total run (SyncCoverage.incremental cursor) at d e missing h small = ground arith
  count_absences-total run (SyncCoverage.partial scope reason) at d e missing h small = ground arith
  count_absences-total run (SyncCoverage.targeted ids) at d e missing h small = ground arith

  count_absences-relations :
      (run : SyncRun) (coverage : SyncCoverage) (at : Timestamp) (d e : Draft)
      (missing : Option MissingEvidenceState)
      → count_absences reader store run coverage at d ≡ ok (e, missing)
      → e.relations ≡ d.relations
  unfolding count_absences
  count_absences-relations run (SyncCoverage.authoritative_full scope) at d e missing h =
      let (stored, existing, read, listed, counted) =
        count_absences-Counted run scope at d e missing h in
      ap (λ (x : Draft). x.relations) counted.draft
      ∙ observe_absences-relations run at _ counted.after existing counted.looped
  count_absences-relations run (SyncCoverage.incremental cursor) at d e missing h = ground arith
  count_absences-relations run (SyncCoverage.partial scope reason) at d e missing h = ground arith
  count_absences-relations run (SyncCoverage.targeted ids) at d e missing h = ground arith

  count_absences-grows :
      (run : SyncRun) (coverage : SyncCoverage) (at : Timestamp) (d e : Draft)
      (missing : Option MissingEvidenceState)
      → count_absences reader store run coverage at d ≡ ok (e, missing)
      → length d.resources ≤ length e.resources
  unfolding count_absences
  count_absences-grows run (SyncCoverage.authoritative_full scope) at d e missing h =
      let (stored, existing, read, listed, counted) =
        count_absences-Counted run scope at d e missing h in
      let rows = ap (λ (x : Draft). length x.resources) counted.draft in
      omega (arith, observe_absences-grows run at _ counted.after existing counted.looped)
  count_absences-grows run (SyncCoverage.incremental cursor) at d e missing h = ground arith
  count_absences-grows run (SyncCoverage.partial scope reason) at d e missing h = ground arith
  count_absences-grows run (SyncCoverage.targeted ids) at d e missing h = ground arith

  count_absences-none :
      (run : SyncRun) (coverage : SyncCoverage) (at : Timestamp) (d e : Draft)
      (missing : Option MissingEvidenceState)
      → contributes_missing_evidence coverage ≡ false
      → count_absences reader store run coverage at d ≡ ok (e, missing)
      → (e ≡ d) × (missing ≡ none)
  unfolding count_absences contributes_missing_evidence
  count_absences-none run (SyncCoverage.authoritative_full scope) at d e missing none' h = cc
  count_absences-none run (SyncCoverage.incremental cursor) at d e missing none' h =
      (ground arith, ground arith)
  count_absences-none run (SyncCoverage.partial scope reason) at d e missing none' h =
      (ground arith, ground arith)
  count_absences-none run (SyncCoverage.targeted ids) at d e missing none' h =
      (ground arith, ground arith)

  module _ (handle : SyncRunHandle) (batch : ValidatedBatch) (at : Timestamp) where
    abbrev run : SyncRun
    run = closed_run handle batch at

    relations_are :
        (c : SyncCommit) (parts : Parts reader store handle batch at c)
        → c.relations ≡ parts.second.rows
    relations_are c parts =
        parts.relations
        ∙ count_absences-relations run batch.coverage at parts.with_relations parts.draft
            c.missing_evidence parts.third
        ∙ parts.second.relations
        ∙ ap (λ rs. rs ++ parts.second.rows) parts.first.relations

    -- In a built commit of fewer than 2^64 rows, created, updated and unchanged rows add up to the
    -- resources and relations that the commit holds, tombstones included.
    pub build_commit-total :
        (c : SyncCommit)
        → build_commit reader store handle batch at ≡ ok c
        → length c.resources + length c.relations < 2 ^ 64
        → c.sync_run.counts.created + c.sync_run.counts.updated + c.sync_run.counts.unchanged
          ≡ length c.resources + length c.relations
    build_commit-total c h small =
        let parts = build_commit-Parts reader store handle batch at c h in
        let resources = parts.first.resources in
        let first_rows : length parts.with_resources.resources ≡ length batch.resources =
          ap length resources
          ∙ Resources.Loop.length-AllProjected reader store run batch.resources parts.first.rows
              parts.first.projected in
        let second_rows : length c.relations ≡ length batch.relations =
          ap length (relations_are c parts)
          ∙ Relations.Loop.length-AllProjected reader store run
              parts.with_resources.observed_resource_ids batch.relations parts.second.rows
              parts.second.projected in
        let kept = ap length parts.second.resources in
        let all = ap length parts.resources in
        let grown =
          count_absences-grows run batch.coverage at parts.with_relations parts.draft
            c.missing_evidence parts.third in
        let first_total = parts.first.counted (omega arith) in
        let second_total = parts.second.counted (omega arith) in
        let last_total =
          count_absences-total run batch.coverage at parts.with_relations parts.draft
            c.missing_evidence parts.third (omega arith) in
        let closed = ap (λ (r : SyncRun). total r.counts) parts.closed in omega arith

    -- The relations of a built commit are the projections of the batch's relations, in order, each
    -- between two resources that the batch shows or the store has.
    pub build_commit-relations :
        (c : SyncCommit)
        → build_commit reader store handle batch at ≡ ok c
        → (observed : List ResourceId) × ((id : ResourceId)
            → contains observed id ≡ shows batch.resources id)
          × Relations.Loop.AllProjected reader store
              (closed_run handle batch at)
              observed
              batch.relations
              c.relations
    unfolding contains
    build_commit-relations c h =
        let parts = build_commit-Parts reader store handle batch at c h in
        (
          parts.with_resources.observed_resource_ids,
          parts.first.observed,
          subst
              (λ rs.
                Relations.Loop.AllProjected reader store run
                  parts.with_resources.observed_resource_ids batch.relations rs)
              (sym (relations_are c parts)) parts.second.projected,
        )

    -- A batch that is not an authoritative full one commits the projections of its resources, in
    -- order, and nothing else: no tombstone, and no count of absences.
    pub build_commit-not_authoritative :
        (c : SyncCommit)
        → contributes_missing_evidence batch.coverage ≡ false
        → build_commit reader store handle batch at ≡ ok c
        → (c.missing_evidence ≡ none)
          × Resources.Loop.AllProjected reader store
              (closed_run handle batch at)
              batch.resources
              c.resources
    build_commit-not_authoritative c coverage h =
        let parts = build_commit-Parts reader store handle batch at c h in
        let (draft, missing) =
          count_absences-none run batch.coverage at parts.with_relations parts.draft
            c.missing_evidence coverage parts.third in
        let rows : c.resources ≡ parts.first.rows =
          parts.resources
          ∙ ap (λ (d : Draft). d.resources) draft
          ∙ parts.second.resources
          ∙ parts.first.resources in
        (
          missing,
          subst (λ rs. Resources.Loop.AllProjected reader store run batch.resources rs) (sym rows)
              parts.first.projected,
        )
