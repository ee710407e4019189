-- ===== src/Sync/Build/Commit/Parts.antt =====
-- A successful `build_commit` taken apart into its three loops.
use next_infra.Base.{ok, ◌≡◌, arith, >>=-eq-ok}
use mathlib.Core.List.{map}
use next_infra.Core.Ids.{Timestamp}
use next_infra.Core.Model.{SyncRun}
use next_infra.Core.Ports.{SyncCommit, StoreReader}
use next_infra.Normalizer.Batch.{ValidatedBatch}
use next_infra.Sync.Guards.{SyncRunHandle}
use next_infra.Sync.Build.Draft.{Draft}
use next_infra.Sync.Build.Resources.{observe_resources}
use next_infra.Sync.Build.Relations.{observe_relations}
use next_infra.Sync.Build.Resources
use next_infra.Sync.Build.Relations
use next_infra.Sync.Build.Commit.{
  empty_draft, run_warning, closed_run, count_absences, build_commit,
}

module _ {S E : Type 0} (reader : StoreReader S E) (store : S) (handle : SyncRunHandle)
    (batch : ValidatedBatch) (at : Timestamp) where
  abbrev pub run : SyncRun
  run = closed_run handle batch at

  pub record Parts (c : SyncCommit) : Type 0 where
    pub with_resources : Draft
    pub with_relations : Draft
    pub draft : Draft
    pub first :
        Resources.Loop.Loop reader store run batch.resources (empty_draft batch) with_resources
    pub second : Relations.Loop.Loop reader store run batch.relations with_resources with_relations
    pub third :
        count_absences reader store run batch.coverage at with_relations
        ≡ ok (draft, c.missing_evidence)
    pub closed :
        c.sync_run ≡ record run { counts = draft.counts; warnings = map run_warning batch.warnings }
    pub resources : c.resources ≡ draft.resources
    pub relations : c.relations ≡ draft.relations
    pub cursor : c.cursor_after ≡ batch.next_cursor

  pub build_commit-Parts :
      (c : SyncCommit) → build_commit reader store handle batch at ≡ ok c → Parts c
  unfolding build_commit
  build_commit-Parts c h =
      let (d₁, did₁, h₁) =
        >>=-eq-ok (observe_resources reader store run (empty_draft batch) batch.resources) _ h in
      let (d₂, did₂, h₂) = >>=-eq-ok (observe_relations reader store run d₁ batch.relations) _ h₁ in
      let (p, did₃, h₃) = >>=-eq-ok (count_absences reader store run batch.coverage at d₂) _ h₂ in
      record {
        with_resources = d₁;
        with_relations = d₂;
        draft = p.0;
        first =
            Resources.Loop.observe_resources-Loop reader store run (empty_draft batch) d₁
              batch.resources did₁;
        second = Relations.Loop.observe_relations-Loop reader store run d₁ d₂ batch.relations did₂;
        third = ground (arith, did₃, h₃);
        closed = ground (arith, h₃);
        resources = ground (arith, h₃);
        relations = ground (arith, h₃);
        cursor = ground (arith, h₃);
      }
