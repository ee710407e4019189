-- ===== src/Sync/Build/Commit.antt =====
-- `build_commit` of crates/next-infra-sync/src/engine.rs: the three loops in order.
pub mod Parts
pub mod Rows
pub mod Authoritative
use next_infra.Base.{
  ℕ, ◌+◌, ◌^◌, ◌%◌, [], length, Option, none, some, text_eq, Result, ok, ◌>>=◌, map_err,
}
use mathlib.Core.List.{map}
use next_infra.Core.Ids.{Scope, Timestamp}
use next_infra.Core.Status.{SyncRunStatus, sync_run_status_eq}
use next_infra.Core.Coverage.{SyncCoverage}
use next_infra.Core.Model.{SyncRun, SyncRunCounts, SyncRunWarning}
use next_infra.Core.MissingEvidence.{MissingEvidenceState, new_state}
use next_infra.Core.Ports.{SyncCommit, StoreReader}
use next_infra.ConnectorApi.Observation.{ObservationWarning}
use next_infra.Normalizer.Batch.{ValidatedBatch}
use next_infra.Sync.Build.Draft.{Draft, EngineError, store_error, domain_error}
use next_infra.Sync.Build.Resources.{observe_resources}
use next_infra.Sync.Build.Relations.{observe_relations}
use next_infra.Sync.Build.Absences.{forget_observed, observe_absences}
use next_infra.Sync.Guards.{SyncRunHandle}

abbrev pub zero_counts : SyncRunCounts
zero_counts = record { read = 0; created = 0; updated = 0; unchanged = 0; warnings = 0 }

-- `usize as u64`
abbrev pub as_u64 : ℕ → ℕ
as_u64 n = n % 2 ^ 64

abbrev pub empty_draft : ValidatedBatch → Draft
empty_draft batch = record {
  resources = [];
  resource_versions = [];
  relations = [];
  relation_versions = [];
  changes = [];
  counts = record zero_counts {
    read = as_u64 (length batch.resources + length batch.relations);
    warnings = as_u64 (length batch.warnings);
  };
  observed_resource_ids = [];
}

abbrev pub status_of : SyncCoverage → SyncRunStatus
status_of (SyncCoverage.partial scope reason) = SyncRunStatus.partial
status_of _ = SyncRunStatus.succeeded

unfoldable pub run_warning : ObservationWarning → SyncRunWarning
run_warning warning = record { code = warning.code; message = warning.message }

-- `unwrap_or_else(|| MissingEvidenceState::new(scope.clone()))`
abbrev pub or_new : Option MissingEvidenceState → Scope → MissingEvidenceState
or_new (some state) scope = state
or_new none scope = new_state scope

-- The run as `build_commit` first closes it.
abbrev pub closed_run : SyncRunHandle → ValidatedBatch → Timestamp → SyncRun
closed_run handle batch finished_at = record handle.run {
  status = status_of batch.coverage;
  finished_at = some finished_at;
  coverage = batch.coverage;
  cursor_after = batch.next_cursor;
}

module _ {S E : Type 0} (reader : StoreReader S E) where
  -- Only an authoritative coverage counts what it did not show.
  unfoldable pub count_absences :
      S
      → SyncRun
      → SyncCoverage
      → Timestamp
      → Draft
      → Result (EngineError E) (Draft × Option MissingEvidenceState)
  count_absences store run (SyncCoverage.authoritative_full scope) finished_at draft = do
    stored ← map_err store_error (reader.missing_evidence_state store run.connection_id scope)
    let state = forget_observed (or_new stored scope) draft.observed_resource_ids
    existing ← map_err store_error (reader.list_resources_for_scope store run.connection_id scope)
    absences ←
        map_err domain_error
          (observe_absences run finished_at (record { state = state; draft = draft }) existing)
    ok (absences.draft, some absences.state)
  count_absences store run (SyncCoverage.incremental cursor) finished_at draft = ok (draft, none)
  count_absences store run (SyncCoverage.partial scope reason) finished_at draft = ok (draft, none)
  count_absences store run (SyncCoverage.targeted ids) finished_at draft = ok (draft, none)

  unfoldable pub build_commit :
      S → SyncRunHandle → ValidatedBatch → Timestamp → Result (EngineError E) SyncCommit
  unfolding run_warning
  build_commit store handle batch finished_at = do
    let run = closed_run handle batch finished_at
    with_resources ← observe_resources reader store run (empty_draft batch) batch.resources
    with_relations ← observe_relations reader store run with_resources batch.relations
    (draft, missing) ← count_absences store run batch.coverage finished_at with_relations
    ok (record {
      sync_run = record run { counts = draft.counts; warnings = map run_warning batch.warnings };
      resources = draft.resources;
      resource_versions = draft.resource_versions;
      relations = draft.relations;
      relation_versions = draft.relation_versions;
      changes = draft.changes;
      cursor_after = batch.next_cursor;
      missing_evidence = missing;
    })
