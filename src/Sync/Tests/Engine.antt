-- ===== src/Sync/Tests/Engine.antt =====
-- The theorems of the engine at concrete inputs.
use next_infra.Base.{
  ℕ, ◌+◌, true, List, [], ◌∷◌, ◌++◌, none, some, ok, err, ◌≡◌, refl, text_eq, text, Text-discrete,
  ℕ_discrete, contains, length, ◌⊎◌,
}
use next_infra.Core.Error.{DomainError, ErrorCode}
use next_infra.Core.Ids.{ResourceId}
use next_infra.Core.Status.{
  ConnectorHealth, SyncRunStatus-discrete, SyncMode, SyncTrigger, SyncRunStatus,
}
use next_infra.Core.Json.{null}
use next_infra.Core.Coverage.{SyncCoverage, contributes_missing_evidence}
use next_infra.Core.Model.{Connection, Resource}
use next_infra.Core.MissingEvidence.{MissingEvidenceState, count_for}
use next_infra.Core.Ports.{SyncCommit}
use next_infra.ConnectorApi.Observation.{compatible}
use next_infra.Sync.Guards.{
  SyncRunHandle, SyncRunStart, claimed_scope, validate_handle, validate_coverage, initial_coverage,
}
use next_infra.Sync.Writer.{WriterQueue}
use next_infra.Sync.Build.Draft.{EngineError}
use next_infra.Sync.Build.Resources.Loop.{shows}
use next_infra.Sync.Build.Absences.Ledger.{tombstones}
use next_infra.Sync.Build.Commit.{zero_counts, build_commit, closed_run, or_new}
use next_infra.Sync.Build.Commit.Rows.{
  build_commit-total, build_commit-relations, build_commit-not_authoritative,
}
use next_infra.Sync.Build.Commit.Authoritative.{next_count, build_commit-authoritative}
use next_infra.Sync.Build.Resources
use next_infra.Sync.Build.Relations
use next_infra.Sync.Engine.{prepare, commit, fail, start, open_run}
use next_infra.Sync.Engine.Runs.{
  StatusFits, IsRunning, ClaimsOnly, SameRun, Fails, written, prepare_sound, commit-written,
}
use next_infra.Sync.Engine.Start.{start_sound, fail-start}
use next_infra.Sync.Tests.Fixture.{
  FakeStore, reader, writer, store, handle, shown, interrupted, row,
}
use next_infra.Sync.Tests.Builds.{
  built, built-small, built_interrupted, shown-builds, interrupted-builds,
}

-- Nothing pending in front of the store.
abbrev idle : WriterQueue FakeStore
idle = record { store = store; pending = [] }

shown-prepares : prepare reader store handle shown 9 ≡ ok built
unfolding prepare validate_handle validate_coverage compatible Text-discrete ℕ_discrete
    SyncRunStatus-discrete build_commit
shown-prepares = shown-builds

build_commit-authoritative_example :
    (rows : List Resource) × (state : MissingEvidenceState) × Resources.Loop.AllProjected reader
      store
      (closed_run handle shown 9)
      shown.resources
      rows
    × (built.resources
        ≡ rows
          ++ tombstones
              (closed_run handle shown 9)
              9
              (shows shown.resources)
              (or_new store.missing (b's' ∷ []))
              (row ∷ []))
    × (built.missing_evidence ≡ some state)
    × ((id : ResourceId)
        → count_for state id
          ≡ next_count shown.resources
              (row ∷ [])
              id
              (count_for (or_new store.missing (b's' ∷ [])) id))
build_commit-authoritative_example =
    build_commit-authoritative reader store handle shown 9 (b's' ∷ []) store.missing (row ∷ [])
      built refl refl refl (refl, tt) shown-builds

build_commit-not_authoritative_example :
    (built_interrupted.missing_evidence ≡ none)
    × Resources.Loop.AllProjected reader store
        (closed_run handle interrupted 9)
        interrupted.resources
        built_interrupted.resources
unfolding contributes_missing_evidence
build_commit-not_authoritative_example =
    build_commit-not_authoritative reader store handle interrupted 9 built_interrupted refl
      interrupted-builds

build_commit-relations_example :
    (observed : List ResourceId) × ((id : ResourceId)
      → contains observed id ≡ shows shown.resources id)
    × Relations.Loop.AllProjected reader store
        (closed_run handle shown 9)
        observed
        shown.relations
        built.relations
build_commit-relations_example =
    build_commit-relations reader store handle shown 9 built shown-builds

build_commit-total_example :
    built.sync_run.counts.created + built.sync_run.counts.updated + built.sync_run.counts.unchanged
    ≡ length built.resources + length built.relations
build_commit-total_example =
    build_commit-total reader store handle shown 9 built shown-builds built-small

prepare_sound_example :
    IsRunning handle.run
    × (handle.run.connection_id ≡ shown.connection_id)
    × (handle.run.sync_run_id ≡ shown.sync_run_id)
    × (compatible handle.run.mode shown.coverage ≡ true)
    × ClaimsOnly handle.scope (claimed_scope shown.coverage)
    × SameRun handle.run built.sync_run
    × (built.sync_run.coverage ≡ shown.coverage)
    × (built.sync_run.errors ≡ handle.run.errors)
    × StatusFits shown.coverage built.sync_run.status
    × (built.sync_run.finished_at ≡ some 9)
    × (built.sync_run.cursor_after ≡ shown.next_cursor)
    × (built.cursor_after ≡ shown.next_cursor)
prepare_sound_example = prepare_sound reader store handle shown 9 built shown-prepares

commit-written_example :
    ((error : EngineError ℕ) × (prepare reader store handle shown 9 ≡ err error)
      × (commit reader writer idle handle shown 9 ≡ (some (err error), idle)))
    ⊎ ((c : SyncCommit) × (prepare reader store handle shown 9 ≡ ok c)
        × (commit reader writer idle handle shown 9 ≡ written writer idle c))
commit-written_example = commit-written reader writer idle handle shown 9 refl

abbrev broken : DomainError
broken = record { code = ErrorCode.rate_limited; message = text "rate limited"; retryable = true }

abbrev connection : Connection
connection = record {
  connection_id = b'c' ∷ [];
  connector_type = b'a' ∷ [];
  display_name = b'n' ∷ [];
  enabled = true;
  config = null;
  secret_ref = none;
  health = ConnectorHealth.healthy;
  last_success_at = none;
  last_attempt_at = none;
  config_schema_version = 1;
  deleted_at = none;
}

abbrev request : SyncRunStart
request = record {
  sync_run_id = b'2' ∷ [];
  mode = SyncMode.full;
  trigger = SyncTrigger.user;
  scope = b's' ∷ [];
  started_at = 5;
  targeted_resources = [];
}

abbrev opened : SyncRunHandle
opened = record {
  run = record {
    sync_run_id = b'2' ∷ [];
    connection_id = b'c' ∷ [];
    mode = SyncMode.full;
    trigger = SyncTrigger.user;
    started_at = 5;
    finished_at = none;
    status = SyncRunStatus.running;
    coverage = SyncCoverage.authoritative_full (b's' ∷ []);
    cursor_before = none;
    cursor_after = none;
    counts = zero_counts;
    errors = [];
    warnings = [];
  };
  scope = b's' ∷ [];
}

start_sound_example :
    IsRunning opened.run
    × (opened.scope ≡ request.scope)
    × (opened.run.sync_run_id ≡ request.sync_run_id)
    × (opened.run.connection_id ≡ connection.connection_id)
    × (reader.sync_cursor store connection.connection_id ≡ ok opened.run.cursor_before)
    × ((writer.start_sync_run store opened.run).0 ≡ ok tt)
    × (store ≡ (writer.start_sync_run store opened.run).1)
    × (idle.pending ≡ [])
    × (compatible opened.run.mode opened.run.coverage ≡ true)
    × ClaimsOnly opened.scope (claimed_scope opened.run.coverage)
unfolding start open_run initial_coverage
start_sound_example = start_sound reader writer idle idle connection request opened refl

fail-start_example :
    (c : SyncCommit) × (fail writer idle opened broken 9 ≡ written writer idle c)
    × (store ≡ (writer.start_sync_run store opened.run).1)
    × Fails opened.run broken 9 c
    × (c.sync_run.sync_run_id ≡ request.sync_run_id)
    × (c.sync_run.connection_id ≡ connection.connection_id)
    × (reader.sync_cursor store connection.connection_id ≡ ok c.sync_run.cursor_after)
    × (reader.sync_cursor store connection.connection_id ≡ ok c.cursor_after)
unfolding start open_run initial_coverage
fail-start_example = fail-start reader writer idle idle connection request opened broken 9 refl refl
