-- ===== src/Sync/Engine.antt =====
-- `SyncEngine` of crates/next-infra-sync/src/engine.rs: the life of a run, from `start` to one commit.
pub mod Runs
pub mod Start
use next_infra.Base.{
  ℕ, [], ◌∷◌, Option, none, some, text, text_eq, Result, ok, err, ◌>>=◌, ◌>>◌, map_err,
  if◌then◌else◌,
}
use next_infra.Core.Error.{DomainError}
use next_infra.Core.Ids.{Timestamp}
use next_infra.Core.Status.{SyncRunStatus, sync_run_status_eq}
use next_infra.Core.Model.{Connection, SyncRun}
use next_infra.Core.Ports.{SyncCommit, CommitResult, StoreReader, StoreWriter}
use next_infra.Normalizer.Batch.{ValidatedBatch}
use next_infra.Sync.Writer.{WriterQueue, submit}
use next_infra.Sync.Build.Draft.{EngineError, store_error, invalid_run}
use next_infra.Sync.Guards.{
  SyncRunHandle, SyncRunStart, finished, validate_handle, validate_coverage, initial_coverage,
}
use next_infra.Sync.Build.Commit.{zero_counts, build_commit}

-- A fallible method on `&mut self`: its result and the writer that it leaves. `none` is a panic.
abbrev pub Outcome : Type 0 → Type 0 → Type 0 → Type 0
Outcome S E A = Option (Result (EngineError E) A) × WriterQueue S

unfoldable pub failed_commit : SyncRunHandle → DomainError → Timestamp → SyncCommit
failed_commit handle error finished_at = record {
  sync_run = record handle.run {
    status = SyncRunStatus.failed;
    finished_at = some finished_at;
    errors = error ∷ [];
    warnings = [];
    cursor_after = handle.run.cursor_before;
  };
  resources = [];
  resource_versions = [];
  relations = [];
  relation_versions = [];
  changes = [];
  cursor_after = handle.run.cursor_before;
  missing_evidence = none;
}

module _ {S E : Type 0} (writer : StoreWriter S E) where
  -- `self.writer.submit(commit).map_err(SyncEngineError::Store)`
  abbrev submit_commit : WriterQueue S → SyncCommit → Outcome S E CommitResult
  submit_commit queue commit =
      let (submitted, queue') = submit writer queue commit in
      (elim submitted [ none ↦ none | some result ↦ some (map_err store_error result) ], queue')

  unfoldable pub fail :
      WriterQueue S → SyncRunHandle → DomainError → Timestamp → Outcome S E CommitResult
  unfolding failed_commit
  fail queue handle error finished_at =
      if finished handle.run
      then (some (err (invalid_run (text "failed run must still be running"))), queue)
      else submit_commit queue (failed_commit handle error finished_at)

  unfoldable pub recover : WriterQueue S → Timestamp → Result (EngineError E) ℕ × WriterQueue S
  recover queue at =
      let (marked, store') = writer.mark_running_syncs_interrupted queue.store at in
      (map_err store_error marked, record queue { store = store' })

module _ {S E : Type 0} (reader : StoreReader S E) where
  -- The run as `start` opens it.
  unfoldable pub open_run : S → Connection → SyncRunStart → Result (EngineError E) SyncRun
  open_run store connection request = do
    cursor_before ← map_err store_error (reader.sync_cursor store connection.connection_id)
    coverage ←
        initial_coverage request.mode connection.connection_id request.scope cursor_before
          request.targeted_resources
    ok (record {
      sync_run_id = request.sync_run_id;
      connection_id = connection.connection_id;
      mode = request.mode;
      trigger = request.trigger;
      started_at = request.started_at;
      finished_at = none;
      status = SyncRunStatus.running;
      coverage = coverage;
      cursor_before = cursor_before;
      cursor_after = none;
      counts = zero_counts;
      errors = [];
      warnings = [];
    })

  -- What `commit` checks and builds before it writes.
  unfoldable pub prepare :
      S → SyncRunHandle → ValidatedBatch → Timestamp → Result (EngineError E) SyncCommit
  prepare store handle batch finished_at = do
    validate_handle handle batch.connection_id batch.sync_run_id
    validate_coverage handle batch.coverage
    build_commit reader store handle batch finished_at

module _ {S E : Type 0} (reader : StoreReader S E) (writer : StoreWriter S E) where
  unfoldable pub start :
      WriterQueue S
      → Connection
      → SyncRunStart
      → Result (EngineError E) SyncRunHandle × WriterQueue S
  start queue connection request = elim (open_run reader queue.store connection request) [
    | err error ↦ (err error, queue)
    | ok run ↦
        let (started, store') = writer.start_sync_run queue.store run in
        (
          map_err store_error (started >>= λ _. ok (record { run = run; scope = request.scope })),
          record queue { store = store' },
        )
  ]

  unfoldable pub commit :
      WriterQueue S → SyncRunHandle → ValidatedBatch → Timestamp → Outcome S E CommitResult
  commit queue handle batch finished_at =
      elim (prepare reader queue.store handle batch finished_at) [
        | err error ↦ (some (err error), queue)
        | ok built ↦ submit_commit writer queue built
      ]
