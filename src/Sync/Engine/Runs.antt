-- ===== src/Sync/Engine/Runs.antt =====
-- What `commit` and `fail` let through, and what they hand to the store.
use next_infra.Base.{
  sym, subst, true, false, [], ◌∷◌, Option, none, some, ok, err, ◌≡◌, refl, ap, arith, text_eq,
  map_err, >>=-eq-ok, ◌⊎◌, inl, inr, Result-cases, ◌!=◌,
}
use next_infra.Core.Error.{DomainError}
use next_infra.Core.Ids.{Scope, Timestamp}
use next_infra.Core.Status.{SyncRunStatus, sync_run_status_eq}
use next_infra.Core.Coverage.{SyncCoverage}
use next_infra.Core.Model.{SyncRun}
use next_infra.Core.Ports.{SyncCommit, CommitResult, StoreReader, StoreWriter}
use next_infra.ConnectorApi.Observation.{compatible}
use next_infra.Normalizer.Batch.{ValidatedBatch}
use next_infra.Sync.Project.{is_some_and}
use next_infra.Sync.Writer.{WriterQueue}
use next_infra.Sync.Writer.Submit.{unsettled, submit-empty}
use next_infra.Sync.Guards.{
  SyncRunHandle, finished, claimed_scope, validate_handle, validate_coverage,
}
use next_infra.Sync.Build.Draft.{EngineError, store_error}
use next_infra.Sync.Build.Commit.{status_of, build_commit}
use next_infra.Sync.Build.Commit.Parts.{build_commit-Parts}
use next_infra.Sync.Engine.{Outcome, submit_commit, prepare, commit, failed_commit, fail}

-- A run that may still be committed or failed.
abbrev pub IsRunning : SyncRun → Type 0
IsRunning run = (run.status ≡ SyncRunStatus.running) × (run.finished_at ≡ none)

-- The same run, with what it was opened with: its connection, mode, trigger, start and cursor.
abbrev pub SameRun : SyncRun → SyncRun → Type 0
SameRun run closed =
    (closed.sync_run_id ≡ run.sync_run_id)
    × (closed.connection_id ≡ run.connection_id)
    × (closed.mode ≡ run.mode)
    × (closed.trigger ≡ run.trigger)
    × (closed.started_at ≡ run.started_at)
    × (closed.cursor_before ≡ run.cursor_before)

-- The scope that the coverage claims, if any, is the run's.
abbrev pub ClaimsOnly : Scope → Option Scope → Type 0
ClaimsOnly scope none = Unit
ClaimsOnly scope (some claimed) = claimed ≡ scope

-- A run is partial exactly if the observation is.
abbrev pub StatusFits : SyncCoverage → SyncRunStatus → Type 0
StatusFits (SyncCoverage.partial scope reason) status = status ≡ SyncRunStatus.partial
StatusFits (SyncCoverage.authoritative_full scope) status = status ≡ SyncRunStatus.succeeded
StatusFits (SyncCoverage.incremental cursor) status = status ≡ SyncRunStatus.succeeded
StatusFits (SyncCoverage.targeted ids) status = status ≡ SyncRunStatus.succeeded

status_of-StatusFits : (coverage : SyncCoverage) → StatusFits coverage (status_of coverage)
status_of-StatusFits (SyncCoverage.partial scope reason) = refl
status_of-StatusFits (SyncCoverage.authoritative_full scope) = refl
status_of-StatusFits (SyncCoverage.incremental cursor) = refl
status_of-StatusFits (SyncCoverage.targeted ids) = refl

unfinished-IsRunning : (run : SyncRun) → finished run ≡ false → IsRunning run
unfinished-IsRunning run h = (ground arith, ground arith)

claims_only :
    (scope : Scope) (claimed : Option Scope)
    → is_some_and (λ c. c != scope) claimed ≡ false
    → ClaimsOnly scope claimed
claims_only scope none h = tt
claims_only scope (some claimed) h = ground arith

module _ {E : Type 0} where
  validate_handle-eq-ok :
      (handle : SyncRunHandle) (batch : ValidatedBatch)
      → validate_handle {E = E} handle batch.connection_id batch.sync_run_id ≡ ok tt
      → IsRunning handle.run
        × (handle.run.connection_id ≡ batch.connection_id)
        × (handle.run.sync_run_id ≡ batch.sync_run_id)
  unfolding validate_handle
  validate_handle-eq-ok handle batch h = (ground arith, ground arith, ground arith)

  validate_coverage-eq-ok :
      (handle : SyncRunHandle) (coverage : SyncCoverage)
      → validate_coverage {E = E} handle coverage ≡ ok tt
      → (compatible handle.run.mode coverage ≡ true)
        × ClaimsOnly handle.scope (claimed_scope coverage)
  unfolding validate_coverage
  validate_coverage-eq-ok handle coverage h =
      (ground arith, claims_only handle.scope (claimed_scope coverage) (ground arith))

module _ {S E : Type 0} (reader : StoreReader S E) where
  -- What `commit` hands to the writer comes from a running run, the batch's own, whose mode and scope
  -- fit the batch's coverage. It closes that run: with the batch's cursor in both places, partial
  -- exactly when the coverage is, at the given time. The run keeps its id, connection, mode, trigger,
  -- start and first cursor, it takes the coverage of the batch, and it has no error that it had not.
  pub prepare_sound :
      (store : S) (handle : SyncRunHandle) (batch : ValidatedBatch) (at : Timestamp)
      (c : SyncCommit)
      → prepare reader store handle batch at ≡ ok c
      → IsRunning handle.run
        × (handle.run.connection_id ≡ batch.connection_id)
        × (handle.run.sync_run_id ≡ batch.sync_run_id)
        × (compatible handle.run.mode batch.coverage ≡ true)
        × ClaimsOnly handle.scope (claimed_scope batch.coverage)
        × SameRun handle.run c.sync_run
        × (c.sync_run.coverage ≡ batch.coverage)
        × (c.sync_run.errors ≡ handle.run.errors)
        × StatusFits batch.coverage c.sync_run.status
        × (c.sync_run.finished_at ≡ some at)
        × (c.sync_run.cursor_after ≡ batch.next_cursor)
        × (c.cursor_after ≡ batch.next_cursor)
  unfolding prepare
  prepare_sound store handle batch at c h =
      let (_, valid, h₁) =
        >>=-eq-ok (validate_handle {E = E} handle batch.connection_id batch.sync_run_id) _ h in
      let (_, covered, h₂) =
        >>=-eq-ok (validate_coverage {E = E} handle batch.coverage)
          (λ _. build_commit reader store handle batch at) h₁ in
      let handle_is = validate_handle-eq-ok {E = E} handle batch valid in
      let coverage_is = validate_coverage-eq-ok {E = E} handle batch.coverage covered in
      let parts = build_commit-Parts reader store handle batch at c h₂ in
      (
        handle_is.0,
        handle_is.1,
        handle_is.2,
        coverage_is.0,
        coverage_is.1,
        (
          ap (λ (r : SyncRun). r.sync_run_id) parts.closed,
          ap (λ (r : SyncRun). r.connection_id) parts.closed,
          ap (λ (r : SyncRun). r.mode) parts.closed,
          ap (λ (r : SyncRun). r.trigger) parts.closed,
          ap (λ (r : SyncRun). r.started_at) parts.closed,
          ap (λ (r : SyncRun). r.cursor_before) parts.closed,
        ),
        ap (λ (r : SyncRun). r.coverage) parts.closed,
        ap (λ (r : SyncRun). r.errors) parts.closed,
        subst (StatusFits batch.coverage) (sym (ap (λ (r : SyncRun). r.status) parts.closed))
            (status_of-StatusFits batch.coverage),
        ap (λ (r : SyncRun). r.finished_at) parts.closed,
        ap (λ (r : SyncRun). r.cursor_after) parts.closed,
        parts.cursor,
      )

-- The commit of a failure: the same run, failed at this time with this error and its cursor where it
-- was, and no row, no change and no count of absences.
pub record Fails (run : SyncRun) (error : DomainError) (at : Timestamp) (c : SyncCommit)
    : Type 0 where
  pub same : SameRun run c.sync_run
  pub status : c.sync_run.status ≡ SyncRunStatus.failed
  pub finished_at : c.sync_run.finished_at ≡ some at
  pub coverage : c.sync_run.coverage ≡ run.coverage
  pub counts : c.sync_run.counts ≡ run.counts
  pub errors : c.sync_run.errors ≡ error ∷ []
  pub warnings : c.sync_run.warnings ≡ []
  pub run_cursor : c.sync_run.cursor_after ≡ run.cursor_before
  pub cursor : c.cursor_after ≡ run.cursor_before
  pub resources : c.resources ≡ []
  pub relations : c.relations ≡ []
  pub changes : c.changes ≡ []
  pub resource_versions : c.resource_versions ≡ []
  pub relation_versions : c.relation_versions ≡ []
  pub missing_evidence : c.missing_evidence ≡ none

module _ {S E : Type 0} (writer : StoreWriter S E) where
  -- What a writer with nothing pending answers to one commit.
  abbrev pub written : WriterQueue S → SyncCommit → Outcome S E CommitResult
  written queue c = (
    some (map_err store_error (writer.commit_sync queue.store c).0),
    record {
      store = (writer.commit_sync queue.store c).1;
      pending = unsettled (writer.commit_sync queue.store c).0 c;
    },
  )

  submit_commit-empty :
      (queue : WriterQueue S) (c : SyncCommit)
      → queue.pending ≡ []
      → submit_commit writer queue c ≡ written queue c
  submit_commit-empty queue c empty = rw (submit-empty writer queue c empty) refl

  pub fail-written :
      (queue : WriterQueue S) (handle : SyncRunHandle) (error : DomainError) (at : Timestamp)
      → queue.pending ≡ []
      → IsRunning handle.run
      → (c : SyncCommit) × (fail writer queue handle error at ≡ written queue c)
        × Fails handle.run error at c
  unfolding fail
  fail-written queue handle error at empty running =
      let open_run : finished handle.run ≡ false = ground arith in
      (
        failed_commit handle error at,
        rw open_run (submit_commit-empty queue (failed_commit handle error at) empty),
        record {
          same = (refl, refl, refl, refl, refl, refl);
          status = refl;
          finished_at = refl;
          coverage = refl;
          counts = refl;
          errors = refl;
          warnings = refl;
          run_cursor = refl;
          cursor = refl;
          resources = refl;
          relations = refl;
          changes = refl;
          resource_versions = refl;
          relation_versions = refl;
          missing_evidence = refl;
        },
      )

module _ {S E : Type 0} (reader : StoreReader S E) (writer : StoreWriter S E) where
  -- With nothing pending `commit` either refuses, and then neither the store nor the queue changes,
  -- or hands the store the prepared commit, whose answer it returns.
  pub commit-written :
      (queue : WriterQueue S) (handle : SyncRunHandle) (batch : ValidatedBatch) (at : Timestamp)
      → queue.pending ≡ []
      → ((error : EngineError E) × (prepare reader queue.store handle batch at ≡ err error)
          × (commit reader writer queue handle batch at ≡ (some (err error), queue)))
        ⊎ ((c : SyncCommit) × (prepare reader queue.store handle batch at ≡ ok c)
            × (commit reader writer queue handle batch at ≡ written writer queue c))
  unfolding commit
  commit-written queue handle batch at empty =
      elim (Result-cases (prepare reader queue.store handle batch at)) [
        | inr (error, refused) ↦ inl (error, refused, rw (refused, commit) refl)
        | inl (c, prepared) ↦
            inr (c, prepared, rw (prepared, commit) (submit_commit-empty writer queue c empty))
      ]
