-- ===== src/Sync/Guards.antt =====
-- Run handles and the guards of crates/next-infra-sync/src/engine.rs: who may commit what, and the
-- coverage that a run starts with.
use next_infra.Base.{
  Bool, not, ◌||◌, List, [], ◌∷◌, Option, none, some, text, text_eq, Result, ok, ◌>>=◌, ◌>>◌,
  map_err, reject_if, ◌!=◌,
}
use next_infra.Core.Error.{DomainError, invalid_value}
use next_infra.Core.Ids.{
  ConnectionId, ResourceId, Scope, SyncCursor, SyncRunId, Timestamp, string_value,
}
use next_infra.Core.Status.{SyncMode, SyncTrigger, SyncRunStatus, sync_run_status_eq}
use next_infra.Core.Coverage.{SyncCoverage}
use next_infra.Core.Model.{SyncRun}
use next_infra.ConnectorApi.Observation.{ResourceLocator, compatible}
use next_infra.Sync.Identity.{stable_resource_id_from_locator}
use next_infra.Sync.Project.{is_none, is_some_and}
use next_infra.Sync.Build.Draft.{EngineError, domain_error, invalid_run}

pub record SyncRunHandle : Type 0 where
  pub run : SyncRun
  pub scope : Scope

pub record SyncRunStart : Type 0 where
  pub sync_run_id : SyncRunId
  pub mode : SyncMode
  pub trigger : SyncTrigger
  pub scope : Scope
  pub started_at : Timestamp
  pub targeted_resources : List ResourceLocator

-- The guard that `validate_handle` and `fail` share: the run must be running.
abbrev pub finished : SyncRun → Bool
finished run = (run.status != SyncRunStatus.running) || not (is_none run.finished_at)

-- The scope that a coverage claims, if it claims one.
abbrev pub claimed_scope : SyncCoverage → Option Scope
claimed_scope (SyncCoverage.authoritative_full scope) = some scope
claimed_scope (SyncCoverage.partial scope reason) = scope
claimed_scope (SyncCoverage.incremental cursor) = none
claimed_scope (SyncCoverage.targeted resource_ids) = none

unfoldable pub targeted_ids :
    ConnectionId → List ResourceLocator → Result DomainError (List ResourceId)
targeted_ids connection_id [] = ok []
targeted_ids connection_id (locator ∷ rest) = do
  id ← stable_resource_id_from_locator connection_id locator
  ids ← targeted_ids connection_id rest
  ok (id ∷ ids)

abbrev or_initial : Option SyncCursor → SyncCursor → SyncCursor
or_initial (some cursor) initial = cursor
or_initial none initial = initial

module _ {E : Type 0} where
  unfoldable pub validate_handle :
      SyncRunHandle → ConnectionId → SyncRunId → Result (EngineError E) (Unit {0})
  validate_handle handle connection_id sync_run_id = do
    reject_if (finished handle.run) (invalid_run (text "commit requires a running SyncRun"))
    reject_if
        ((handle.run.connection_id != connection_id) || (handle.run.sync_run_id != sync_run_id))
        (invalid_run (text "validated batch provenance does not match SyncRun"))

  unfoldable pub validate_coverage :
      SyncRunHandle → SyncCoverage → Result (EngineError E) (Unit {0})
  validate_coverage handle coverage = do
    reject_if (not (compatible handle.run.mode coverage))
        (domain_error (invalid_value (text "validated coverage is incompatible with SyncRun mode")))
    reject_if (is_some_and (λ scope. scope != handle.scope) (claimed_scope coverage)) (
        domain_error (invalid_value (text "validated coverage scope does not match SyncRun scope")))

  -- `INITIAL_CURSOR` is validated also where a cursor is stored: `unwrap_or` takes a value.
  unfoldable pub initial_coverage :
      SyncMode
      → ConnectionId
      → Scope
      → Option SyncCursor
      → List ResourceLocator
      → Result (EngineError E) SyncCoverage
  unfolding targeted_ids
  initial_coverage SyncMode.full connection_id scope cursor_before targeted =
      ok (SyncCoverage.authoritative_full scope)
  initial_coverage SyncMode.incremental connection_id scope cursor_before targeted = do
    initial ← map_err domain_error (string_value "SyncCursor" (text "initial"))
    ok (SyncCoverage.incremental (or_initial cursor_before initial))
  initial_coverage SyncMode.targeted connection_id scope cursor_before targeted = do
    ids ← map_err domain_error (targeted_ids connection_id targeted)
    ok (SyncCoverage.targeted ids)
