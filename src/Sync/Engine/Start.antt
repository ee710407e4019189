-- ===== src/Sync/Engine/Start.antt =====
-- `start` persists the run that it returns, and that run may be committed.
use next_infra.Base.{
  true, [], List, Option, ok, ◌≡◌, refl, sym, ◌∙◌, ap, arith, subst, text_eq, map_err, >>=-eq-ok,
  map_err-eq-ok, ok-injective, inl, inr, Result-cases, text,
}
use next_infra.Core.Error.{DomainError}
use next_infra.Core.Ids.{ConnectionId, Timestamp, Scope, SyncCursor, string_value}
use next_infra.Core.Status.{SyncMode}
use next_infra.Core.Coverage.{SyncCoverage}
use next_infra.Core.Model.{Connection, SyncRun}
use next_infra.Core.Ports.{SyncCommit, StoreReader, StoreWriter}
use next_infra.ConnectorApi.Observation.{ResourceLocator, compatible}
use next_infra.Sync.Writer.{WriterQueue}
use next_infra.Sync.Guards.{
  SyncRunHandle, SyncRunStart, claimed_scope, initial_coverage, targeted_ids,
}
use next_infra.Sync.Build.Draft.{EngineError, store_error, domain_error}
use next_infra.Sync.Engine.{open_run, start, fail}
use next_infra.Sync.Engine.Runs.{Fails, fail-written, written, IsRunning, ClaimsOnly}

module _ {E : Type 0} where
  -- The coverage that a run starts with fits its mode and its scope.
  initial_coverage-fits :
      (mode : SyncMode) (connection_id : ConnectionId) (scope : Scope) (cursor : Option SyncCursor)
      (targeted : List ResourceLocator) (coverage : SyncCoverage)
      → initial_coverage {E = E} mode connection_id scope cursor targeted ≡ ok coverage
      → (compatible mode coverage ≡ true) × ClaimsOnly scope (claimed_scope coverage)
  unfolding initial_coverage compatible
  initial_coverage-fits SyncMode.full connection_id scope cursor targeted coverage h = ground arith
  initial_coverage-fits SyncMode.incremental connection_id scope cursor targeted coverage h =
      let (initial, valid, h₁) =
        >>=-eq-ok
          (map_err {F = EngineError E} domain_error (string_value "SyncCursor" (text "initial"))) _
          h in
      ground (arith, h₁)
  initial_coverage-fits SyncMode.targeted connection_id scope cursor targeted coverage h =
      let (ids, valid, h₁) =
        >>=-eq-ok (map_err {F = EngineError E} domain_error (targeted_ids connection_id targeted)) _
          h in
      ground (arith, h₁)

module _ {S E : Type 0} (reader : StoreReader S E) where
  -- What `open_run` returns is running, and its own coverage passes the guard of `commit`.
  record Opened (store : S) (connection : Connection) (request : SyncRunStart) (run : SyncRun)
      : Type 0 where
    running : IsRunning run
    identified : run.sync_run_id ≡ request.sync_run_id
    connected : run.connection_id ≡ connection.connection_id
    cursor : reader.sync_cursor store connection.connection_id ≡ ok run.cursor_before
    fits : compatible run.mode run.coverage ≡ true
    claims : ClaimsOnly request.scope (claimed_scope run.coverage)

  open_run-Opened :
      (store : S) (connection : Connection) (request : SyncRunStart) (run : SyncRun)
      → open_run reader store connection request ≡ ok run
      → Opened store connection request run
  unfolding open_run
  open_run-Opened store connection request run h =
      let (cursor, read, h₁) =
        >>=-eq-ok (map_err store_error (reader.sync_cursor store connection.connection_id)) _ h in
      let (coverage, covered, h₂) =
        >>=-eq-ok
          (initial_coverage {E = E} request.mode connection.connection_id request.scope cursor
            request.targeted_resources)
          _ h₁ in
      let fits =
        initial_coverage-fits {E = E} request.mode connection.connection_id request.scope cursor
          request.targeted_resources coverage covered in
      subst (Opened store connection request) (ok-injective {E = EngineError E} _ run h₂) (record {
        running = (refl, refl);
        identified = refl;
        connected = refl;
        cursor = map_err-eq-ok store_error _ read;
        fits = fits.0;
        claims = fits.1;
      })

module _ {S E : Type 0} (reader : StoreReader S E) (writer : StoreWriter S E) where
  started-eq-ok :
      (queue after : WriterQueue S) (connection : Connection) (request : SyncRunStart)
      (run : SyncRun) (handle : SyncRunHandle)
      → open_run reader queue.store connection request ≡ ok run
      → start reader writer queue connection request ≡ (ok handle, after)
      → (handle ≡ record { run = run; scope = request.scope })
        × ((writer.start_sync_run queue.store run).0 ≡ ok tt)
        × (after ≡ record queue { store = (writer.start_sync_run queue.store run).1 })
  unfolding start
  started-eq-ok queue after connection request run handle opened h =
      elim (Result-cases (writer.start_sync_run queue.store run).0) [
        | inl (_, done) ↦ (ground arith, ground arith, ground arith)
        | inr (e, refused) ↦ absurd (ground arith)
      ]

  -- A started run is running and not finished, under the given id and of the given connection, with
  -- the cursor that the store has for the connection. The store was handed exactly this run and
  -- accepted it, the pending commits are untouched, and the coverage that the run starts with fits its
  -- mode and claims no scope but the handle's.
  pub start_sound :
      (queue after : WriterQueue S) (connection : Connection) (request : SyncRunStart)
      (handle : SyncRunHandle)
      → start reader writer queue connection request ≡ (ok handle, after)
      → IsRunning handle.run
        × (handle.scope ≡ request.scope)
        × (handle.run.sync_run_id ≡ request.sync_run_id)
        × (handle.run.connection_id ≡ connection.connection_id)
        × (reader.sync_cursor queue.store connection.connection_id ≡ ok handle.run.cursor_before)
        × ((writer.start_sync_run queue.store handle.run).0 ≡ ok tt)
        × (after.store ≡ (writer.start_sync_run queue.store handle.run).1)
        × (after.pending ≡ queue.pending)
        × (compatible handle.run.mode handle.run.coverage ≡ true)
        × ClaimsOnly handle.scope (claimed_scope handle.run.coverage)
  unfolding start
  start_sound queue after connection request handle h =
      elim (Result-cases (open_run reader queue.store connection request)) [
        | inr (e, refused) ↦ absurd (ground arith)
        | inl (run, opened) ↦
            let (is_handle, accepted, is_after) =
              started-eq-ok queue after connection request run handle opened h in
            let o = open_run-Opened reader queue.store connection request run opened in
            subst
              (λ (x : SyncRunHandle).
                IsRunning x.run
                × (x.scope ≡ request.scope)
                × (x.run.sync_run_id ≡ request.sync_run_id)
                × (x.run.connection_id ≡ connection.connection_id)
                × (reader.sync_cursor queue.store connection.connection_id ≡ ok x.run.cursor_before)
                × ((writer.start_sync_run queue.store x.run).0 ≡ ok tt)
                × (after.store ≡ (writer.start_sync_run queue.store x.run).1)
                × (after.pending ≡ queue.pending)
                × (compatible x.run.mode x.run.coverage ≡ true)
                × ClaimsOnly x.scope (claimed_scope x.run.coverage))
              (sym is_handle)
              (
                o.running,
                refl,
                o.identified,
                o.connected,
                o.cursor,
                accepted,
                ap (λ (q : WriterQueue S). q.store) is_after,
                ap (λ (q : WriterQueue S). q.pending) is_after,
                o.fits,
                o.claims,
              )
      ]

  -- With nothing pending, failing a run that was started hands the store one commit, whose answer is
  -- returned: the run of the request on its connection, with nothing but its end changed, failed at
  -- this time with this error. Its cursor, and the one that the commit sets, is what the store had for
  -- the connection before the start, and the commit has no row, no change and no count of absences.
  pub fail-start :
      (queue after : WriterQueue S) (connection : Connection) (request : SyncRunStart)
      (handle : SyncRunHandle) (error : DomainError) (at : Timestamp)
      → queue.pending ≡ []
      → start reader writer queue connection request ≡ (ok handle, after)
      → (c : SyncCommit) × (fail writer after handle error at ≡ written writer after c)
        × (after.store ≡ (writer.start_sync_run queue.store handle.run).1)
        × Fails handle.run error at c
        × (c.sync_run.sync_run_id ≡ request.sync_run_id)
        × (c.sync_run.connection_id ≡ connection.connection_id)
        × (reader.sync_cursor queue.store connection.connection_id ≡ ok c.sync_run.cursor_after)
        × (reader.sync_cursor queue.store connection.connection_id ≡ ok c.cursor_after)
  fail-start queue after connection request handle error at empty h =
      let (running, _, named, connected, cursor, _, stored, pending, _, _) =
        start_sound queue after connection request handle h in
      let (c, wrote, fails) = fail-written writer after handle error at (pending ∙ empty) running in
      (
        c,
        wrote,
        stored,
        fails,
        fails.same.0 ∙ named,
        fails.same.1 ∙ connected,
        cursor ∙ ap ok (sym fails.run_cursor),
        cursor ∙ ap ok (sym fails.cursor),
      )
