-- ===== src/Runtime/Sqlite.antt =====
-- `SqliteRuntimeBackend` of crates/next-infra-runtime/src/lib.rs, over the queue of the sync engine.
-- The lock of the shared store is never poisoned: a panic under it is not modelled.
use next_infra.Base.{ℕ, true, List, [], Result, ok, err, ◌≡◌, refl, arith}
use next_infra.Core.Ids.{Timestamp}
use next_infra.Core.Ports.{CommitResult, StoreWriter}
use next_infra.Sync.Writer.{WriterQueue, flush}
use next_infra.Sync.Writer.Order.{Commits, Flushed, flush-Flushed}
use next_infra.Runtime.Machine
use next_infra.Runtime.Machine.{
  RuntimeBackend, RuntimeState, Runtime, RuntimeError, ShutdownReport, backend_error, running,
  sleeping, stop, Call, calls,
}
use next_infra.Runtime.Machine.Laws.{is_live, is_over, calls-over}

module _ {S E : Type 0} (writer : StoreWriter S E)
    (checkpoint_wal : S → Result E (Unit {0}) × S) where
  abbrev pub unit_of : Result E (List CommitResult) → Result E (Unit {0})
  unit_of (ok results) = ok tt
  unit_of (err error) = err error

  abbrev pub drain_queue : WriterQueue S → Result E (Unit {0}) × WriterQueue S
  drain_queue queue = (unit_of (flush writer queue).0, (flush writer queue).1)

  abbrev pub recover_queue : WriterQueue S → Timestamp → Result E ℕ × WriterQueue S
  recover_queue queue at =
      let (marked, store) = writer.mark_running_syncs_interrupted queue.store at in
      (marked, record queue { store = store })

  -- The checkpoint moves the log into the database, so it leaves another store.
  abbrev pub checkpoint_queue : WriterQueue S → Result E (Unit {0}) × WriterQueue S
  checkpoint_queue queue =
      let (saved, store) = checkpoint_wal queue.store in (saved, record queue { store = store })

  abbrev pub sqlite_backend : RuntimeBackend (WriterQueue S) E
  sqlite_backend = record {
    recover_startup = recover_queue;
    drain_writer = drain_queue;
    checkpoint_store = checkpoint_queue;
  }

  abbrev pub clean : ShutdownReport
  clean = record { writer_drained = true; store_checkpointed = true }

  -- What stopping a live runtime may come to.
  pub data Ended {Q : Type 0} (r : Runtime (WriterQueue S) Q)
      : Result (RuntimeError E) ShutdownReport → Runtime (WriterQueue S) Q → Type 0 where
    cleanly :
        {rs : List CommitResult} {t u : S}
        → Commits writer r.backend.store r.backend.pending rs t
        → checkpoint_wal t ≡ (ok tt, u)
        → Ended r (ok clean) (record r {
          backend = record { store = u; pending = [] };
          state = RuntimeState.stopped;
        })
    without_checkpoint :
        {rs : List CommitResult} {t u : S} {e : E}
        → Commits writer r.backend.store r.backend.pending rs t
        → checkpoint_wal t ≡ (err e, u)
        → Ended r
            (err (backend_error e))
            (record r { backend = record { store = u; pending = [] }; state = RuntimeState.failed })
    while_draining :
        {queue : WriterQueue S} {e : E}
        → Flushed writer r.backend.store r.backend.pending (err e) queue
        → Ended r
            (err (backend_error e))
            (record r { backend = queue; state = RuntimeState.failed })

  checked-Ended :
      {Q : Type 0} (r : Runtime (WriterQueue S) Q) {rs : List CommitResult} {t : S}
      → Commits writer r.backend.store r.backend.pending rs t
      → (saved : Result E (Unit {0})) (u : S) → checkpoint_wal t ≡ (saved, u)
      → Ended r
          (Machine.checkpointed sqlite_backend r (saved, record { store = u; pending = [] })).0
          (Machine.checkpointed sqlite_backend r (saved, record { store = u; pending = [] })).1
  checked-Ended r commits (ok _) u saved = cleanly commits saved
  checked-Ended r commits (err e) u unsaved = without_checkpoint commits unsaved

  Flushed-Ended :
      {Q : Type 0} (r : Runtime (WriterQueue S) Q) {result : Result E (List CommitResult)}
      {queue : WriterQueue S}
      → Flushed writer r.backend.store r.backend.pending result queue
      → Ended r
          (Machine.drained sqlite_backend r (unit_of result, queue)).0
          (Machine.drained sqlite_backend r (unit_of result, queue)).1
  Flushed-Ended r (Flushed.drained {t = t} commits) =
      checked-Ended r commits (checkpoint_wal t).0 (checkpoint_wal t).1 refl
  Flushed-Ended r (Flushed.stopped before c rest at commits refused) =
      while_draining (Flushed.stopped before c rest at commits refused)

  stop_from-Ended :
      {Q : Type 0} (r : Runtime (WriterQueue S) Q) (state : RuntimeState)
      → is_live state ≡ true
      → Ended r
          (Machine.stop_from sqlite_backend r state).0
          (Machine.stop_from sqlite_backend r state).1
  stop_from-Ended r (running mode) live = Flushed-Ended r (flush-Flushed writer r.backend)
  stop_from-Ended r (sleeping mode) live = Flushed-Ended r (flush-Flushed writer r.backend)
  stop_from-Ended r RuntimeState.new live = absurd (ground arith)
  stop_from-Ended r (RuntimeState.starting mode) live = absurd (ground arith)
  stop_from-Ended r RuntimeState.stopping live = absurd (ground arith)
  stop_from-Ended r RuntimeState.stopped live = absurd (ground arith)
  stop_from-Ended r RuntimeState.failed live = absurd (ground arith)

  Ended-over :
      {Q : Type 0} {r after : Runtime (WriterQueue S) Q}
      {result : Result (RuntimeError E) ShutdownReport}
      → Ended r result after
      → is_over after.state ≡ true
  Ended-over (cleanly commits saved) = refl
  Ended-over (without_checkpoint commits unsaved) = refl
  Ended-over (while_draining flushed) = refl

  -- Stopping a live runtime writes its pending commits in order and then checkpoints the store once,
  -- and is reported as clean only if all of that succeeded. If a commit fails, it and all after it stay
  -- pending, and the store is left as the commits before it and the failed one left it, without a
  -- checkpoint. Whatever came of it, no later call has any effect.
  pub stop-Ended :
      {Q : Type 0} (r : Runtime (WriterQueue S) Q)
      → is_live r.state ≡ true
      → Ended r (stop sqlite_backend r).0 (stop sqlite_backend r).1
        × ((cs : List Call)
            → calls sqlite_backend (stop sqlite_backend r).1 cs ≡ (stop sqlite_backend r).1)
  unfolding stop
  stop-Ended r live =
      let ended = stop_from-Ended r r.state live in
      (ended, λ cs. calls-over sqlite_backend (stop sqlite_backend r).1 cs (Ended-over ended))
