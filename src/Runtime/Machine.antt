-- ===== src/Runtime/Machine.antt =====
-- `Runtime` of crates/next-infra-runtime/src/lib.rs: start, sleep, wake and stop.
pub mod Laws
use next_infra.Base.{ℕ, Bool, true, List, [], ◌∷◌, Text, text, Result, ok, err}
use next_infra.Core.Ids.{Timestamp}
use next_infra.Runtime.Scheduler.{Scheduler, ScheduledSync, plan_due_entries, plan_wake_catch_up}

pub data RuntimeMode : Type 0 where
  interactive background : RuntimeMode

pub data RuntimeState : Type 0 where
  new : RuntimeState
  starting running sleeping : RuntimeMode → RuntimeState
  stopping stopped failed : RuntimeState

pub record StartupReport : Type 0 where
  pub mode : RuntimeMode
  pub interrupted_runs : ℕ

pub record ShutdownReport : Type 0 where
  pub writer_drained : Bool
  pub store_checkpointed : Bool

pub data RuntimeError (E : Type 0) : Type 0 where
  invalid_state : Text → RuntimeState → RuntimeError E
  backend_error : E → RuntimeError E

pub record RuntimeBackend (B E : Type 0) : Type 0 where
  pub recover_startup : B → Timestamp → Result E ℕ × B
  pub drain_writer : B → Result E (Unit {0}) × B
  pub checkpoint_store : B → Result E (Unit {0}) × B

-- The query service is handed through; it has any type.
pub record Runtime (B Q : Type 0) : Type 0 where
  pub backend : B
  pub query : Q
  pub scheduler : Scheduler
  pub state : RuntimeState
  pub interrupted_runs : ℕ

unfoldable pub new_runtime : {B Q : Type 0} → B → Q → Scheduler → Runtime B Q
new_runtime backend query scheduler = record {
  backend = backend;
  query = query;
  scheduler = scheduler;
  state = new;
  interrupted_runs = 0;
}

module _ {B Q E : Type 0} where
  -- A method returns its result and the runtime that it leaves.
  abbrev pub refuse : {A : Type 0} → Runtime B Q → Text → Result (RuntimeError E) A × Runtime B Q
  refuse r operation = (err (invalid_state operation r.state), r)

  abbrev pub admission : Runtime B Q → RuntimeState → Result (RuntimeError E) (Unit {0})
  admission r (running mode) = ok tt
  admission r state = err (invalid_state (text "admit sync") state)

  unfoldable pub ensure_admission : Runtime B Q → Result (RuntimeError E) (Unit {0})
  ensure_admission r = admission r r.state

  abbrev pub plan_admitted :
      Runtime B Q
      → Timestamp
      → Result (RuntimeError E) (Unit {0})
      → Result (RuntimeError E) (List ScheduledSync) × Runtime B Q
  plan_admitted r now (err error) = (err error, r)
  plan_admitted r now (ok _) =
      let (plans, scheduler) = plan_due_entries r.scheduler now in
      (ok plans, record r { scheduler = scheduler })

  unfoldable pub plan_due :
      Runtime B Q → Timestamp → Result (RuntimeError E) (List ScheduledSync) × Runtime B Q
  unfolding ensure_admission
  plan_due r now = plan_admitted r now (ensure_admission r)

  abbrev pub sleep_from :
      Runtime B Q → RuntimeState → Result (RuntimeError E) (Unit {0}) × Runtime B Q
  sleep_from r (running mode) = (ok tt, record r { state = sleeping mode })
  sleep_from r state = refuse r (text "sleep")

  unfoldable pub sleep : Runtime B Q → Result (RuntimeError E) (Unit {0}) × Runtime B Q
  sleep r = sleep_from r r.state

  abbrev pub wake_from :
      Runtime B Q
      → RuntimeState
      → Timestamp
      → Result (RuntimeError E) (List ScheduledSync) × Runtime B Q
  wake_from r (sleeping mode) now =
      let (plans, scheduler) = plan_wake_catch_up r.scheduler now in
      (ok plans, record r { state = running mode; scheduler = scheduler })
  wake_from r state now = refuse r (text "wake")

  unfoldable pub wake :
      Runtime B Q → Timestamp → Result (RuntimeError E) (List ScheduledSync) × Runtime B Q
  wake r now = wake_from r r.state now

-- A call of a client.
pub data Call : Type 0 where
  start_call : RuntimeMode → Timestamp → Call
  plan_due_call : Timestamp → Call
  sleep_call : Call
  wake_call : Timestamp → Call
  stop_call : Call

-- The states `Starting` and `Stopping` last for the call of the backend only, which cannot see them.
module _ {B Q E : Type 0} (backend : RuntimeBackend B E) where
  -- What `start` makes of the recovery.
  abbrev pub recovered :
      Runtime B Q
      → RuntimeMode
      → Result E ℕ × B
      → Result (RuntimeError E) StartupReport × Runtime B Q
  recovered r mode (ok interrupted, b) = (
    ok (record { mode = mode; interrupted_runs = interrupted }),
    record r { backend = b; interrupted_runs = interrupted; state = running mode },
  )
  recovered r mode (err error, b) =
      (err (backend_error error), record r { backend = b; state = failed })

  abbrev pub start_from :
      Runtime B Q
      → RuntimeState
      → RuntimeMode
      → Timestamp
      → Result (RuntimeError E) StartupReport × Runtime B Q
  start_from r new mode at = recovered r mode (backend.recover_startup r.backend at)
  start_from r state mode at = refuse r (text "start")

  unfoldable pub start :
      Runtime B Q → RuntimeMode → Timestamp → Result (RuntimeError E) StartupReport × Runtime B Q
  start r mode at = start_from r r.state mode at

  abbrev pub checkpointed :
      Runtime B Q → Result E (Unit {0}) × B → Result (RuntimeError E) ShutdownReport × Runtime B Q
  checkpointed r (err error, b) =
      (err (backend_error error), record r { backend = b; state = failed })
  checkpointed r (ok _, b) = (
    ok (record { writer_drained = true; store_checkpointed = true }),
    record r { backend = b; state = stopped },
  )

  abbrev pub drained :
      Runtime B Q → Result E (Unit {0}) × B → Result (RuntimeError E) ShutdownReport × Runtime B Q
  drained r (err error, b) = (err (backend_error error), record r { backend = b; state = failed })
  drained r (ok _, b) = checkpointed r (backend.checkpoint_store b)

  abbrev pub stop_from :
      Runtime B Q → RuntimeState → Result (RuntimeError E) ShutdownReport × Runtime B Q
  stop_from r (running mode) = drained r (backend.drain_writer r.backend)
  stop_from r (sleeping mode) = drained r (backend.drain_writer r.backend)
  stop_from r state = refuse r (text "stop")

  unfoldable pub stop : Runtime B Q → Result (RuntimeError E) ShutdownReport × Runtime B Q
  stop r = stop_from r r.state

  -- The runtime after calls.
  unfoldable pub call : Runtime B Q → Call → Runtime B Q
  call r (start_call mode at) = (start r mode at).1
  call r (plan_due_call now) = (plan_due {E = E} r now).1
  call r sleep_call = (sleep {E = E} r).1
  call r (wake_call now) = (wake {E = E} r now).1
  call r stop_call = (stop r).1

  unfoldable pub calls : Runtime B Q → List Call → Runtime B Q
  calls r [] = r
  calls r (c ∷ cs) = calls (call r c) cs
