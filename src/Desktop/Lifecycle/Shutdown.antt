-- ===== src/Desktop/Lifecycle/Shutdown.antt =====
-- The order of a shutdown, and that it ends.
use next_infra.Base.{
  Bool, true, false, List, [], ◌∷◌, Option, none, some, ◌≡◌, refl, sym, ap, ◌∙◌, subst, arith, ◌==◌,
  if◌then◌else◌,
}
use next_infra.Desktop.Lifecycle.{
  HostLifecycle, HostState, HostEvent, host_event_eq, HostEffect, launch, graceful_exit,
  marker_pending, draining, checkpointing, stopping, new_lifecycle, launch_host, restore_window,
  react, dispatch, run, drain_completed, checkpoint_completed, runtime_stopped,
}
use next_infra.Desktop.Lifecycle.Latch.{
  IsConsistent, after_marker, react-IsConsistent, new-IsConsistent, run-IsConsistent, RefusesMcp,
  IsConsistent-RefusesMcp,
}

-- How far a shutdown has got: what was asked for last, or what was answered since.
pub data Stage : Type 0 where
  idle asked refused stored : Stage
  queue_draining queue_drained log_saving log_saved halting halted : Stage

-- What an event reports: the marker was stored or was not, the queue of writes is empty, the log of
-- the store is saved, the runtime has stopped.
abbrev pub happened : Stage → HostEvent → Stage
happened asked HostEvent.user_quit_marker_durable = stored
happened asked HostEvent.user_quit_marker_failed = refused
happened queue_draining HostEvent.drain_completed = queue_drained
happened log_saving HostEvent.checkpoint_completed = log_saved
happened halting HostEvent.runtime_stopped = halted
happened stage event = stage

-- The protocol: no step of a shutdown is taken before the step before it was reported as done, and a
-- quit is given up only if its marker was not stored. A crash ends the shutdown.
abbrev pub advance : Stage → HostEffect → Option Stage
advance idle HostEffect.persist_user_quit = some asked
advance stage HostEffect.persist_user_quit = none
advance refused HostEffect.cancel_quit = some idle
advance stage HostEffect.cancel_quit = none
advance stored HostEffect.drain_runtime = some queue_draining
advance stage HostEffect.drain_runtime = none
advance queue_drained HostEffect.checkpoint_wal = some log_saving
advance stage HostEffect.checkpoint_wal = none
advance log_saved HostEffect.stop_runtime = some halting
advance stage HostEffect.stop_runtime = none
advance halted HostEffect.exit_process = some idle
advance stage HostEffect.exit_process = none
advance stage HostEffect.record_crash = some idle
advance stage effect = some stage

abbrev pub advance_all : Option Stage → List HostEffect → Option Stage
advance_all none effects = none
advance_all (some stage) [] = some stage
advance_all (some stage) (effect ∷ effects) = advance_all (advance stage effect) effects

-- The events of a run, each with the effects that it has.
unfoldable pub trace : HostLifecycle → List HostEvent → List (HostEvent × List HostEffect)
trace l [] = []
trace l (event ∷ events) =
    let (after, transition) = dispatch l event in (event, transition.effects) ∷ trace after events

abbrev pub follow : Option Stage → List (HostEvent × List HostEffect) → Option Stage
follow none steps = none
follow (some stage) [] = some stage
follow (some stage) ((event, effects) ∷ steps) =
    follow (advance_all (some (happened stage event)) effects) steps

abbrev pub stage_of : HostState → Stage
stage_of (graceful_exit marker_pending) = asked
stage_of (graceful_exit draining) = queue_draining
stage_of (graceful_exit checkpointing) = log_saving
stage_of (graceful_exit stopping) = halting
stage_of state = idle

react-advances :
    (l : HostLifecycle) (state : HostState) (event : HostEvent)
    → l.state ≡ state
    → IsConsistent l
    → advance_all (some (happened (stage_of state) event)) (react l state event).1
      ≡ some (stage_of (react l state event).0.state)
unfolding react launch_host restore_window
react-advances l state event at h = ground arith

run-follow :
    (l : HostLifecycle) (events : List HostEvent)
    → IsConsistent l
    → follow (some (stage_of l.state)) (trace l events) ≡ some (stage_of (run l events).0.state)
unfolding run trace dispatch
run-follow l [] h = refl
run-follow l (event ∷ events) h =
    let after = (react l l.state event).0 in
    ap (λ stage. follow stage (trace after events)) (react-advances l l.state event refl h)
    ∙ run-follow after events (react-IsConsistent l l.state event refl h)

-- Whatever happens to a host after it was made, its effects follow the protocol of a shutdown: the
-- runtime is drained only after the quit was reported as stored, the log is checkpointed only after
-- the drain was reported as completed, the runtime is stopped only after the checkpoint was, and the
-- process exits only after the runtime has stopped, with nothing left out; a quit is given up only
-- if its marker was reported as failed. The host's state says how far the shutdown got.
pub run-follows :
    (latched : Bool) (events : List HostEvent)
    → follow (some idle) (trace (new_lifecycle latched) events)
      ≡ some (stage_of (run (new_lifecycle latched) events).0.state)
unfolding new_lifecycle
run-follows true events = run-follow (new_lifecycle true) events (new-IsConsistent true)
run-follows false events = run-follow (new_lifecycle false) events (new-IsConsistent false)

-- What a shutdown past its marker still waits for.
abbrev pub waits_for : HostState → List HostEvent
waits_for (graceful_exit draining) = drain_completed ∷ checkpoint_completed ∷ runtime_stopped ∷ []
waits_for (graceful_exit checkpointing) = checkpoint_completed ∷ runtime_stopped ∷ []
waits_for (graceful_exit stopping) = runtime_stopped ∷ []
waits_for state = []

-- The awaited events occur, in this order, with any others between them.
abbrev pub occur : List HostEvent → List HostEvent → Bool
occur [] events = true
occur (x ∷ xs) [] = false
occur (x ∷ xs) (event ∷ events) =
    let found = occur xs events in
    let later = occur (x ∷ xs) events in if event == x then found else later

abbrev pub no_launch : List HostEvent → Bool
no_launch [] = true
no_launch (launch source ∷ events) = false
no_launch (event ∷ events) = no_launch events

react-waits :
    (l : HostLifecycle) (state : HostState) (event : HostEvent) (events : List HostEvent)
    → l.state ≡ state
    → after_marker state ≡ true
    → no_launch (event ∷ events) ≡ true
    → occur (waits_for state) (event ∷ events) ≡ true
    → (after_marker (react l state event).0.state ≡ true)
      × (no_launch events ≡ true)
      × (occur (waits_for (react l state event).0.state) events ≡ true)
unfolding react
react-waits l state event events at past quiet awaited = ground arith

run-past :
    (l : HostLifecycle) (events : List HostEvent)
    → after_marker l.state ≡ true
    → no_launch events ≡ true
    → occur (waits_for l.state) events ≡ true
    → (run l events).0.state ≡ HostState.user_quit_latched
unfolding run dispatch
run-past l [] past quiet awaited = ground arith
run-past l (event ∷ events) past quiet awaited =
    let (past', quiet', awaited') = react-waits l l.state event events refl past quiet awaited in
    run-past (react l l.state event).0 events past' quiet' awaited'

-- A shutdown whose marker is durable ends: with no launch, and with the end of the drain, of the
-- checkpoint and of the runtime in this order and any other events between them, crashes included,
-- a host comes to rest with the user's quit latched, and MCP launches are refused from then on.
pub run-ends :
    (l : HostLifecycle) (events : List HostEvent)
    → IsConsistent l
    → l.state ≡ graceful_exit draining
    → no_launch events ≡ true
    → occur (drain_completed ∷ checkpoint_completed ∷ runtime_stopped ∷ []) events ≡ true
    → ((run l events).0.state ≡ HostState.user_quit_latched) × RefusesMcp (run l events).0
run-ends l events h at quiet awaited =
    let ended =
      run-past l events (ap after_marker at) quiet
        (subst (λ state. occur (waits_for state) events ≡ true) (sym at) awaited) in
    let consistent = run-IsConsistent l events h in
    (ended, IsConsistent-RefusesMcp _ consistent (consistent.0 ∙ ap after_marker ended))
