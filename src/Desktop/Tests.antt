-- ===== src/Desktop/Tests.antt =====
-- The theorems on the desktop host at concrete inputs.
use next_infra.Base.{true, false, List, [], ◌∷◌, some, none, ◌≡◌, refl}
use next_infra.Desktop.Lifecycle.{
  HostLifecycle, HostState, HostEvent, graceful_exit, draining, drain_completed,
  checkpoint_completed, runtime_stopped, web_view_reload, launch, user_interactive, runtime_ready,
  explicit_quit, user_quit_marker_durable, HostEvent-discrete, run, new_lifecycle,
}
use next_infra.Desktop.Lifecycle.Shutdown.{run-ends}
use next_infra.Desktop.Lifecycle.Latch.{RefusesMcp, run-latch, IsConsistent}
use next_infra.Desktop.Lifecycle.Shutdown.{follow, trace, idle, stage_of, run-follows}

abbrev quitting : HostLifecycle
quitting = record { state = graceful_exit draining; latched = true; pre_quit_state = none }

abbrev ending : List HostEvent
ending = drain_completed ∷ web_view_reload ∷ checkpoint_completed ∷ runtime_stopped ∷ []

run-ends_example :
    ((run quitting ending).0.state ≡ HostState.user_quit_latched)
    × RefusesMcp (run quitting ending).0
unfolding HostEvent-discrete
run-ends_example = run-ends quitting ending (refl, refl) refl refl refl

abbrev history : List HostEvent
history = launch user_interactive ∷ runtime_ready ∷ explicit_quit ∷ user_quit_marker_durable ∷ []

run-latch_example :
    IsConsistent (run (new_lifecycle true) history).0
    × ((run (new_lifecycle true) history).0.latched ≡ true
        → RefusesMcp (run (new_lifecycle true) history).0)
run-latch_example = run-latch true history

run-follows_example :
    follow (some idle) (trace (new_lifecycle false) history)
    ≡ some (stage_of (run (new_lifecycle false) history).0.state)
run-follows_example = run-follows false history
