-- ===== src/Desktop/Lifecycle/Latch.antt =====
-- When the user's quit is latched, and what the latch refuses.
use next_infra.Base.{Bool, true, false, List, [], ◌∷◌, Option, none, some, ◌≡◌, refl, arith}
use next_infra.Desktop.Lifecycle.{
  HostLifecycle, HostState, HostEvent, HostEffect, launch, mcp_authorized, graceful_exit,
  marker_pending, new_lifecycle, launch_host, restore_window, react, dispatch, run,
}

-- The states between the durable marker and the next start by the user.
abbrev pub after_marker : HostState → Bool
after_marker HostState.user_quit_latched = true
after_marker (graceful_exit marker_pending) = false
after_marker (graceful_exit phase) = true
after_marker state = false

abbrev pub is_window : HostState → Bool
is_window HostState.window_visible = true
is_window HostState.window_hidden = true
is_window HostState.background_only = true
is_window state = false

-- The state to return to, while the marker is being written.
abbrev pub returns : HostState → Option HostState → Bool
returns (graceful_exit marker_pending) none = false
returns (graceful_exit marker_pending) (some state) = is_window state
returns state previous = true

abbrev pub IsConsistent : HostLifecycle → Type 0
IsConsistent l = (l.latched ≡ after_marker l.state) × (returns l.state l.pre_quit_state ≡ true)

pub react-IsConsistent :
    (l : HostLifecycle) (state : HostState) (event : HostEvent)
    → l.state ≡ state
    → IsConsistent l
    → IsConsistent (react l state event).0
unfolding react launch_host restore_window
react-IsConsistent l state event at h = ground arith

pub new-IsConsistent : (latched : Bool) → IsConsistent (new_lifecycle latched)
unfolding new_lifecycle
new-IsConsistent true = (refl, refl)
new-IsConsistent false = (refl, refl)

pub run-IsConsistent :
    (l : HostLifecycle) (events : List HostEvent) → IsConsistent l → IsConsistent (run l events).0
unfolding run dispatch
run-IsConsistent l [] h = h
run-IsConsistent l (event ∷ events) h =
    run-IsConsistent (react l l.state event).0 events (react-IsConsistent l l.state event refl h)

abbrev pub starts : List HostEffect → Bool
starts [] = false
starts (HostEffect.start_runtime_interactive ∷ effects) = true
starts (HostEffect.start_runtime_background ∷ effects) = true
starts (effect ∷ effects) = starts effects

-- An MCP launch changes nothing and starts nothing.
abbrev pub RefusesMcp : HostLifecycle → Type 0
RefusesMcp l =
    ((dispatch l (launch mcp_authorized)).0 ≡ l)
    × (starts (dispatch l (launch mcp_authorized)).1.effects ≡ false)

react-refuses :
    (l : HostLifecycle) (state : HostState)
    → IsConsistent l
    → l.state ≡ state
    → l.latched ≡ true
    → (react l state (launch mcp_authorized)).0 ≡ l
      × (starts (react l state (launch mcp_authorized)).1 ≡ false)
unfolding react launch_host
react-refuses l state h at latched = ground arith

pub IsConsistent-RefusesMcp : (l : HostLifecycle) → IsConsistent l → l.latched ≡ true → RefusesMcp l
unfolding dispatch
IsConsistent-RefusesMcp l h latched = react-refuses l l.state h refl latched

-- Whatever has happened to a host since it was made, its quit is latched exactly in the phases after
-- the durable marker and when they are over, and a host that waits for the marker knows the window
-- state to return to. While the quit is latched, an MCP launch changes nothing and starts nothing.
pub run-latch :
    (latched : Bool) (events : List HostEvent)
    → IsConsistent (run (new_lifecycle latched) events).0
      × ((run (new_lifecycle latched) events).0.latched ≡ true
          → RefusesMcp (run (new_lifecycle latched) events).0)
run-latch latched events =
    let h = run-IsConsistent (new_lifecycle latched) events (new-IsConsistent latched) in
    (h, IsConsistent-RefusesMcp _ h)
