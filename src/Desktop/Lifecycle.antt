-- ===== src/Desktop/Lifecycle.antt =====
-- apps/desktop/src-tauri/src/host/lifecycle.rs: the state machine of the host.
pub mod Latch
pub mod Shutdown
use next_infra.Base.{Bool, true, false, List, [], ◌∷◌, ◌++◌, Option, none, some, Eq, if◌then◌else◌}

pub data ShutdownPhase : Type 0 where
  marker_pending draining checkpointing stopping : ShutdownPhase

pub data HostState : Type 0 where
  not_running starting_interactive starting_background : HostState
  window_visible window_hidden background_only : HostState
  graceful_exit : ShutdownPhase → HostState
  user_quit_latched : HostState

pub data LaunchSource : Type 0 where
  user_interactive login_autostart mcp_authorized : LaunchSource

pub data SecondInstanceIntent : Type 0 where
  interactive login_autostart_tuple mcp_background_tuple unknown : SecondInstanceIntent

pub data HostEvent : Type 0 where
  launch : LaunchSource → HostEvent
  runtime_ready : HostEvent
  second_instance : SecondInstanceIntent → HostEvent
  window_close_requested tray_restore dock_reopen explicit_quit : HostEvent
  user_quit_marker_durable user_quit_marker_failed drain_completed : HostEvent
  checkpoint_completed runtime_stopped runtime_crash web_view_reload : HostEvent

unfoldable pub HostEvent-discrete : Discrete HostEvent
HostEvent-discrete = hlevel

instance abbrev pub host_event_eq : Eq HostEvent
host_event_eq = record { decides = HostEvent-discrete }

pub data HostEffect : Type 0 where
  start_runtime_interactive start_runtime_background create_tray create_window : HostEffect
  set_regular_activation prevent_window_close hide_window show_window : HostEffect
  unminimize_window focus_window requery_after_restore requery_after_reload : HostEffect
  activate_existing_instance persist_user_quit clear_user_quit reject_mcp_launch : HostEffect
  drain_runtime checkpoint_wal stop_runtime exit_process cancel_quit : HostEffect
  record_crash ignore_background_second_instance ignored : HostEffect

pub record HostLifecycle : Type 0 where
  pub state : HostState
  pub latched : Bool
  pub pre_quit_state : Option HostState

pub record Transition : Type 0 where
  pub from_state : HostState
  pub to_state : HostState
  pub effects : List HostEffect

unfoldable pub new_lifecycle : Bool → HostLifecycle
new_lifecycle latched = record {
  state = if latched then user_quit_latched else not_running;
  latched = latched;
  pre_quit_state = none;
}

unfoldable pub runtime_running : HostState → Bool
runtime_running not_running = false
runtime_running starting_interactive = true
runtime_running starting_background = true
runtime_running window_visible = true
runtime_running window_hidden = true
runtime_running background_only = true
runtime_running (graceful_exit phase) = true
runtime_running user_quit_latched = false

-- A method that changes the lifecycle returns it with the effects that it pushes.
abbrev pub Reaction : Type 0
Reaction = HostLifecycle × List HostEffect

abbrev pub go : HostLifecycle → HostState → List HostEffect → Reaction
go l state effects = (record l { state = state }, effects)

unfoldable pub clear_marker_if_latched : HostLifecycle → Reaction
clear_marker_if_latched l =
    if l.latched then (record l { latched = false }, clear_user_quit ∷ []) else (l, [])

unfoldable pub launch_host : HostLifecycle → LaunchSource → Reaction
unfolding clear_marker_if_latched
launch_host l user_interactive =
    let (cleared, effects) = clear_marker_if_latched (record l { state = starting_interactive }) in
    (cleared, effects ++ start_runtime_interactive ∷ [])
launch_host l login_autostart =
    let (cleared, effects) = clear_marker_if_latched (record l { state = starting_background }) in
    (cleared, effects ++ start_runtime_background ∷ [])
launch_host l mcp_authorized =
    if l.latched
    then go l user_quit_latched (reject_mcp_launch ∷ [])
    else go l starting_background (start_runtime_background ∷ [])

abbrev shown : HostState → List HostEffect
shown background_only = create_window ∷ []
shown window_visible = []
shown state = show_window ∷ unminimize_window ∷ []

unfoldable pub restore_window : HostLifecycle → Reaction
restore_window l =
    go l window_visible
      (set_regular_activation ∷ (shown l.state ++ focus_window ∷ requery_after_restore ∷ []))

abbrev pub second : HostLifecycle → SecondInstanceIntent → Reaction
second l login_autostart_tuple = (l, ignore_background_second_instance ∷ [])
second l mcp_background_tuple = (l, ignore_background_second_instance ∷ [])
second l intent =
    let (restored, effects) = restore_window l in
    (restored, effects ++ activate_existing_instance ∷ [])

abbrev pub quit : HostLifecycle → Reaction
quit l = (
  record l { state = graceful_exit marker_pending; pre_quit_state = some l.state },
  persist_user_quit ∷ [],
)

abbrev pub crash : HostLifecycle → Reaction
crash l = go l not_running (record_crash ∷ [])

abbrev pub resume : Option HostState → HostState
resume none = window_visible
resume (some state) = state

-- The arms of the match, by the state and then by the event.
unfoldable pub react : HostLifecycle → HostState → HostEvent → Reaction
react l user_quit_latched (launch mcp_authorized) = (l, reject_mcp_launch ∷ [])
react l user_quit_latched (launch source) = launch_host l source
react l not_running (launch source) = launch_host l source
react l starting_interactive runtime_ready =
    go l window_visible (create_tray ∷ create_window ∷ set_regular_activation ∷ focus_window ∷ [])
react l starting_interactive runtime_crash = crash l
react l starting_background runtime_ready = go l background_only (create_tray ∷ [])
react l starting_background runtime_crash = crash l
react l window_visible (second_instance intent) = second l intent
react l window_visible window_close_requested =
    go l window_hidden (prevent_window_close ∷ hide_window ∷ [])
react l window_visible tray_restore =
    (l, set_regular_activation ∷ focus_window ∷ requery_after_restore ∷ [])
react l window_visible dock_reopen =
    (l, set_regular_activation ∷ focus_window ∷ requery_after_restore ∷ [])
react l window_visible explicit_quit = quit l
react l window_visible runtime_crash = crash l
react l window_visible web_view_reload = (l, requery_after_reload ∷ [])
react l window_hidden (second_instance intent) = second l intent
react l window_hidden tray_restore = restore_window l
react l window_hidden dock_reopen = restore_window l
react l window_hidden explicit_quit = quit l
react l window_hidden runtime_crash = crash l
react l window_hidden web_view_reload = (l, requery_after_reload ∷ [])
react l background_only (second_instance intent) = second l intent
react l background_only tray_restore = restore_window l
react l background_only dock_reopen = restore_window l
react l background_only explicit_quit = quit l
react l background_only runtime_crash = crash l
react l background_only web_view_reload = (l, requery_after_reload ∷ [])
react l (graceful_exit marker_pending) user_quit_marker_durable = (
  record l { state = graceful_exit draining; latched = true; pre_quit_state = none },
  drain_runtime ∷ [],
)
react l (graceful_exit marker_pending) user_quit_marker_failed =
    (record l { state = resume l.pre_quit_state; pre_quit_state = none }, cancel_quit ∷ [])
react l (graceful_exit draining) drain_completed =
    go l (graceful_exit checkpointing) (checkpoint_wal ∷ [])
react l (graceful_exit checkpointing) checkpoint_completed =
    go l (graceful_exit stopping) (stop_runtime ∷ [])
react l (graceful_exit stopping) runtime_stopped = go l user_quit_latched (exit_process ∷ [])
react l (graceful_exit marker_pending) runtime_crash = crash l
react l (graceful_exit phase) runtime_crash = go l user_quit_latched (record_crash ∷ [])
react l state event = (l, ignored ∷ [])

unfoldable pub dispatch : HostLifecycle → HostEvent → HostLifecycle × Transition
dispatch l event =
    let (after, effects) = react l l.state event in
    (after, record { from_state = l.state; to_state = after.state; effects = effects })

-- Events one after another, with all their effects.
unfoldable pub run : HostLifecycle → List HostEvent → Reaction
run l [] = (l, [])
run l (event ∷ events) =
    let (after, transition) = dispatch l event in
    let (final, effects) = run after events in (final, transition.effects ++ effects)
