-- ===== src/McpBridge/Availability.antt =====
-- `ensure_host` of apps/mcp-bridge/src/availability/state.rs: a connection to the host, which is
-- launched if that is allowed, within a time limit.
pub mod Rounds
pub mod Launch
pub mod Returned
use next_infra.Base.{
  ℕ, zero, suc, ◌+◌, ◌-◌, ◌*◌, ◌^◌, ◌==◌, nat_eq, Bool, true, false, not, ◌||◌, Option, none, some,
  Text, List, Result, ok, err, leb, ltb, if◌then◌else◌,
}
use next_infra.McpBridge.Action.{
  McpBridgeError, Action, Stop, out_of_fuel, ◌>>=◌, ◌>>◌, pure, unavailable_if, call, attempt,
  if_ok, if_some,
}

-- `std::time::Duration` in nanoseconds, at most `u64::MAX` seconds and 999,999,999 of them.
abbrev pub Duration : Type 0
Duration = ℕ

abbrev pub max_duration : Duration
max_duration = (2 ^ 64 - 1) * 1000000000 + 999999999

unfoldable pub min : Duration → Duration → Duration
min a b = if ltb b a then b else a

abbrev pub saturating_double : Duration → Duration
saturating_double d = min (d * 2) max_duration

abbrev pub max_availability_timeout : Duration
max_availability_timeout = 10 * 1000000000

abbrev pub initial_connect_timeout : Duration
initial_connect_timeout = 500 * 1000000

pub data UserQuitInspection : Type 0 where
  clear suppressed : UserQuitInspection

pub data AvailabilityActionError : Type 0 where
  action_error : AvailabilityActionError

pub record IntegrationRecord : Type 0 where
  pub schema_version : ℕ
  pub release_id : Text
  pub stable_app_path : Text
  pub stable_bridge_path : Text
  pub bundle_id : Text
  pub team_id : Option Text
  pub app_designated_requirement : Text
  pub bridge_designated_requirement : Text
  pub protocol_major : ℕ
  pub protocol_minor : ℕ
  pub minimum_supported_minor : ℕ
  pub host_supported_capabilities : List Text
  pub host_required_capabilities : List Text
  pub bridge_supported_capabilities : List Text
  pub bridge_required_capabilities : List Text
  pub allow_mcp_auto_launch : Bool
  pub installed_at : Text
  pub updated_at : Text

pub record AvailabilityPolicy : Type 0 where
  pub timeout : Duration
  pub initial_delay : Duration
  pub maximum_delay : Duration

-- `HostConnector`, `SignatureVerifier`, `HostLauncher`, `MonotonicClock` and the reads of the file
-- system, on a world that other processes change too. `C` is the client, `G` the guard of a
-- launch, `V` the verified artifacts, and `E` the error of the record.
pub record Surroundings (W C G V E : Type 0) : Type 0 where
  pub connect : Duration → W → Result McpBridgeError C × W
  pub inspect_user_quit : W → UserQuitInspection × W
  pub validate_integration_record : W → Result E IntegrationRecord × W
  pub coordinate : W → Result AvailabilityActionError (Option G) × W
  pub verify : IntegrationRecord → W → Result AvailabilityActionError V × W
  pub revalidate : V → W → Result AvailabilityActionError (Unit {0}) × W
  pub launch : V → W → Result AvailabilityActionError (Unit {0}) × W
  pub release : G → W → W
  pub now : W → Duration × W
  pub sleep : Duration → W → Unit {0} × W

abbrev pub is_suppressed : UserQuitInspection → Bool
is_suppressed UserQuitInspection.clear = false
is_suppressed UserQuitInspection.suppressed = true

module _ {W C G V E : Type 0} (outside : Surroundings W C G V E) where
  -- `if inspect_user_quit(paths) != UserQuitInspection::Clear { return Err(...) }`
  abbrev pub unless_quit : Action W (Unit {0})
  unless_quit = call outside.inspect_user_quit >>= λ quit. unavailable_if (is_suppressed quit)

  -- `if clock.now() >= deadline { return Err(...) }`
  abbrev pub before : Duration → Action W Duration
  before deadline = call outside.now >>= λ now. unavailable_if (leb deadline now) >> pure now

  -- What is done with a client that the loop has found.
  abbrev pub accept : Duration → C → Action W C
  accept deadline client = do unless_quit; now ← before deadline; pure client

  -- The rest of a round whose connection failed.
  abbrev pub pause : (Duration → Action W C) → Duration → Duration → Duration → Action W C
  pause wait_again maximum_delay deadline delay = do
    later ← before deadline
    slept ← call (outside.sleep (min delay (deadline - later)))
    wait_again (min (saturating_double delay) maximum_delay)

  -- The loop. Its fuel is the number of rounds.
  unfoldable pub wait : ℕ → Duration → Duration → Duration → Action W C
  wait zero maximum_delay deadline delay = λ w. (err out_of_fuel, w)
  wait (suc fuel) maximum_delay deadline delay = do
    unless_quit
    checked ← before deadline
    now ← call outside.now
    found ← if_ok (outside.connect (deadline - now))
    if_some found (accept deadline)
        (pause (wait fuel maximum_delay deadline) maximum_delay deadline delay)

  -- The launch, if this process coordinates it.
  unfoldable pub launch_verified : IntegrationRecord → Option G → Action W (Unit {0})
  launch_verified integration none = pure tt
  launch_verified integration (some guard) = do
    verified ← attempt (outside.verify integration)
    unless_quit
    attempt (outside.revalidate verified)
    attempt (outside.launch verified)

  -- From the deadline on. `timeout` is at least the number of rounds that are left to make.
  unfoldable pub await_host : AvailabilityPolicy → Duration → Action W C
  await_host policy timeout = do
    now ← call outside.now
    unavailable_if (ltb max_duration (now + timeout))
    wait (suc timeout) policy.maximum_delay (now + timeout)
        (min policy.initial_delay policy.maximum_delay)

  -- The guard is dropped on every return.
  abbrev pub released : Option G → {A : Type 0} → Action W A → Action W A
  released none action w = action w
  released (some guard) action w = ((action w).0, outside.release guard (action w).1)

  -- What is done when the first connection fails.
  unfoldable pub start_host : AvailabilityPolicy → Duration → Action W C
  start_host policy timeout = do
    unless_quit
    integration ← attempt outside.validate_integration_record
    unavailable_if (not integration.allow_mcp_auto_launch)
    guard ← attempt outside.coordinate
    released guard (launch_verified integration guard >> await_host policy timeout)

  unfoldable pub ensure_host : AvailabilityPolicy → Action W C
  ensure_host policy = do
    let timeout = min policy.timeout max_availability_timeout
    unavailable_if (timeout == 0 || (policy.initial_delay == 0 || policy.maximum_delay == 0))
    found ← if_ok (outside.connect (min timeout initial_connect_timeout))
    if_some found pure (start_host policy timeout)
