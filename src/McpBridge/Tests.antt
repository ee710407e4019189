-- ===== src/McpBridge/Tests.antt =====
-- The theorems of the availability of the host at concrete inputs.
use next_infra.Base.{
  ◌⊎◌, ℕ_discrete, [], ℕ, ◌+◌, Bool, true, false, none, some, ok, err, ltb, if◌then◌else◌, ◌≡◌, ◌≢◌,
  refl, arith, inr,
}
use next_infra.McpBridge.Action.{out_of_fuel, host_unavailable}
use next_infra.McpBridge.Availability.{
  Surroundings, IntegrationRecord, UserQuitInspection, AvailabilityPolicy, ensure_host, await_host,
  start_host, launch_verified, wait, min,
}
use next_infra.McpBridge.Availability.Rounds.{ClockLaws}
use next_infra.McpBridge.Availability.Launch.{
  Touched, Forbidden, ensure_host-ends, ensure_host-Touched,
}
use next_infra.McpBridge.Availability.Returned.{Found, await_host-Found}

abbrev integration : Bool → IntegrationRecord
integration allow = record {
  schema_version = 1;
  release_id = [];
  stable_app_path = [];
  stable_bridge_path = [];
  bundle_id = [];
  team_id = none;
  app_designated_requirement = [];
  bridge_designated_requirement = [];
  protocol_major = 1;
  protocol_minor = 0;
  minimum_supported_minor = 0;
  host_supported_capabilities = [];
  host_required_capabilities = [];
  bridge_supported_capabilities = [];
  bridge_required_capabilities = [];
  allow_mcp_auto_launch = allow;
  installed_at = [];
  updated_at = [];
}

-- The time, and whether the host was launched. It answers from the time 20 on.
pub record World : Type 0 where
  pub time : ℕ
  pub launched : Bool

abbrev outside : Bool → Surroundings World ℕ ℕ ℕ ℕ
outside allow = record {
  connect =
      λ d w. (if ltb w.time 20 then err host_unavailable else ok 7, record w { time = w.time + 1 });
  inspect_user_quit = λ w. (UserQuitInspection.clear, w);
  validate_integration_record = λ w. (ok (integration allow), w);
  coordinate = λ w. (ok (some 0), w);
  verify = λ i w. (ok 0, w);
  revalidate = λ v w. (ok tt, w);
  launch = λ v w. (ok tt, record w { launched = true });
  release = λ g w. w;
  now = λ w. (w.time, w);
  sleep = λ d w. (tt, record w { time = w.time + d });
}

abbrev policy : AvailabilityPolicy
policy = record { timeout = 100; initial_delay = 5; maximum_delay = 50 }

abbrev start : World
start = record { time = 0; launched = false }

clock : (allow : Bool) → ClockLaws (outside allow)
clock allow = record {
  clock = λ w. w.time;
  reads = λ w. omega arith;
  goes_on = λ w. omega arith;
  sleeps = λ d w. omega arith;
  connects = λ d w. omega arith;
  inspects = λ w. omega arith;
}

-- The host answers in the fourth round of the loop.
runs :
    (ensure_host (outside true) policy start ≡ (ok 7, record { time = 40; launched = true }))
    × (await_host (outside true) policy 100 start ≡ (ok 7, record { time = 39; launched = false }))
unfolding ensure_host start_host launch_verified await_host wait min ℕ_discrete
runs = (refl, refl)

ensure_host-ends_example : (ensure_host (outside true) policy start).0 ≢ err out_of_fuel
ensure_host-ends_example = ensure_host-ends (outside true) (clock true) policy start

await_host-Found_example : Found (outside true) 100 7 (record { time = 39; launched = false })
await_host-Found_example =
    await_host-Found (outside true) policy 100 start (record { time = 39; launched = false }) 7
      runs.1

abbrev Unlaunched : ℕ → World → Type 0
Unlaunched time w = (w.launched ≡ false) × (w.time ≡ time)

-- A connection takes a unit of time, so that the time counts the connections.
touched : Touched (outside false) (Unlaunched 0) (Unlaunched 1)
touched = record {
  connects = λ d w few i. (i.0, omega (arith, i.1));
  inspects = λ w i. i;
  validates = λ w i. i;
}

denied : Forbidden (outside false) (Unlaunched 1)
denied = inr (λ w i kept read. ground arith)

ensure_host-Touched_example :
    Unlaunched 0 (ensure_host (outside false) policy start).1
    ⊎ Unlaunched 1 (ensure_host (outside false) policy start).1
ensure_host-Touched_example =
    ensure_host-Touched (outside false) (Unlaunched 0) (Unlaunched 1) policy start touched denied
      (refl, refl)
