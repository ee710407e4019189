-- ===== src/Runtime/Scheduler.antt =====
-- `Scheduler` of crates/next-infra-runtime/src/lib.rs: which connections are due.
pub mod Laws
use next_infra.Base.{
  ℕ, ◌+◌, ◌-◌, ◌^◌, Bool, true, false, List, [], ◌∷◌, Option, Text, text_eq, Result, ok, err,
  if◌then◌else◌, ltb, ◌==◌, nat_eq, BTreeMap, text_ord, values,
}
use next_infra.Base.Maps.{get, insert, remove}
use Prim.Native.Nat.{min}
use next_infra.Core.Ids.{ConnectionId, Timestamp}

-- `i64::MAX`
abbrev pub max_timestamp_millis : ℕ
max_timestamp_millis = 2 ^ 63 - 1

pub record ScheduleEntry : Type 0 where
  pub connection_id : ConnectionId
  pub interval_millis : ℕ
  pub next_due_at : Timestamp

pub record ScheduledSync : Type 0 where
  pub connection_id : ConnectionId
  pub scheduled_at : Timestamp
  pub run_at : Timestamp
  pub catch_up : Bool

pub data SchedulerError : Type 0 where
  invalid_interval : SchedulerError

abbrev pub Scheduler : Type 0
Scheduler = BTreeMap ConnectionId ScheduleEntry

unfoldable pub register :
    Scheduler → ConnectionId → ℕ → Timestamp → Result SchedulerError (Unit {0}) × Scheduler
register entries connection_id interval_millis next_due_at =
    if interval_millis == 0 then (err invalid_interval, entries) else (
      ok tt,
      insert entries connection_id (record {
        connection_id = connection_id;
        interval_millis = interval_millis;
        next_due_at = next_due_at;
      }),
    )

unfoldable pub remove_entry : Scheduler → ConnectionId → Option ScheduleEntry × Scheduler
remove_entry entries connection_id = (get entries connection_id, remove entries connection_id)

-- `saturating_add` of two non-negative `i64`, so that the timestamp is valid.
abbrev pub add_interval : Timestamp → ℕ → Timestamp
add_interval at interval_millis =
    min (at + min interval_millis max_timestamp_millis) max_timestamp_millis

abbrev pub plan_of : ScheduleEntry → Timestamp → Bool → ScheduledSync
plan_of entry now catch_up = record {
  connection_id = entry.connection_id;
  scheduled_at = entry.next_due_at;
  run_at = now;
  catch_up = catch_up;
}

abbrev pub moved : ScheduleEntry → Timestamp → ScheduleEntry
moved entry now = record entry { next_due_at = add_interval now entry.interval_millis }

-- The loop of `plan`, over the entries in key order.
unfoldable pub plan : Scheduler → Timestamp → Bool → List ScheduledSync × Scheduler
plan [] now catch_up = ([], [])
plan ((key, entry) ∷ entries) now catch_up =
    let (plans, rest) = plan entries now catch_up in
    if ltb now entry.next_due_at
    then (plans, (key, entry) ∷ rest)
    else (plan_of entry now catch_up ∷ plans, (key, moved entry now) ∷ rest)

unfoldable pub plan_due_entries : Scheduler → Timestamp → List ScheduledSync × Scheduler
plan_due_entries entries now = plan entries now false

unfoldable pub plan_wake_catch_up : Scheduler → Timestamp → List ScheduledSync × Scheduler
plan_wake_catch_up entries now = plan entries now true
