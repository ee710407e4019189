-- ===== src/Runtime/Tests.antt =====
-- The theorems on the scheduler and the runtime at concrete inputs.
use next_infra.Base.{
  ℕ, true, false, List, [], ◌∷◌, Result, ok, ◌≡◌, inl, refl, arith, map, text_eq, text_ord, nat_eq,
}
unfoldable use next_infra.Base.{ℕ_discrete}
use next_infra.Base.Maps.{insert}
use next_infra.Sync.Writer.{WriterQueue}
use next_infra.Sync.Tests.Fixture.{FakeStore, writer, store}
use next_infra.Sync.Tests.Builds.{built, built_interrupted}
use next_infra.Runtime.Scheduler.{Scheduler, register, plan, plan_of, plan_due_entries}
use next_infra.Runtime.Scheduler.Laws.{empty, registered, due_again, plan-plan, Built-plan_twice}
use next_infra.Runtime.Machine.{
  running, interactive, RuntimeBackend, Runtime, new_runtime, plan_due, start, start_call, stop,
  Call, call, calls, ensure_admission,
}
use next_infra.Runtime.Machine.Laws.{Recovered, calls-admitted}
use next_infra.Runtime.Sqlite.{sqlite_backend, Ended, stop-Ended}

abbrev one : Scheduler
one = (register [] (97 ∷ []) 100 50).1

plan-plan_example :
    (plan (plan one 60 false).1 170 true).0
    ≡ map (λ entry. plan_of entry 170 true) (due_again one 60 170)
plan-plan_example = plan-plan one 60 170 false true (omega arith)

planned_again :
    (plan (plan one 60 false).1 170 true).0
    ≡ record { connection_id = 97 ∷ []; scheduled_at = 160; run_at = 170; catch_up = true } ∷ []
unfolding plan register insert ℕ_discrete
planned_again = refl

planned_twice : (plan (plan one 60 false).1 60 true).0 ≡ []
planned_twice = Built-plan_twice 60 false true (registered empty (97 ∷ []) 100 50) (omega arith)

-- A backend that counts its calls and has two interrupted runs.
abbrev counting : RuntimeBackend ℕ ℕ
counting = record {
  recover_startup = λ n at. (ok 2, 1);
  drain_writer = λ n. (ok tt, n);
  checkpoint_store = λ n. (ok tt, n);
}

abbrev started : Runtime ℕ (Unit {0})
started = calls counting (new_runtime 0 tt []) (start_call interactive 5 ∷ [])

planned : (plan_due {E = ℕ} started 6).0 ≡ ok []
unfolding plan_due ensure_admission calls call start new_runtime plan_due_entries plan
planned = refl

calls-admitted_example : Recovered counting 0 started
calls-admitted_example =
    calls-admitted counting 0 tt [] (start_call interactive 5 ∷ []) 6 [] (inl planned)

abbrev busy : Runtime (WriterQueue FakeStore) (Unit {0})
busy = record {
  backend = record { store = store; pending = built ∷ built_interrupted ∷ [] };
  query = tt;
  scheduler = [];
  state = running interactive;
  interrupted_runs = 0;
}

abbrev saved : FakeStore → Result ℕ (Unit {0}) × FakeStore
saved s = (ok tt, s)

stop-Ended_example :
    Ended writer saved busy
      (stop (sqlite_backend writer saved) busy).0
      (stop (sqlite_backend writer saved) busy).1
    × ((cs : List Call)
        → calls (sqlite_backend writer saved) (stop (sqlite_backend writer saved) busy).1 cs
          ≡ (stop (sqlite_backend writer saved) busy).1)
stop-Ended_example = stop-Ended writer saved busy refl
