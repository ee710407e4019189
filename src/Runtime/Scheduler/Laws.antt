-- ===== src/Runtime/Scheduler/Laws.antt =====
-- Planning emits one run for each due connection, and none of it again before its interval is over.
use next_infra.Base.{
  ℕ, ◌+◌, ◌<◌, Bool, List, [], ◌∷◌, All, if◌then◌else◌, leb, ◌==◌, nat_eq, text_eq, text_ord, ◌≡◌,
  refl, ap, ◌∙◌, arith, Bool-cases, inl, inr, map,
}
use next_infra.Base.Maps.{insert, remove}
use next_infra.Core.Ids.{ConnectionId, Timestamp}
use next_infra.Runtime.Scheduler.{
  Scheduler, ScheduleEntry, register, remove_entry, plan, plan_of, moved, max_timestamp_millis,
}

-- Every interval is positive.
abbrev pub IsPositive : Scheduler → Type 0
IsPositive entries = All (λ p. 0 < p.1.interval_millis) entries

-- What planning at `now` gives: the due entries in key order.
abbrev pub due : Scheduler → Timestamp → List ScheduleEntry
due [] now = []
due ((key, entry) ∷ entries) now =
    let rest = due entries now in if leb entry.next_due_at now then entry ∷ rest else rest

abbrev pub advanced : Scheduler → Timestamp → Scheduler
advanced entries now =
    map (λ p. (p.0, if leb p.1.next_due_at now then moved p.1 now else p.1)) entries

pub plan_lem :
    (entries : Scheduler) (now : Timestamp) (catch_up : Bool)
    → plan entries now catch_up
      ≡ (map (λ entry. plan_of entry now catch_up) (due entries now), advanced entries now)
unfolding plan
plan_lem [] now catch_up = refl
plan_lem ((key, entry) ∷ entries) now catch_up = ground (arith, plan_lem entries now catch_up)

-- What is due at `later`, after planning at `now`: what became due in between, and what was planned
-- at `now` if its interval has passed since.
abbrev pub due_again : Scheduler → Timestamp → Timestamp → List ScheduleEntry
due_again [] now later = []
due_again ((key, entry) ∷ entries) now later =
    let rest = due_again entries now later in
    if leb entry.next_due_at now
    then (if leb (now + entry.interval_millis) later then moved entry now ∷ rest else rest)
    else (if leb entry.next_due_at later then entry ∷ rest else rest)

due-advanced :
    (entries : Scheduler) (now later : Timestamp)
    → later < max_timestamp_millis
    → due (advanced entries now) later ≡ due_again entries now later
due-advanced [] now later h = refl
due-advanced ((key, entry) ∷ entries) now later h = ground (arith, due-advanced entries now later h)

-- After planning at one time, planning at another time below the last timestamp plans, in key order,
-- the entries that were not due at the first and are due at the second, and of those that were due
-- at the first the ones whose interval has passed since the first: missed intervals never pile up,
-- whether or not either is a wake-up.
pub plan-plan :
    (entries : Scheduler) (now later : Timestamp) (catch_up catch_up' : Bool)
    → later < max_timestamp_millis
    → (plan (plan entries now catch_up).1 later catch_up').0
      ≡ map (λ entry. plan_of entry later catch_up') (due_again entries now later)
plan-plan entries now later catch_up catch_up' h =
    rw (plan_lem entries now catch_up, plan_lem (advanced entries now) later catch_up')
      (ap (map (λ entry. plan_of entry later catch_up')) (due-advanced entries now later h))

-- What a scheduler that starts empty can become.
pub data Built : Scheduler → Type 0 where
  empty : Built []
  registered :
      {entries : Scheduler}
      → Built entries
      → (connection_id : ConnectionId) (interval_millis : ℕ) (next_due_at : Timestamp)
      → Built (register entries connection_id interval_millis next_due_at).1
  removed :
      {entries : Scheduler}
      → Built entries
      → (connection_id : ConnectionId) → Built (remove_entry entries connection_id).1
  planned :
      {entries : Scheduler}
      → Built entries
      → (now : Timestamp) (catch_up : Bool) → Built (plan entries now catch_up).1

insert-IsPositive :
    (entries : Scheduler) (key : ConnectionId) (entry : ScheduleEntry)
    → 0 < entry.interval_millis
    → IsPositive entries
    → IsPositive (insert entries key entry)
unfolding insert
insert-IsPositive [] key entry positive h = (positive, tt)
insert-IsPositive ((k, e) ∷ entries) key entry positive h =
    ground (arith, insert-IsPositive entries key entry positive h.1)

remove-IsPositive :
    (entries : Scheduler) (key : ConnectionId)
    → IsPositive entries
    → IsPositive (remove entries key)
unfolding remove
remove-IsPositive [] key h = tt
remove-IsPositive ((k, e) ∷ entries) key h = ground (arith, remove-IsPositive entries key h.1)

plan-IsPositive :
    (entries : Scheduler) (now : Timestamp) (catch_up : Bool)
    → IsPositive entries
    → IsPositive (plan entries now catch_up).1
unfolding plan
plan-IsPositive [] now catch_up h = tt
plan-IsPositive ((k, e) ∷ entries) now catch_up h =
    ground (arith, plan-IsPositive entries now catch_up h.1)

register-IsPositive :
    (entries : Scheduler) (key : ConnectionId) (interval : ℕ) (at : Timestamp)
    → IsPositive entries
    → IsPositive (register entries key interval at).1
unfolding register
register-IsPositive entries key interval at h = elim (Bool-cases (interval == 0)) [
  | inl is_zero ↦ rw is_zero h
  | inr positive ↦ rw positive (insert-IsPositive entries key _ (ground arith) h)
]

Built-IsPositive : {entries : Scheduler} → Built entries → IsPositive entries
unfolding remove_entry
Built-IsPositive empty = tt
Built-IsPositive (registered b key interval at) =
    register-IsPositive _ key interval at (Built-IsPositive b)
Built-IsPositive (removed b key) = remove-IsPositive _ key (Built-IsPositive b)
Built-IsPositive (planned b now catch_up) = plan-IsPositive _ now catch_up (Built-IsPositive b)

due_again_self :
    (entries : Scheduler) (now : Timestamp) → IsPositive entries → due_again entries now now ≡ []
due_again_self [] now h = refl
due_again_self ((k, e) ∷ entries) now h = ground (arith, due_again_self entries now h.1)

-- However a scheduler was built, planning twice at one time below the last timestamp plans nothing the
-- second time. At the last timestamp the next due time saturates there, and is due again.
pub Built-plan_twice :
    {entries : Scheduler} (now : Timestamp) (catch_up catch_up' : Bool)
    → Built entries
    → now < max_timestamp_millis
    → (plan (plan entries now catch_up).1 now catch_up').0 ≡ []
Built-plan_twice {entries} now catch_up catch_up' b h =
    plan-plan entries now now catch_up catch_up' h
    ∙ ap (map (λ entry. plan_of entry now catch_up'))
        (due_again_self entries now (Built-IsPositive b))
