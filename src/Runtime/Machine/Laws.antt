-- ===== src/Runtime/Machine/Laws.antt =====
-- Work is admitted after a recovery, and a runtime that stopped or failed stays so.
use next_infra.Base.{
  ℕ, Bool, true, false, List, [], ◌∷◌, ok, ◌≡◌, ◌⊎◌, inl, inr, refl, sym, ap, ◌∙◌, subst, arith,
  Result-cases,
}
use next_infra.Core.Ids.{Timestamp}
use next_infra.Runtime.Scheduler.{Scheduler, ScheduledSync}
use next_infra.Runtime.Machine.{
  RuntimeMode, RuntimeState, new, running, sleeping, stopped, failed, RuntimeBackend, Runtime,
  new_runtime, plan_due, ensure_admission, sleep, wake, start, stop, Call, start_call, call, calls,
}

abbrev pub is_live : RuntimeState → Bool
is_live (running mode) = true
is_live (sleeping mode) = true
is_live state = false

abbrev pub is_over : RuntimeState → Bool
is_over stopped = true
is_over failed = true
is_over state = false

module _ {B Q E : Type 0} where
  planned-is_live :
      (r : Runtime B Q) (state : RuntimeState) (now : Timestamp) (plans : List ScheduledSync)
      → r.state ≡ state
      → ((plan_due {E = E} r now).0 ≡ ok plans) ⊎ ((wake {E = E} r now).0 ≡ ok plans)
      → is_live r.state ≡ true
  unfolding plan_due wake ensure_admission
  planned-is_live r state now plans at (inl h) = ground arith
  planned-is_live r state now plans at (inr h) = ground arith

module _ {B Q E : Type 0} (backend : RuntimeBackend B E) where
  -- A call keeps the backend and the count of a runtime that is new or live after it, or it is the
  -- start of a new runtime whose recovery succeeded.
  abbrev Kept : Runtime B Q → Runtime B Q → Type 0
  Kept r after =
      (after.state ≡ new → (r.state ≡ new) × (after.backend ≡ r.backend))
      × (is_live after.state ≡ true
          → (is_live r.state ≡ true)
            × (after.backend ≡ r.backend)
            × (after.interrupted_runs ≡ r.interrupted_runs))

  abbrev Started : Runtime B Q → Runtime B Q → Type 0
  Started r after =
      (r.state ≡ new)
      × (at : Timestamp) × (n : ℕ) × ((backend.recover_startup r.backend at).0 ≡ ok n)
      × (after.backend ≡ (backend.recover_startup r.backend at).1)
      × (after.interrupted_runs ≡ n)
      × (is_live after.state ≡ true)

  start-Kept :
      (r : Runtime B Q) (state : RuntimeState) (mode : RuntimeMode) (at : Timestamp)
      → r.state ≡ state
      → Kept r (start backend r mode at).1 ⊎ Started r (start backend r mode at).1
  unfolding start
  start-Kept r new mode at is_new = elim (Result-cases (backend.recover_startup r.backend at).0) [
    | inl (n, recovered) ↦ inr (is_new, at, n, recovered, ground arith, ground arith, ground arith)
    | inr (e, refused) ↦ inl (ground arith)
  ]
  start-Kept r state mode at is_state = inl (ground arith)

  call-Kept :
      (r : Runtime B Q) (state : RuntimeState) (c : Call)
      → r.state ≡ state
      → Kept r (call backend r c) ⊎ Started r (call backend r c)
  unfolding call plan_due sleep wake stop ensure_admission
  call-Kept r state (start_call mode at) is_state = start-Kept r state mode at is_state
  call-Kept r state c is_state = inl (ground arith)

module _ {B Q E : Type 0} (backend : RuntimeBackend B E) (first : B) where
  -- The first backend recovered, with the number of interrupted runs that the runtime reports.
  abbrev pub Recovered : Runtime B Q → Type 0
  Recovered r =
      (at : Timestamp) × ((backend.recover_startup first at).0 ≡ ok r.interrupted_runs)
      × (r.backend ≡ (backend.recover_startup first at).1)

  abbrev pub IsAdmitting : Runtime B Q → Type 0
  IsAdmitting r = (r.state ≡ new → r.backend ≡ first) × (is_live r.state ≡ true → Recovered r)

  Recovered-kept :
      (r after : Runtime B Q)
      → after.backend ≡ r.backend
      → after.interrupted_runs ≡ r.interrupted_runs
      → Recovered r
      → Recovered after
  Recovered-kept r after same count (at, recovered, left) =
      (at, recovered ∙ ap ok (sym count), same ∙ left)

  call-IsAdmitting : (r : Runtime B Q) (c : Call) → IsAdmitting r → IsAdmitting (call backend r c)
  call-IsAdmitting r c h = elim (call-Kept backend r r.state c refl) [
    | inl (fresh, live) ↦ (
      λ is_new. (fresh is_new).1 ∙ h.0 (fresh is_new).0,
      λ is_live'.
          let (was_live, same, count) = live is_live' in
          Recovered-kept r (call backend r c) same count (h.1 was_live),
    )
    | inr (was_new, at, n, recovered, same, count, live) ↦ (
      λ is_new. absurd (ground arith),
      λ is_live'. (
        at,
        subst (λ b. (backend.recover_startup b at).0 ≡ ok (call backend r c).interrupted_runs)
            (h.0 was_new) (recovered ∙ ap ok (sym count)),
        subst (λ b. (call backend r c).backend ≡ (backend.recover_startup b at).1) (h.0 was_new)
            same,
      ),
    )
  ]

  calls-IsAdmitting :
      (r : Runtime B Q) (cs : List Call) → IsAdmitting r → IsAdmitting (calls backend r cs)
  unfolding calls
  calls-IsAdmitting r [] h = h
  calls-IsAdmitting r (c ∷ cs) h = calls-IsAdmitting (call backend r c) cs (call-IsAdmitting r c h)

  -- Whatever calls a new runtime has had, due work is planned, at one time or at a wake-up, only by a
  -- runtime whose own backend has recovered: its running runs were marked as interrupted, and the
  -- runtime reports their number.
  pub calls-admitted :
      (query : Q) (scheduler : Scheduler) (cs : List Call) (now : Timestamp)
      (plans : List ScheduledSync)
      → ((plan_due {E = E} (calls backend (new_runtime first query scheduler) cs) now).0 ≡ ok plans)
        ⊎ ((wake {E = E} (calls backend (new_runtime first query scheduler) cs) now).0 ≡ ok plans)
      → Recovered (calls backend (new_runtime first query scheduler) cs)
  unfolding new_runtime
  calls-admitted query scheduler cs now plans admitted =
      let r = calls backend (new_runtime first query scheduler) cs in
      let h =
        calls-IsAdmitting (new_runtime first query scheduler) cs (λ _. refl, λ live. absurd cc) in
      h.1 (planned-is_live r r.state now plans refl admitted)

module _ {B Q E : Type 0} (backend : RuntimeBackend B E) where
  call-over :
      (r : Runtime B Q) (state : RuntimeState) (c : Call)
      → r.state ≡ state
      → is_over state ≡ true
      → call backend r c ≡ r
  unfolding call start plan_due sleep wake stop ensure_admission
  call-over r state c at over = ground arith

  pub calls-over :
      (r : Runtime B Q) (cs : List Call) → is_over r.state ≡ true → calls backend r cs ≡ r
  unfolding calls
  calls-over r [] over = refl
  calls-over r (c ∷ cs) over =
      ap (λ s. calls backend s cs) (call-over r r.state c refl over) ∙ calls-over r cs over
