-- ===== src/McpBridge/Availability/Rounds.antt =====
-- The loop of `ensure_host` ends: every round sleeps, and the clock goes on.
use next_infra.Base.{
  ℕ, zero, suc, ◌+◌, ◌-◌, ◌*◌, ◌≤◌, ◌<◌, Bool, Result, ok, err, reject_if, ltb, ◌≡◌, ◌≢◌, sym,
  subst, arith,
}
use next_infra.McpBridge.Action.{
  Action, Stop, out_of_fuel, unavailable, ◌>>=◌, >>=-holds, pure, unavailable_if, to_option,
  if_some-holds,
}
use next_infra.McpBridge.Availability.{
  Duration, Surroundings, unless_quit, before, accept, pause, wait, await_host, min,
  saturating_double, max_duration, AvailabilityPolicy,
}

abbrev pub Ends : {A : Type 0} → Result Stop A → Type 0
Ends {A = A} r = r ≢ err out_of_fuel

min-positive : (a b : Duration) → 0 < a → 0 < b → 0 < min a b
unfolding min
min-positive a b h k = ground arith

pub rejected : (b : Bool) (stop : Stop) → reject_if b unavailable ≡ err stop → stop ≡ unavailable
rejected b stop h = ground arith

pub refused : {A : Type 0} (stop : Stop) → stop ≡ unavailable → Ends {A = A} (err stop)
refused stop h ends = absurd cc

module _ {W C G V E : Type 0} (outside : Surroundings W C G V E) where
  -- A clock that no call turns back, and a sleep that is as long as asked.
  pub record ClockLaws : Type 0 where
    pub clock : W → Duration
    pub reads : (w : W) → clock w ≤ (outside.now w).0
    pub goes_on : (w : W) → (outside.now w).0 ≤ clock (outside.now w).1
    pub sleeps : (d : Duration) (w : W) → clock w + d ≤ clock (outside.sleep d w).1
    pub connects : (d : Duration) (w : W) → clock w ≤ clock (outside.connect d w).1
    pub inspects : (w : W) → clock w ≤ clock (outside.inspect_user_quit w).1

  before-stops :
      (deadline : Duration) (w : W) (stop : Stop)
      → (before outside deadline w).0 ≡ err stop
      → stop ≡ unavailable
  before-stops deadline w stop h = ground arith

  pub before-reads :
      (deadline : Duration) (w : W) (t : Duration)
      → (before outside deadline w).0 ≡ ok t
      → (t ≡ (outside.now w).0)
        × (t < deadline)
        × ((before outside deadline w).1 ≡ (outside.now w).1)
  before-reads deadline w t h = ground arith

  accept-ends :
      (deadline : Duration) (client : C) (w : W) → Ends (accept outside deadline client w).0
  accept-ends deadline client w =
      >>=-holds (λ r w'. Ends r) (unless_quit outside)
        (λ done. before outside deadline >>= λ t. pure client) w
        (λ stop h. refused stop (rejected _ stop h))
        (λ done h.
          >>=-holds (λ r w'. Ends r) (before outside deadline) (λ t. pure client) _
            (λ stop k. refused stop (before-stops deadline _ stop k)) (λ t k ends. cc))

  before-world : (deadline : Duration) (w : W) → (before outside deadline w).1 ≡ (outside.now w).1
  before-world deadline w = ground arith

  module _ (laws : ClockLaws) where
    now-later : (w : W) → laws.clock w ≤ laws.clock (outside.now w).1
    now-later w = omega (arith, laws.reads w, laws.goes_on w)

    before-later :
        (deadline : Duration) (w : W) → laws.clock w ≤ laws.clock (before outside deadline w).1
    before-later deadline w =
        subst (λ w'. laws.clock w ≤ laws.clock w') (sym (before-world deadline w)) (now-later w)

    -- A pause ends if what follows it ends on a later clock.
    pause-ends :
        (again : Duration → Action W C) (maximum_delay deadline delay : Duration) (w : W)
        → ((next : Duration) (w' : W)
            → 0 < next
            → laws.clock w < laws.clock w'
            → laws.clock w < deadline
            → Ends (again next w').0)
        → 0 < maximum_delay
        → 0 < delay
        → Ends (pause outside again maximum_delay deadline delay w).0
    pause-ends again maximum_delay deadline delay w ends m d =
        >>=-holds (λ r w'. Ends r) (before outside deadline) _ w
          (λ stop h. refused stop (before-stops deadline w stop h))
          (λ t h.
            let (t_is, early, _) = before-reads deadline w t h in
            let w₁ = (before outside deadline w).1 in
            let slept = min delay (deadline - t) in
            let long : 0 < slept = min-positive delay (deadline - t) d (omega (arith, early)) in
            ends (min (saturating_double delay) maximum_delay) (outside.sleep slept w₁).1
              (min-positive (saturating_double delay) maximum_delay
                (min-positive (delay * 2) max_duration (omega (arith, d)) (omega arith)) m)
              (omega (arith, long, before-later deadline w, laws.sleeps slept w₁))
              (omega (arith, laws.reads w, t_is, early)))

    wait-ends :
        (fuel : ℕ) (maximum_delay deadline delay : Duration) (w : W)
        → 0 < fuel
        → deadline < laws.clock w + fuel
        → 0 < maximum_delay
        → 0 < delay
        → Ends (wait outside fuel maximum_delay deadline delay w).0
    unfolding wait
    wait-ends zero maximum_delay deadline delay w some_fuel enough m d =
        absurd (omega (arith, some_fuel))
    wait-ends (suc fuel) maximum_delay deadline delay w some_fuel enough m d =
        >>=-holds (λ r w'. Ends r) (unless_quit outside) _ w
          (λ stop h. refused stop (rejected _ stop h))
          (λ done h.
            >>=-holds (λ r w'. Ends r) (before outside deadline) _ _
              (λ stop k. refused stop (before-stops deadline _ stop k))
              (λ t k.
                let w₁ = (outside.inspect_user_quit w).1 in
                let w₂ = (before outside deadline w₁).1 in
                let w₃ = (outside.now w₂).1 in
                let (found, w₄) = outside.connect (deadline - (outside.now w₂).0) w₃ in
                let w₂_is = before-reads deadline w₁ t k in
                let later : laws.clock w
                    ≤ laws.clock (outside.connect (deadline - (outside.now w₂).0) w₃).1 =
                  omega (
                    arith,
                    laws.inspects w,
                    before-later deadline w₁,
                    now-later w₂,
                    laws.connects (deadline - (outside.now w₂).0) w₃,
                  ) in
                if_some-holds (λ r w'. Ends r) (to_option found) (accept outside deadline) _ w₄
                  (λ client c. accept-ends deadline client _)
                  (λ missing.
                    pause-ends (wait outside fuel maximum_delay deadline) maximum_delay deadline
                      delay w₄
                      (λ next w' positive goes early.
                        wait-ends fuel maximum_delay deadline next w'
                          (omega (arith, later, early, enough)) (omega (arith, later, goes, enough))
                          m positive)
                      m d)))

    pub await_host-ends :
        (policy : AvailabilityPolicy) (timeout : Duration) (w : W)
        → 0 < policy.initial_delay
        → 0 < policy.maximum_delay
        → Ends (await_host outside policy timeout w).0
    unfolding await_host
    await_host-ends policy timeout w i m =
        let w₁ = (outside.now w).1 in
        let deadline = (outside.now w).0 + timeout in
        >>=-holds (λ r w'. Ends r) (unavailable_if (ltb max_duration deadline)) _ w₁
          (λ stop h. refused stop (rejected _ stop h))
          (λ done h.
            wait-ends (suc timeout) policy.maximum_delay deadline
              (min policy.initial_delay policy.maximum_delay) w₁ (omega arith)
              (omega (arith, laws.goes_on w)) m
              (min-positive policy.initial_delay policy.maximum_delay i m))
