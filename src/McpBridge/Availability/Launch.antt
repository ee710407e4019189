-- ===== src/McpBridge/Availability/Launch.antt =====
-- `ensure_host` ends, and it launches nothing unless that is allowed.
use next_infra.Base.{
  ◌≤◌, ◌<◌, ◌||◌, ◌==◌, nat_eq, Bool, true, false, not, Option, none, some, Result, ok, err,
  reject_if, ◌≡◌, ◌≢◌, refl, sym, ap, subst, arith, inl, inr, ◌⊎◌, map_err, map_err-eq-ok,
}
use next_infra.McpBridge.Action.{
  Action, Stop, failed, out_of_fuel, unavailable, ◌>>◌, >>=-holds, pure, unavailable_if, attempt,
  to_option, if_some-holds,
}
use next_infra.McpBridge.Availability.{
  Duration, Surroundings, IntegrationRecord, UserQuitInspection, AvailabilityPolicy, is_suppressed,
  unless_quit, launch_verified, await_host, start_host, ensure_host, released, min,
  max_availability_timeout, initial_connect_timeout,
}
use next_infra.McpBridge.Availability.Rounds.{Ends, ClockLaws, rejected, refused, await_host-ends}

attempted :
    {E A : Type 0} (r : Result E A) (stop : Stop)
    → map_err (λ e. unavailable) r ≡ err stop
    → stop ≡ unavailable
attempted r stop h = ground arith

attempted-Ends : {E A : Type 0} (r : Result E A) → Ends (map_err (λ e. unavailable) r)
attempted-Ends (ok a) ends = absurd cc
attempted-Ends (err e) ends = absurd cc

-- A call that stops ends, whatever it would have answered.
stays : {A B : Type 0} (stop : Stop) → Ends {A = A} (err stop) → Ends {A = B} (err stop)
stays (failed e) ends again = absurd cc
stays out_of_fuel ends again = ends refl

min-least : (a b : Duration) → min a b ≤ b
unfolding min
min-least a b = ground arith

-- A guard that stops the call was not passed.
stopped : (b : Bool) (done : Unit {0}) → b ≡ true → reject_if b unavailable ≢ ok done
stopped b done h passed = absurd (ground arith)

module _ {W C G V E : Type 0} (outside : Surroundings W C G V E) where
  launch_verified-ends :
      (integration : IntegrationRecord) (guard : Option G) (w : W)
      → Ends (launch_verified outside integration guard w).0
  unfolding launch_verified
  launch_verified-ends integration none w = λ ends. cc
  launch_verified-ends integration (some guard) w =
      >>=-holds (λ r w'. Ends r) (attempt (outside.verify integration)) _ w
        (λ stop h. refused stop (attempted _ stop h))
        (λ verified h.
          >>=-holds (λ r w'. Ends r) (unless_quit outside) _ _
            (λ stop k. refused stop (rejected _ stop k))
            (λ done k.
              >>=-holds (λ r w'. Ends r) (attempt (outside.revalidate verified)) _ _
                (λ stop j. refused stop (attempted _ stop j)) (λ done' j. attempted-Ends _)))

  released-holds :
      {A : Type 0} (guard : Option G) (action : Action W A) (w : W)
      → (released outside guard action w).0 ≡ (action w).0
  released-holds none action w = refl
  released-holds (some guard) action w = refl

  await_launched-ends :
      (laws : ClockLaws outside) (policy : AvailabilityPolicy) (timeout : Duration)
      (integration : IntegrationRecord) (guard : Option G) (w : W)
      → 0 < policy.initial_delay
      → 0 < policy.maximum_delay
      → Ends ((launch_verified outside integration guard >> await_host outside policy timeout) w).0
  await_launched-ends laws policy timeout integration guard w i m =
      >>=-holds (λ (r : Result Stop C) w'. Ends r) (launch_verified outside integration guard)
        (λ done. await_host outside policy timeout) w
        (λ stop h. stays stop (subst Ends h (launch_verified-ends integration guard w)))
        (λ done h. await_host-ends outside laws policy timeout _ i m)

  start_host-ends :
      (laws : ClockLaws outside) (policy : AvailabilityPolicy) (timeout : Duration) (w : W)
      → 0 < policy.initial_delay
      → 0 < policy.maximum_delay
      → Ends (start_host outside policy timeout w).0
  unfolding start_host
  start_host-ends laws policy timeout w i m =
      >>=-holds (λ r w'. Ends r) (unless_quit outside) _ w
        (λ stop h. refused stop (rejected _ stop h))
        (λ done h.
          >>=-holds (λ r w'. Ends r) (attempt outside.validate_integration_record) _ _
            (λ stop k. refused stop (attempted _ stop k))
            (λ integration k.
              >>=-holds (λ r w'. Ends r) (unavailable_if (not integration.allow_mcp_auto_launch)) _
                _ (λ stop j. refused stop (rejected _ stop j))
                (λ done' j.
                  >>=-holds (λ r w'. Ends r) (attempt outside.coordinate) _ _
                    (λ stop l. refused stop (attempted _ stop l))
                    (λ guard l.
                      subst Ends
                        (sym (
                          released-holds guard
                            (launch_verified outside integration guard
                              >> await_host outside policy timeout)
                            _))
                        (await_launched-ends laws policy timeout integration guard _ i m)))))

  -- On a clock that goes on while the call sleeps, the fuel of the loop is enough: the call ends with
  -- a client or with an error of the bridge, whatever the policy is.
  pub ensure_host-ends :
      (laws : ClockLaws outside) (policy : AvailabilityPolicy) (w : W)
      → Ends (ensure_host outside policy w).0
  unfolding ensure_host
  ensure_host-ends laws policy w =
      let timeout = min policy.timeout max_availability_timeout in
      >>=-holds (λ r w'. Ends r)
        (unavailable_if (timeout == 0 || (policy.initial_delay == 0 || policy.maximum_delay == 0)))
        _ w (λ stop h. refused stop (rejected _ stop h))
        (λ done h.
          if_some-holds (λ r w'. Ends r)
            (to_option (outside.connect (min timeout initial_connect_timeout) w).0) pure
            (start_host outside policy timeout) _ (λ client k ends. cc)
            (λ k. start_host-ends laws policy timeout _ (ground arith) (ground arith)))

  -- What one connection of at most half a second makes of `Before`, and what a look at the marker and a
  -- look at the record keep of it.
  pub record Touched (Before After : W → Type 0) : Type 0 where
    pub connects :
        (d : Duration) (w : W)
        → d ≤ initial_connect_timeout
        → Before w
        → After (outside.connect d w).1
    pub inspects : (w : W) → After w → After (outside.inspect_user_quit w).1
    pub validates : (w : W) → After w → After (outside.validate_integration_record w).1

  -- The user has quit, or no valid record allows a launch.
  abbrev pub Forbidden : (W → Type 0) → Type 0
  Forbidden After =
      ((w : W) → After w → (outside.inspect_user_quit w).0 ≡ UserQuitInspection.suppressed)
      ⊎ ((w : W) (integration : IntegrationRecord)
          → After w
          → (outside.validate_integration_record w).0 ≡ ok integration
          → integration.allow_mcp_auto_launch ≡ false)

  start_host-Touched :
      (Before I : W → Type 0) (policy : AvailabilityPolicy) (timeout : Duration) (w : W)
      → Touched Before I
      → Forbidden I
      → I w
      → I (start_host outside policy timeout w).1
  unfolding start_host
  start_host-Touched Before I policy timeout w u f i =
      >>=-holds (λ r w'. I w') (unless_quit outside) _ w (λ stop h. u.inspects w i)
        (λ done h.
          >>=-holds (λ r w'. I w') (attempt outside.validate_integration_record) _ _
            (λ stop k. u.validates _ (u.inspects w i))
            (λ integration k.
              >>=-holds (λ r w'. I w') (unavailable_if (not integration.allow_mcp_auto_launch)) _ _
                (λ stop j. u.validates _ (u.inspects w i))
                (λ done' j. absurd (elim f [
                  | inl quit ↦ stopped _ done (ap is_suppressed (quit w i)) h
                  | inr denied ↦
                      stopped _ done'
                        (ap not (
                          denied _ integration (u.inspects w i)
                            (map_err-eq-ok (λ e. unavailable) _ k)))
                        j
                ]))))

  -- If the user has quit, or no valid record allows a launch, then the call connects at most once, for
  -- at most half a second, and after that only looks at the marker and the record: what held before
  -- still holds, or what one connection makes of that and the looks keep, whatever a second connection,
  -- a launch, a sleep or a reading of the clock would do to it.
  pub ensure_host-Touched :
      (Before After : W → Type 0) (policy : AvailabilityPolicy) (w : W)
      → Touched Before After
      → Forbidden After
      → Before w
      → Before (ensure_host outside policy w).1 ⊎ After (ensure_host outside policy w).1
  unfolding ensure_host
  ensure_host-Touched Before After policy w u f i =
      let timeout = min policy.timeout max_availability_timeout in
      let d = min timeout initial_connect_timeout in
      let once = u.connects d w (min-least timeout initial_connect_timeout) i in
      >>=-holds (λ r w'. Before w' ⊎ After w')
        (unavailable_if (timeout == 0 || (policy.initial_delay == 0 || policy.maximum_delay == 0)))
        _ w (λ stop h. inl i)
        (λ done h.
          if_some-holds (λ r w'. Before w' ⊎ After w') (to_option (outside.connect d w).0) pure
            (start_host outside policy timeout) _ (λ client k. inr once)
            (λ k. inr (start_host-Touched Before After policy timeout _ u f once)))
