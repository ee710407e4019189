-- ===== src/McpBridge/Availability/Returned.antt =====
-- The client that the loop of `ensure_host` answers.
use next_infra.Base.{
  ℕ, zero, suc, ◌+◌, ◌-◌, ◌≤◌, ◌<◌, Bool, false, some, Result, ok, err, reject_if, ltb, ◌≡◌, refl,
  ap, subst, arith, ok-injective,
}
use next_infra.McpBridge.Action.{
  Stop, unavailable, ◌>>=◌, >>=-holds, pure, unavailable_if, to_option, if_some-holds,
}
use next_infra.McpBridge.Availability.{
  Duration, Surroundings, UserQuitInspection, AvailabilityPolicy, is_suppressed, unless_quit,
  before, accept, wait, await_host, min, saturating_double, max_duration,
}
use next_infra.McpBridge.Availability.Rounds.{before-reads}

unrejected : (b : Bool) (done : Unit {0}) → reject_if b unavailable ≡ ok done → b ≡ false
unrejected b done h = ground arith

to_option-some : {E A : Type 0} (r : Result E A) (a : A) → to_option r ≡ some a → r ≡ ok a
to_option-some (ok x) a h = cc
to_option-some (err e) a h = absurd cc

is_clear :
    (quit : UserQuitInspection) → is_suppressed quit ≡ false → quit ≡ UserQuitInspection.clear
is_clear UserQuitInspection.clear h = refl
is_clear UserQuitInspection.suppressed h = absurd cc

stopped :
    {C : Type 0} (stop : Stop) (client : C) → ◌≡◌ {A = Result Stop C} (err stop) (ok client) → ⊥
stopped stop client h = absurd cc

module _ {W C G V E : Type 0} (outside : Surroundings W C G V E) where
  -- The client is the answer of a connection with no more time than is left. After it the user had
  -- not quit, and then the deadline had not passed.
  pub record Found (deadline : Duration) (client : C) (after : W) : Type 0 where
    pub world : W
    pub remaining : Duration
    pub limited : remaining ≤ deadline
    pub connected : (outside.connect remaining world).0 ≡ ok client
    pub stays :
        (outside.inspect_user_quit (outside.connect remaining world).1).0 ≡ UserQuitInspection.clear
    pub early :
        (outside.now (outside.inspect_user_quit (outside.connect remaining world).1).1).0 < deadline
    pub last :
        after ≡ (outside.now (outside.inspect_user_quit (outside.connect remaining world).1).1).1

  abbrev Finds : Duration → Result Stop C → W → Type 0
  Finds deadline r after = (client : C) → r ≡ ok client → Found deadline client after

  accept-Finds :
      (deadline remaining : Duration) (client : C) (w : W)
      → remaining ≤ deadline
      → (outside.connect remaining w).0 ≡ ok client
      → Finds deadline
          (accept outside deadline client (outside.connect remaining w).1).0
          (accept outside deadline client (outside.connect remaining w).1).1
  accept-Finds deadline remaining client w limited connected =
      let w₁ = (outside.connect remaining w).1 in
      let w₂ = (outside.inspect_user_quit w₁).1 in
      >>=-holds (Finds deadline) (unless_quit outside)
        (λ done. before outside deadline >>= λ t. pure client) w₁
        (λ stop h c answered. absurd (stopped stop c answered))
        (λ done h.
          >>=-holds (Finds deadline) (before outside deadline) (λ t. pure client) w₂
            (λ stop k c answered. absurd (stopped stop c answered))
            (λ t k c answered.
              let (t_is, early, last) = before-reads outside deadline w₂ t k in
              record {
                world = w;
                remaining = remaining;
                limited = limited;
                connected =
                    subst (λ x. (outside.connect remaining w).0 ≡ ok x)
                      (ok-injective client c answered) connected;
                stays = is_clear _ (unrejected _ done h);
                early = subst (λ x. x < deadline) t_is early;
                last = last;
              }))

  wait-Finds :
      (fuel : ℕ) (maximum_delay deadline delay : Duration) (w : W)
      → Finds deadline
          (wait outside fuel maximum_delay deadline delay w).0
          (wait outside fuel maximum_delay deadline delay w).1
  unfolding wait
  wait-Finds zero maximum_delay deadline delay w = λ client h. absurd (stopped _ client h)
  wait-Finds (suc fuel) maximum_delay deadline delay w =
      >>=-holds (Finds deadline) (unless_quit outside) _ w
        (λ stop h c answered. absurd (stopped stop c answered))
        (λ done h.
          >>=-holds (Finds deadline) (before outside deadline) _ _
            (λ stop k c answered. absurd (stopped stop c answered))
            (λ t k.
              let w₂ = (before outside deadline (outside.inspect_user_quit w).1).1 in
              let w₃ = (outside.now w₂).1 in
              let remaining = deadline - (outside.now w₂).0 in
              let (found, w₄) = outside.connect remaining w₃ in
              if_some-holds (Finds deadline) (to_option found) (accept outside deadline) _ w₄
                (λ client c.
                  accept-Finds deadline remaining client w₃ (omega arith)
                    (to_option-some found client c))
                (λ missing.
                  >>=-holds (Finds deadline) (before outside deadline) _ w₄
                    (λ stop j c answered. absurd (stopped stop c answered))
                    (λ later j.
                      wait-Finds fuel maximum_delay deadline
                        (min (saturating_double delay) maximum_delay) _))))

  -- A client that is answered after the launch comes from a connection before the deadline, which is
  -- the time limit after the time read first, and the user had not quit since.
  pub await_host-Found :
      (policy : AvailabilityPolicy) (timeout : Duration) (w after : W) (client : C)
      → await_host outside policy timeout w ≡ (ok client, after)
      → Found ((outside.now w).0 + timeout) client after
  unfolding await_host
  await_host-Found policy timeout w after client h =
      let deadline = (outside.now w).0 + timeout in
      subst (Found deadline client) (ap (λ r. r.1) h) (
        >>=-holds (Finds deadline) (unavailable_if (ltb max_duration deadline)) _ (outside.now w).1
          (λ stop k c answered. absurd (stopped stop c answered))
          (λ done k.
            wait-Finds (suc timeout) policy.maximum_delay deadline
              (min policy.initial_delay policy.maximum_delay) _)
          client (ap (λ r. r.0) h))
