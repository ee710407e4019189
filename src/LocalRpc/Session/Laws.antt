-- ===== src/LocalRpc/Session/Laws.antt =====
-- The rounds of the loop, and the invariant of a session.
use next_infra.Base.{
  suc, ◌≤◌, ◌<◌, true, List, [], ◌∷◌, ◌++◌, All, length, length-append, Text, text_eq, Result, ok,
  err, ◌≡◌, ◌⊎◌, inl, inr, refl, sym, ap, subst, arith, Bool-cases, Result-cases,
}
use next_infra.LocalRpc.Errors.{RpcError}
use next_infra.LocalRpc.Capabilities.{CapabilitySet, supports}
use next_infra.LocalRpc.Messages.{
  RequestEnvelope, QueryRequest, ResponseEnvelope, ResponseBody, answer, failure, new_response,
  capability_of, validate_in_flight,
}
use next_infra.LocalRpc.Session.{
  answered, Worker, Session, new_session, refuse, spawn, receive, response_to, write_response,
  drop_permit, Runs, begins, receives, answers, ends, fails, unsupported_error,
}

All-middle :
    (P : Worker → Type 0) (before : List Worker) (w : Worker) (after : List Worker)
    → All P (before ++ w ∷ after)
    → P w × All P (before ++ after)
All-middle P [] w after h = h
All-middle P (v ∷ before) w after h =
    let (p, rest) = All-middle P before w after h.1 in (p, (h.0, rest))

All-replace :
    (P : Worker → Type 0) (before : List Worker) (w v : Worker) (after : List Worker)
    → All P (before ++ w ∷ after)
    → P v
    → All P (before ++ v ∷ after)
All-replace P [] w v after h p = (p, h.1)
All-replace P (u ∷ before) w v after h p = (h.0, All-replace P before w v after h.1 p)

module _ {R : Type 0} where
  new_response-id :
      (request_id : Text) (body : ResponseBody R) (response : ResponseEnvelope R)
      → new_response request_id body ≡ ok response
      → response.request_id ≡ request_id
  unfolding new_response
  new_response-id request_id body response h = ground arith

  pub response_to-id :
      (request_id : Text) (result : Result RpcError R) (response : ResponseEnvelope R)
      → response_to request_id result ≡ ok response
      → response.request_id ≡ request_id
  response_to-id request_id (ok r) response h = new_response-id request_id (answer r) response h
  response_to-id request_id (err e) response h = new_response-id request_id (failure e) response h

  -- A request is refused with a response of its own, or it gets a thread.
  abbrev pub Refused : Session R → RequestEnvelope → Session R → Type 0
  Refused s request after =
      (response : ResponseEnvelope R) × (response.request_id ≡ request.request_id)
      × (after ≡ record s { sent = response ∷ s.sent })

  refuse-Refused :
      (s after : Session R) (request : RequestEnvelope) (error : RpcError)
      → refuse s request.request_id error ≡ ok after
      → Refused s request after
  unfolding refuse
  refuse-Refused s after request error h =
      elim (Result-cases (new_response {R = R} request.request_id (failure error))) [
        | inl (response, made) ↦ (
          response,
          new_response-id request.request_id (failure error) response made,
          ground arith,
        )
        | inr (e, failed) ↦ absurd (ground arith)
      ]

  abbrev pub Spawned : Session R → RequestEnvelope → Session R → Type 0
  Spawned s request after =
      (after ≡ spawn s request)
      × (s.in_flight < 8)
      × (supports s.supported (capability_of request.query) ≡ true)

  pub receive-cases :
      (s after : Session R) (request : RequestEnvelope)
      → receive s request ≡ ok after
      → Spawned s request after ⊎ Refused s request after
  unfolding receive validate_in_flight
  receive-cases s after request h =
      elim (Bool-cases (supports s.supported (capability_of request.query))) [
        | inl supported ↦ elim (Result-cases (validate_in_flight s.in_flight)) [
          | inl (_, free) ↦ inl (ground arith, ground arith, supported)
          | inr (e, full) ↦ inr (refuse-Refused s after request e (ground arith))
        ]
        | inr unsupported ↦ inr (refuse-Refused s after request unsupported_error (ground arith))
      ]

  -- The permits are those of the threads, at most 8, and the threads handle supported queries.
  abbrev pub IsSound : Session R → Type 0
  IsSound s =
      (s.in_flight ≡ length s.workers)
      × (length s.workers ≤ 8)
      × All (λ w. supports s.supported (capability_of w.request.query) ≡ true) s.workers

  receive-IsSound :
      (s after : Session R) (request : RequestEnvelope)
      → receive s request ≡ ok after
      → IsSound s
      → IsSound after
  unfolding spawn
  receive-IsSound s after request h (count, few, all_supported) =
      elim (receive-cases s after request h) [
        | inl (same, free, supported) ↦
            subst IsSound (sym same) (ap suc count, omega arith, (supported, all_supported))
        | inr (response, _, same) ↦ subst IsSound (sym same) (count, few, all_supported)
      ]

  drop_permit-IsSound :
      (s : Session R) (before : List Worker) (w : Worker) (after : List Worker)
      → s.workers ≡ before ++ w ∷ after
      → IsSound s
      → IsSound (drop_permit s before after)
  drop_permit-IsSound s before w after at (count, few, all_supported) =
      let P : Worker → Type 0 = λ v. supports s.supported (capability_of v.request.query) ≡ true in
      let lengths = length-append before (w ∷ after) in
      let fewer = length-append before after in
      let same = ap length at in
      (
        omega (arith, count, lengths, fewer, same),
        omega (arith, few, lengths, fewer, same),
        (All-middle P before w after (subst (All P) at all_supported)).1,
      )

  write_response-IsSound :
      (s : Session R) (before : List Worker) (w : Worker) (after : List Worker)
      (response : ResponseEnvelope R)
      → s.workers ≡ before ++ w ∷ after
      → IsSound s
      → IsSound (write_response s before w after response)
  write_response-IsSound s before w after response at (count, few, all_supported) =
      let P : Worker → Type 0 = λ v. supports s.supported (capability_of v.request.query) ≡ true in
      let replaced : Worker = record w { phase = answered } in
      let lengths = length-append before (w ∷ after) in
      let kept = length-append before (replaced ∷ after) in
      let same = ap length at in
      let whole = subst (All P) at all_supported in
      (
        omega (arith, count, lengths, kept, same),
        omega (arith, few, lengths, kept, same),
        All-replace P before w replaced after whole (All-middle P before w after whole).0,
      )

  -- In every session that a new one leads to, whatever the interleaving of the loop and the threads,
  -- the permits in flight are those of the threads that have not ended, there are at most 8, and
  -- every thread handles a query that the negotiated capabilities support.
  pub Runs-IsSound :
      (handle : QueryRequest → Result RpcError R) (supported : CapabilitySet)
      {read failed : List RequestEnvelope} {s : Session R}
      → Runs handle (new_session supported) read failed s
      → IsSound s
  unfolding new_session
  Runs-IsSound handle supported begins = (refl, omega arith, tt)
  Runs-IsSound handle supported (receives {s = s} {after = after} run request h) =
      receive-IsSound s after request h (Runs-IsSound handle supported run)
  Runs-IsSound handle supported (answers {s = s} run before w after response at _ _) =
      write_response-IsSound s before w after response at (Runs-IsSound handle supported run)
  Runs-IsSound handle supported (ends {s = s} run before w after at _) =
      drop_permit-IsSound s before w after at (Runs-IsSound handle supported run)
  Runs-IsSound handle supported (fails {s = s} run before w after at _) =
      drop_permit-IsSound s before w after at (Runs-IsSound handle supported run)
