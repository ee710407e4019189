-- ===== src/LocalRpc/Session.antt =====
-- crates/next-infra-local-rpc/src/session/session.rs: what a server does with the requests of a
-- client, and what a client does with the response to its hello.
pub mod Laws
pub mod Answers
pub mod Client
use next_infra.Base.{
  ℕ, suc, ◌-◌, Bool, true, false, not, List, [], ◌∷◌, ◌++◌, Text, text, Result, ok, err, ◌>>=◌,
  ◌>>◌, reject_if, map_err, if◌then◌else◌, ◌≡◌, Eq, ◌==◌, ◌!=◌, text_eq,
}
use Prim.Native.Nat.{min}
use next_infra.LocalRpc.Errors.{
  RpcError, capability_mismatch_error, protocol_mismatch_error, invalid_frame_error,
}
use next_infra.LocalRpc.Capabilities.{CapabilitySet, supports}
use next_infra.LocalRpc.Handshake.{ClientHello, HostHello, HandshakeResponse, negotiate}
use next_infra.LocalRpc.Messages.{
  RequestEnvelope, QueryRequest, ResponseEnvelope, answer, failure, new_response, capability_of,
  validate_in_flight,
}

-- A thread that has not dropped its permit: it still handles its request, or has answered it.
pub data Phase : Type 0 where
  handling answered : Phase

pub record Worker : Type 0 where
  pub request : RequestEnvelope
  pub phase : Phase

abbrev pub unsupported_error : RpcError
unsupported_error =
    capability_mismatch_error (text "the negotiated Host does not support this query capability")

-- `sent` is what was written to the stream, the last first.
pub record Session (R : Type 0) : Type 0 where
  pub supported : CapabilitySet
  pub in_flight : ℕ
  pub workers : List Worker
  pub sent : List (ResponseEnvelope R)

module _ {R : Type 0} where
  unfoldable pub new_session : CapabilitySet → Session R
  new_session supported = record { supported = supported; in_flight = 0; workers = []; sent = [] }

  unfoldable pub refuse : Session R → Text → RpcError → Result RpcError (Session R)
  refuse s request_id error = do
    response ← new_response request_id (failure error)
    ok (record s { sent = response ∷ s.sent })

  -- The thread that the loop starts, and its permit.
  unfoldable pub spawn : Session R → RequestEnvelope → Session R
  spawn s request = record s {
    in_flight = suc s.in_flight;
    workers = record { request = request; phase = handling } ∷ s.workers;
  }

  abbrev pub admit :
      Session R → RequestEnvelope → Result RpcError (Unit {0}) → Result RpcError (Session R)
  admit s request (ok _) = ok (spawn s request)
  admit s request (err error) = refuse s request.request_id error

  -- One round of the loop of `serve_stream`, with the request that it reads.
  unfoldable pub receive : Session R → RequestEnvelope → Result RpcError (Session R)
  receive s request =
      if supports s.supported (capability_of request.query)
      then admit s request (validate_in_flight s.in_flight)
      else refuse s request.request_id unsupported_error

  abbrev pub response_to : Text → Result RpcError R → Result RpcError (ResponseEnvelope R)
  response_to request_id (ok response) = new_response request_id (answer response)
  response_to request_id (err error) = new_response request_id (failure error)

  unfoldable pub handle_request :
      (QueryRequest → Result RpcError R) → RequestEnvelope → Result RpcError (ResponseEnvelope R)
  handle_request handle request = response_to request.request_id (handle request.query)

  -- A thread writes its response.
  abbrev pub write_response :
      Session R → List Worker → Worker → List Worker → ResponseEnvelope R → Session R
  write_response s before worker after response = record s {
    workers = before ++ record worker { phase = answered } ∷ after;
    sent = response ∷ s.sent;
  }

  -- `Drop for InFlightPermit`, at the end of a thread.
  abbrev pub drop_permit : Session R → List Worker → List Worker → Session R
  drop_permit s before after = record s { in_flight = s.in_flight - 1; workers = before ++ after }

  -- The requests that were read, those whose thread failed, and the session that they lead to, for
  -- any interleaving of the loop and the threads.
  pub data Runs (handle : QueryRequest → Result RpcError R) (start : Session R)
      : List RequestEnvelope → List RequestEnvelope → Session R → Type 0 where
    begins : Runs handle start [] [] start
    receives :
        {read failed : List RequestEnvelope} {s after : Session R}
        → Runs handle start read failed s
        → (request : RequestEnvelope) → receive s request ≡ ok after
        → Runs handle start (request ∷ read) failed after
    answers :
        {read failed : List RequestEnvelope} {s : Session R}
        → Runs handle start read failed s
        → (before : List Worker) (worker : Worker) (after : List Worker)
        → (response : ResponseEnvelope R) → s.workers ≡ before ++ worker ∷ after
        → worker.phase ≡ handling
        → handle_request handle worker.request ≡ ok response
        → Runs handle start read failed (write_response s before worker after response)
    ends :
        {read failed : List RequestEnvelope} {s : Session R}
        → Runs handle start read failed s
        → (before : List Worker) (worker : Worker) (after : List Worker)
        → s.workers ≡ before ++ worker ∷ after
        → worker.phase ≡ answered
        → Runs handle start read failed (drop_permit s before after)
    fails :
        {read failed : List RequestEnvelope} {s : Session R}
        → Runs handle start read failed s
        → (before : List Worker) (worker : Worker) (after : List Worker)
        → s.workers ≡ before ++ worker ∷ after
        → worker.phase ≡ handling
        → Runs handle start read (worker.request ∷ failed) (drop_permit s before after)

unfoldable pub selected_host : HostHello → ClientHello → HostHello
selected_host template client = record template {
  selected_protocol_minor = min client.protocol_minor template.protocol_minor;
}

-- Errors of the stream are of other modules.
pub data SessionError (T F : Type 0) : Type 0 where
  transport : T → SessionError T F
  frame : F → SessionError T F
  rejected protocol : RpcError → SessionError T F
  worker_panicked writer_poisoned : SessionError T F

module _ {T F : Type 0} where
  -- What `handshake_with_timeout` makes of the response that it reads.
  unfoldable pub accept_response :
      ClientHello → HandshakeResponse → Result (SessionError T F) (HostHello × Bool)
  accept_response client (HandshakeResponse.accepted host upgrade_recommended) = do
    result ← map_err (λ error. SessionError.protocol error) (negotiate client host)
    let differs =
        if upgrade_recommended
        then (if result.upgrade_recommended then false else true)
        else result.upgrade_recommended
    reject_if differs (
        SessionError.protocol (
          protocol_mismatch_error
            (text "Host upgrade recommendation does not match negotiated releases")))
    ok (host, upgrade_recommended)
  accept_response client (HandshakeResponse.rejected error) = err (SessionError.rejected error)

  -- What `query_with_timeout` makes of the response that it reads.
  unfoldable pub accept_answer :
      {R : Type 0}
      → RequestEnvelope
      → ResponseEnvelope R
      → Result (SessionError T F) (ResponseEnvelope R)
  accept_answer request response = do
    reject_if (response.request_id != request.request_id) (
        SessionError.protocol
          (invalid_frame_error (text "response request_id does not match the request")))
    ok response
