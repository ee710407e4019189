-- ===== src/LocalRpc/Tests/Sessions.antt =====
-- The theorems on sessions at concrete inputs.
use next_infra.Base.{[], ◌∷◌, none, Result, ok, ◌+◌, text_eq, ◌≡◌, refl, contains}
use next_infra.Base.Texts.{utf8_length}
use next_infra.LocalRpc.Errors.{RpcError}
use next_infra.LocalRpc.Capabilities.{CapabilitySet, Capability-discrete, Capability}
use next_infra.LocalRpc.Messages.{
  QueryRequest, RequestEnvelope, ResponseEnvelope, get_health_summary, test, answer, capability_of,
  new_response, validate_request_id, validate_in_flight,
}
use next_infra.LocalRpc.Session.{
  Session, Worker, handling, Runs, begins, receives, answers, new_session, receive, spawn,
  handle_request, write_response,
}
use next_infra.LocalRpc.Session.Laws.{IsSound, Runs-IsSound}
use next_infra.LocalRpc.Session.Answers.{requested, responded, pending, Runs-Balanced}

abbrev handle : QueryRequest → Result RpcError (Unit {0})
handle query = ok tt

abbrev health_only : CapabilitySet
health_only = record { capabilities = Capability.get_health_summary ∷ [] }

abbrev request : RequestEnvelope
request = record { request_id = 55 ∷ []; caller = test (97 ∷ []) none; query = get_health_summary }

abbrev start : Session (Unit {0})
start = new_session health_only

received : receive start request ≡ ok (spawn start request)
unfolding receive new_session capability_of contains Capability-discrete validate_in_flight
received = refl

abbrev worker : Worker
worker = record { request = request; phase = handling }

abbrev response : ResponseEnvelope (Unit {0})
response = record { request_id = 55 ∷ []; body = answer tt }

handled : handle_request handle request ≡ ok response
unfolding handle_request new_response validate_request_id utf8_length
handled = refl

abbrev final : Session (Unit {0})
final = write_response (spawn start request) [] worker [] response

run : Runs handle start (request ∷ []) [] final
unfolding spawn new_session
run = answers (receives begins request received) [] worker [] response refl refl handled

Runs-IsSound_example : IsSound final
Runs-IsSound_example = Runs-IsSound handle health_only run

Runs-Balanced_example :
    requested (55 ∷ []) (request ∷ [])
    ≡ responded (55 ∷ []) final.sent + pending (55 ∷ []) final.workers + requested (55 ∷ []) []
Runs-Balanced_example = Runs-Balanced (55 ∷ []) handle health_only run
