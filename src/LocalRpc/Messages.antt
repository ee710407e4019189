-- ===== src/LocalRpc/Messages.antt =====
-- crates/next-infra-local-rpc/src/protocol/message.rs: requests, responses and their checks.
use next_infra.Base.{
  ℕ, Bool, false, ◌||◌, List, any, Text, text, trim, is_empty, Option, none, some, BTreeMap, Result,
  ok, ◌>>◌, reject_if, ltb, leb,
}
use next_infra.Base.Texts.{utf8_length, is_control}
use next_infra.Core.Status.{ResourceHealth, Freshness}
use next_infra.LocalRpc.Errors.{
  RpcError, invalid_request_id_error, too_many_requests_error, invalid_frame_error,
}
use next_infra.LocalRpc.Capabilities.{Capability}

abbrev pub max_request_id_bytes : ℕ
max_request_id_bytes = 128

abbrev pub max_in_flight_requests : ℕ
max_in_flight_requests = 8

unfoldable pub validate_request_id : Text → Result RpcError (Unit {0})
validate_request_id request_id =
    reject_if
      (is_empty request_id
        || (ltb max_request_id_bytes (utf8_length request_id) || any is_control request_id))
      invalid_request_id_error

unfoldable pub validate_in_flight : ℕ → Result RpcError (Unit {0})
validate_in_flight count = reject_if (leb max_in_flight_requests count) too_many_requests_error

pub data Caller : Type 0 where
  bridge : Text → Text → Option Text → Caller
  test : Text → Option Text → Caller

unfoldable pub value_is_invalid : Text → Bool
value_is_invalid value = is_empty (trim value) || any is_control value

unfoldable pub diagnostic_is_invalid : Option Text → Bool
diagnostic_is_invalid none = false
diagnostic_is_invalid (some value) = any is_control value

unfoldable pub validate_caller : Caller → Result RpcError (Unit {0})
validate_caller (bridge bridge_version release_id diagnostic) =
    reject_if
      (value_is_invalid bridge_version
        || (value_is_invalid release_id || diagnostic_is_invalid diagnostic))
      (invalid_frame_error (text "caller identity is invalid"))
validate_caller (test name diagnostic) =
    reject_if (value_is_invalid name || diagnostic_is_invalid diagnostic)
      (invalid_frame_error (text "caller identity is invalid"))

pub data ResourceInclude : Type 0 where
  attributes relations recent_changes connector_coverage : ResourceInclude

-- The enums of the query crate have the constructors of those of the core.
pub record SearchResourcesQuery : Type 0 where
  pub query : Option Text
  pub kinds : List Text
  pub connector_types : List Text
  pub health : List ResourceHealth
  pub freshness : List Freshness
  pub labels : BTreeMap Text Text
  pub limit : Option ℕ
  pub cursor : Option Text

pub record GetResourceQuery : Type 0 where
  pub resource_id : Text
  pub includes : List ResourceInclude

pub record GetTopologyQuery : Type 0 where
  pub focus_resource_id : Text
  pub depth : Option ℕ
  pub max_nodes : Option ℕ
  pub max_edges : Option ℕ

pub record RecentChangesQuery : Type 0 where
  pub since : Option Text
  pub resource_id : Option Text
  pub kinds : List Text
  pub limit : Option ℕ
  pub cursor : Option Text

pub record SyncStatusQuery : Type 0 where
  pub connection_id : Text
  pub recent_run_limit : Option ℕ

pub data QueryRequest : Type 0 where
  search_resources : SearchResourcesQuery → QueryRequest
  get_resource : GetResourceQuery → QueryRequest
  get_topology : GetTopologyQuery → QueryRequest
  get_health_summary : QueryRequest
  get_recent_changes : RecentChangesQuery → QueryRequest
  get_sync_status : SyncStatusQuery → QueryRequest
  list_connector_coverage : QueryRequest

unfoldable pub capability_of : QueryRequest → Capability
capability_of (search_resources query) = Capability.search_resources
capability_of (get_resource query) = Capability.get_resource
capability_of (get_topology query) = Capability.get_topology
capability_of get_health_summary = Capability.get_health_summary
capability_of (get_recent_changes query) = Capability.get_recent_changes
capability_of (get_sync_status query) = Capability.get_sync_status
capability_of list_connector_coverage = Capability.list_connector_coverage

pub record RequestEnvelope : Type 0 where
  pub request_id : Text
  pub caller : Caller
  pub query : QueryRequest

unfoldable pub validate_request : RequestEnvelope → Result RpcError (Unit {0})
validate_request request = do validate_request_id request.request_id; validate_caller request.caller

unfoldable pub new_request : Text → Caller → QueryRequest → Result RpcError RequestEnvelope
new_request request_id caller query = do
  let envelope : RequestEnvelope = record {
    request_id = request_id;
    caller = caller;
    query = query;
  }
  validate_request envelope
  ok envelope

-- The answers of the query service are any type.
pub data ResponseBody (R : Type 0) : Type 0 where
  answer : R → ResponseBody R
  failure : RpcError → ResponseBody R

pub record ResponseEnvelope (R : Type 0) : Type 0 where
  pub request_id : Text
  pub body : ResponseBody R

module _ {R : Type 0} where
  unfoldable pub new_response : Text → ResponseBody R → Result RpcError (ResponseEnvelope R)
  new_response request_id body = do
    validate_request_id request_id
    ok (record { request_id = request_id; body = body })
