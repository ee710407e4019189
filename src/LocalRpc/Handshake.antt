-- ===== src/LocalRpc/Handshake.antt =====
-- crates/next-infra-local-rpc/src/protocol/handshake.rs: hellos and their negotiation.
pub mod Laws
use next_infra.Base.{
  ℕ, ◌+◌, ◌-◌, Bool, true, false, ◌||◌, List, [], ◌∷◌, ◌++◌, Text, text, decimal, Option, none,
  some, Result, ok, err, ◌>>=◌, ◌>>◌, reject_if, if◌then◌else◌, ltb, ◌==◌, ◌!=◌, nat_eq, text_eq,
  not,
}
use Prim.Native.Nat.{min, max}
use next_infra.LocalRpc.Errors.{RpcError, protocol_mismatch_error, capability_mismatch_error}
use next_infra.LocalRpc.Capabilities.{
  Capability, CapabilitySet, as_str, supports, empty_capability_set, all_query_capabilities,
}

abbrev pub protocol_major : ℕ
protocol_major = 1

abbrev pub protocol_minor : ℕ
protocol_minor = 0

abbrev pub minimum_supported_minor : ℕ
minimum_supported_minor = 0

pub record ClientHello : Type 0 where
  pub protocol_major : ℕ
  pub protocol_minor : ℕ
  pub minimum_supported_minor : ℕ
  pub bridge_version : Text
  pub release_id : Text
  pub supported_capabilities : CapabilitySet
  pub required_capabilities : CapabilitySet

pub record HostHello : Type 0 where
  pub protocol_major : ℕ
  pub protocol_minor : ℕ
  pub minimum_supported_minor : ℕ
  pub selected_protocol_minor : ℕ
  pub host_version : Text
  pub release_id : Text
  pub supported_capabilities : CapabilitySet
  pub required_capabilities : CapabilitySet

pub record HandshakeResult : Type 0 where
  pub selected_protocol_minor : ℕ
  pub upgrade_recommended : Bool

pub data HandshakeResponse : Type 0 where
  accepted : HostHello → Bool → HandshakeResponse
  rejected : RpcError → HandshakeResponse

unfoldable pub selected_minor : HandshakeResponse → Option ℕ
selected_minor (accepted host upgrade_recommended) = some host.selected_protocol_minor
selected_minor (rejected error) = none

unfoldable pub initial_client : Text → Text → Result RpcError ClientHello
initial_client bridge_version release_id = do
  all ← all_query_capabilities
  ok (record {
    protocol_major = protocol_major;
    protocol_minor = protocol_minor;
    minimum_supported_minor = minimum_supported_minor;
    bridge_version = bridge_version;
    release_id = release_id;
    supported_capabilities = empty_capability_set;
    required_capabilities = all;
  })

unfoldable pub initial_host : Text → Text → Result RpcError HostHello
initial_host host_version release_id = do
  all ← all_query_capabilities
  ok (record {
    protocol_major = protocol_major;
    protocol_minor = protocol_minor;
    minimum_supported_minor = minimum_supported_minor;
    selected_protocol_minor = protocol_minor;
    host_version = host_version;
    release_id = release_id;
    supported_capabilities = all;
    required_capabilities = empty_capability_set;
  })

-- Subtraction of ℕ is `saturating_sub`.
unfoldable pub validate_range : ℕ → ℕ → ℕ → Result RpcError (Unit {0})
validate_range major minor minimum =
    reject_if (major != protocol_major || (ltb minor minimum || ltb 1 (minor - minimum))) (
      protocol_mismatch_error (
        text "unsupported protocol range "
        ++ decimal major
        ++ text "."
        ++ decimal minor
        ++ text " with minimum minor "
        ++ decimal minimum))

unfoldable pub validate_client : ClientHello → Result RpcError (Unit {0})
validate_client c = validate_range c.protocol_major c.protocol_minor c.minimum_supported_minor

unfoldable pub validate_host : HostHello → Result RpcError (Unit {0})
validate_host h = validate_range h.protocol_major h.protocol_minor h.minimum_supported_minor

-- The first required capability that the other side does not support.
unfoldable pub find_missing : List Capability → CapabilitySet → Option Capability
find_missing [] supported = none
find_missing (c ∷ cs) supported =
    let rest = find_missing cs supported in if supports supported c then rest else some c

abbrev pub require_none : Option Capability → Text → Result RpcError (Unit {0})
require_none none message = ok tt
require_none (some missing) message = err (capability_mismatch_error (message ++ as_str missing))

unfoldable pub negotiate : ClientHello → HostHello → Result RpcError HandshakeResult
negotiate client host = do
  reject_if (client.protocol_major != host.protocol_major)
      (protocol_mismatch_error (text "client and host protocol majors differ"))
  validate_client client
  validate_host host
  let lower = max client.minimum_supported_minor host.minimum_supported_minor
  let upper = min client.protocol_minor host.protocol_minor
  reject_if (ltb upper lower)
      (protocol_mismatch_error (text "client and host minor version ranges do not overlap"))
  reject_if (host.selected_protocol_minor != upper) (
      protocol_mismatch_error (text "host selected a minor version other than the highest overlap"))
  require_none (find_missing client.required_capabilities.capabilities host.supported_capabilities)
      (text "host does not support required capability ")
  require_none (find_missing host.required_capabilities.capabilities client.supported_capabilities)
      (text "client does not support host-required capability ")
  ok (record {
    selected_protocol_minor = upper;
    upgrade_recommended = client.release_id != host.release_id;
  })

-- The two arms of the match in `handshake_response`.
abbrev pub respond : HostHello → Result RpcError HandshakeResult → HandshakeResponse
respond host (ok result) = accepted host result.upgrade_recommended
respond host (err error) = rejected error

unfoldable pub handshake_response : ClientHello → HostHello → HandshakeResponse
handshake_response client host = respond host (negotiate client host)
