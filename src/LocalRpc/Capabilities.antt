-- ===== src/LocalRpc/Capabilities.antt =====
-- crates/next-infra-local-rpc/src/protocol/handshake.rs: capabilities and sets of them.
pub mod Laws
use next_infra.Base.{
  Bool, true, false, ◌||◌, List, [], ◌∷◌, Text, text, text_lt, Result, ok, err, ◌>>◌, reject_if,
  if◌then◌else◌, Eq, ◌==◌, contains, ◌≡◌, refl, arith,
}
use next_infra.LocalRpc.Errors.{RpcError, capability_mismatch_error}

pub data Capability : Type 0 where
  get_health_summary get_recent_changes get_resource get_sync_status : Capability
  get_topology list_connector_coverage search_resources : Capability

unfoldable pub Capability-discrete : Discrete Capability
Capability-discrete = hlevel

instance abbrev pub capability_eq : Eq Capability
capability_eq = record { decides = Capability-discrete }

abbrev pub all_capabilities : List Capability
all_capabilities =
    get_health_summary ∷ get_recent_changes ∷ get_resource ∷ get_sync_status ∷ get_topology
    ∷ list_connector_coverage ∷ search_resources ∷ []

unfoldable pub as_str : Capability → Text
as_str get_health_summary = text "query.get_health_summary.v1"
as_str get_recent_changes = text "query.get_recent_changes.v1"
as_str get_resource = text "query.get_resource.v1"
as_str get_sync_status = text "query.get_sync_status.v1"
as_str get_topology = text "query.get_topology.v1"
as_str list_connector_coverage = text "query.list_connector_coverage.v1"
as_str search_resources = text "query.search_resources.v1"

-- `Ord for Capability` compares the names.
abbrev pub capability_lt : Capability → Capability → Bool
capability_lt c d = text_lt (as_str c) (as_str d)

-- `sort` of a vector of capabilities.
unfoldable pub insert_sorted : Capability → List Capability → List Capability
insert_sorted c [] = c ∷ []
insert_sorted c (d ∷ ds) =
    let rest = insert_sorted c ds in if capability_lt d c then d ∷ rest else c ∷ d ∷ ds

unfoldable pub sort : List Capability → List Capability
sort [] = []
sort (c ∷ cs) = insert_sorted c (sort cs)

-- `values.windows(2).any(|window| window[0] == window[1])`
unfoldable pub has_duplicate : List Capability → Bool
has_duplicate [] = false
has_duplicate (c ∷ []) = false
has_duplicate (c ∷ d ∷ ds) = c == d || has_duplicate (d ∷ ds)

pub record CapabilitySet : Type 0 where
  pub capabilities : List Capability

unfoldable pub new_capability_set : List Capability → Result RpcError CapabilitySet
new_capability_set capabilities = do
  let values = sort capabilities
  reject_if (has_duplicate values)
      (capability_mismatch_error (text "capability sets must not contain duplicate entries"))
  ok (record { capabilities = values })

abbrev pub empty_capability_set : CapabilitySet
empty_capability_set = record { capabilities = [] }

-- A failure stands for the panic of `expect`.
unfoldable pub all_query_capabilities : Result RpcError CapabilitySet
all_query_capabilities = new_capability_set all_capabilities

-- `binary_search(&capability).is_ok()`, on a vector that is sorted.
abbrev pub supports : CapabilitySet → Capability → Bool
supports set capability = contains set.capabilities capability
