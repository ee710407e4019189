-- ===== src/LocalRpc/Handshake/Laws.antt =====
-- Which hellos are accepted.
use next_infra.Base.{
  ℕ, ◌+◌, ◌≤◌, true, List, [], ◌∷◌, Text, none, ok, ◌!=◌, nat_eq, text_eq, contains, ◌≡◌, ◌↔◌, refl,
  sym, arith, ap, ◌∙◌, text, text_lt,
}
unfoldable use next_infra.Base.{ℕ_discrete}
use Prim.Native.Nat.{min, max}
use next_infra.LocalRpc.Capabilities.{
  Capability, CapabilitySet, capability_eq, supports, sort, insert_sorted, has_duplicate, as_str,
  Capability-discrete, empty_capability_set, all_capabilities, new_capability_set,
  all_query_capabilities,
}
use next_infra.LocalRpc.Handshake.{
  ClientHello, HostHello, HandshakeResult, accepted, respond, negotiate, validate_client,
  validate_host, validate_range, find_missing, handshake_response, initial_client, initial_host,
  protocol_major, protocol_minor, minimum_supported_minor,
}

-- Every capability of the list is in the set.
abbrev pub Supports : CapabilitySet → List Capability → Type 0
Supports set cs = (c : Capability) → contains cs c ≡ true → supports set c ≡ true

find_missing-Supports :
    (cs : List Capability) (set : CapabilitySet) → find_missing cs set ≡ none → Supports set cs
unfolding find_missing contains
find_missing-Supports [] set h c listed = absurd cc
find_missing-Supports (d ∷ cs) set h c listed =
    let rest = find_missing-Supports cs set (ground arith) c in ground (arith, rest)

Supports-find_missing :
    (cs : List Capability) (set : CapabilitySet) → Supports set cs → find_missing cs set ≡ none
unfolding find_missing contains
Supports-find_missing [] set h = refl
Supports-find_missing (d ∷ cs) set h =
    let rest = Supports-find_missing cs set (λ c listed. h c (ground arith)) in
    ground (arith, rest, h d (ground arith))

-- A major version and a range of at most two minor versions.
abbrev pub IsRange : ℕ → ℕ → ℕ → Type 0
IsRange major minor minimum = (major ≡ 1) × (minimum ≤ minor) × (minor ≤ minimum + 1)

validate_range-ok :
    (major minor minimum : ℕ)
    → validate_range major minor minimum ≡ ok tt
    → IsRange major minor minimum
unfolding validate_range
validate_range-ok major minor minimum h = (ground arith, ground arith, ground arith)

IsRange-ok :
    (major minor minimum : ℕ)
    → IsRange major minor minimum
    → validate_range major minor minimum ≡ ok tt
unfolding validate_range
IsRange-ok major minor minimum h = ground arith

-- A minor version that both sides speak.
abbrev pub IsCommon : ClientHello → HostHello → ℕ → Type 0
IsCommon client host v =
    (client.minimum_supported_minor ≤ v)
    × (v ≤ client.protocol_minor)
    × (host.minimum_supported_minor ≤ v)
    × (v ≤ host.protocol_minor)

-- The host selected the highest common version.
abbrev pub IsSelected : ClientHello → HostHello → Type 0
IsSelected client host =
    IsCommon client host host.selected_protocol_minor
    × ((v : ℕ) → IsCommon client host v → v ≤ host.selected_protocol_minor)

abbrev pub IsAgreed : ClientHello → HostHello → Type 0
IsAgreed client host =
    IsRange client.protocol_major client.protocol_minor client.minimum_supported_minor
    × IsRange host.protocol_major host.protocol_minor host.minimum_supported_minor
    × IsSelected client host
    × Supports host.supported_capabilities client.required_capabilities.capabilities
    × Supports client.supported_capabilities host.required_capabilities.capabilities

abbrev pub agreed : ClientHello → HostHello → HandshakeResult
agreed client host = record {
  selected_protocol_minor = host.selected_protocol_minor;
  upgrade_recommended = client.release_id != host.release_id;
}

IsSelected-min :
    (client : ClientHello) (host : HostHello)
    → IsSelected client host
    → (host.selected_protocol_minor ≡ min client.protocol_minor host.protocol_minor)
      × (max client.minimum_supported_minor host.minimum_supported_minor
          ≤ min client.protocol_minor host.protocol_minor)
IsSelected-min client host (common, highest) =
    let upper = min client.protocol_minor host.protocol_minor in
    (
      omega (
        arith,
        common.0,
        common.1,
        common.2,
        common.3,
        highest upper (omega arith, omega arith, omega arith, omega arith),
      ),
      omega arith,
    )

min-IsSelected :
    (client : ClientHello) (host : HostHello)
    → host.selected_protocol_minor ≡ min client.protocol_minor host.protocol_minor
    → max client.minimum_supported_minor host.minimum_supported_minor
      ≤ min client.protocol_minor host.protocol_minor
    → IsSelected client host
min-IsSelected client host selected overlap =
    ((omega arith, omega arith, omega arith, omega arith), λ v common. omega arith)

IsAgreed-negotiate :
    (client : ClientHello) (host : HostHello)
    → IsAgreed client host
    → negotiate client host ≡ ok (agreed client host)
unfolding negotiate validate_client validate_host
IsAgreed-negotiate client host (c, h, s, cs, hs) =
    let (selected, overlap) = IsSelected-min client host s in
    rw
      (
        IsRange-ok _ _ _ c,
        IsRange-ok _ _ _ h,
        Supports-find_missing _ _ cs,
        Supports-find_missing _ _ hs,
      )
      (ground arith)

negotiate-steps :
    (client : ClientHello) (host : HostHello) (result : HandshakeResult)
    → negotiate client host ≡ ok result
    → (validate_client client ≡ ok tt)
      × (validate_host host ≡ ok tt)
      × IsSelected client host
      × (find_missing client.required_capabilities.capabilities host.supported_capabilities ≡ none)
      × (find_missing host.required_capabilities.capabilities client.supported_capabilities ≡ none)
      × (result ≡ agreed client host)
unfolding negotiate
negotiate-steps client host result h = (
  ground arith,
  ground arith,
  min-IsSelected client host (ground arith) (ground arith),
  ground arith,
  ground arith,
  ground arith,
)

-- A negotiation succeeds exactly if both sides speak major version 1 with a range of one or two
-- minor versions, the host selected the highest minor version that both speak, and each side
-- supports what the other requires. The result has that version, and recommends an upgrade exactly
-- if the releases differ.
pub negotiate-ok_iff :
    (client : ClientHello) (host : HostHello) (result : HandshakeResult)
    → (negotiate client host ≡ ok result) ↔ (IsAgreed client host × (result ≡ agreed client host))
unfolding validate_client validate_host
negotiate-ok_iff client host result = (
  λ h.
      let (c, o, selected, cs, hs, same) = negotiate-steps client host result h in
      (
        (
          validate_range-ok _ _ _ c,
          validate_range-ok _ _ _ o,
          selected,
          find_missing-Supports _ _ cs,
          find_missing-Supports _ _ hs,
        ),
        same,
      ),
  λ h. IsAgreed-negotiate client host h.0 ∙ ap ok (sym h.1),
)

initial-ok : (set : CapabilitySet) × (all_query_capabilities ≡ ok set)
unfolding all_query_capabilities new_capability_set sort insert_sorted has_duplicate as_str text
    text_lt ℕ_discrete Capability-discrete
initial-ok = (record { capabilities = all_capabilities }, refl)

negotiate-accepted :
    (client : ClientHello) (host : HostHello) (result : HandshakeResult)
    → negotiate client host ≡ ok result
    → handshake_response client host ≡ accepted host result.upgrade_recommended
unfolding handshake_response
negotiate-accepted client host result h = ap (respond host) h

no-members : (c : Capability) → contains [] c ≡ true → ⊥
unfolding contains
no-members c listed = cc

-- The first hellos of a bridge and of a host are built without a failure, whatever their versions,
-- and the host accepts with its own hello; an upgrade is recommended exactly if the releases differ.
pub initial-accepted :
    (bridge_version client_release host_version host_release : Text)
    → (client : ClientHello) × (host : HostHello) × (initial_client bridge_version client_release
        ≡ ok client)
      × (initial_host host_version host_release ≡ ok host)
      × (handshake_response client host ≡ accepted host (client_release != host_release))
unfolding initial_client initial_host handshake_response
initial-accepted bridge_version client_release host_version host_release =
    let (set, built) = initial-ok in
    let client : ClientHello = record {
      protocol_major = protocol_major;
      protocol_minor = protocol_minor;
      minimum_supported_minor = minimum_supported_minor;
      bridge_version = bridge_version;
      release_id = client_release;
      supported_capabilities = empty_capability_set;
      required_capabilities = set;
    } in
    let host : HostHello = record {
      protocol_major = protocol_major;
      protocol_minor = protocol_minor;
      minimum_supported_minor = minimum_supported_minor;
      selected_protocol_minor = protocol_minor;
      host_version = host_version;
      release_id = host_release;
      supported_capabilities = set;
      required_capabilities = empty_capability_set;
    } in
    let selected : IsSelected client host = min-IsSelected client host refl (omega arith) in
    let range : IsRange 1 0 0 = (refl, omega arith, omega arith) in
    let works =
      IsAgreed-negotiate client host
        (range, range, selected, λ c listed. listed, λ c listed. absurd (no-members c listed)) in
    (client, host, rw built refl, rw built refl, negotiate-accepted client host _ works)
