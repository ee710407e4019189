-- ===== src/LocalRpc/Tests.antt =====
-- The theorems on frames and hellos at concrete inputs.
mod Sessions
use next_infra.Base.{
  ℕ, zero, suc, ◌<◌, [], ◌∷◌, Text, Result, ok, err, length, ◌≡◌, ◌↔◌, refl, ap, arith, contains,
  true, false, ◌!=◌, text_eq,
}
unfoldable use next_infra.Base.{ℕ_discrete, Text-discrete}
use mathlib.Core.List.{append-nil}
use next_infra.LocalRpc.Bytes.{Bytes, concat}
use next_infra.LocalRpc.Framing.{
  Codec, encode_frame, decode_frame, decode_frame_bytes, oversized_frame, max_frame_bytes,
}
use next_infra.LocalRpc.Framing.Writer.{write_chunks, CodecLaws}
use next_infra.LocalRpc.Framing.Laws.{
  IsBody, framed, body_of, decode_frame_bytes-ok_iff, decode_frame-encode_frame,
  encode_frame-oversized,
}
use next_infra.LocalRpc.Capabilities.{
  Capability, Capability-discrete, CapabilitySet, capability_eq, get_topology, get_resource,
  new_capability_set, supports,
}
use next_infra.LocalRpc.Capabilities.Laws.{repeats, IsOrdered, new_capability_set-ok_iff}
use next_infra.LocalRpc.Handshake.{
  ClientHello, HostHello, HandshakeResult, negotiate, handshake_response, accepted, initial_client,
  initial_host, validate_client, validate_host, validate_range, find_missing,
}
use next_infra.LocalRpc.Handshake.Laws.{IsAgreed, agreed, negotiate-ok_iff, initial-accepted}

-- A value is written as a mark and its bytes.
abbrev read : Bytes → Result Text Bytes
read [] = err []
read (mark ∷ value) = ok value

abbrev marked : Codec Bytes
marked = record {
  to_writer = λ value writer. write_chunks [] writer ((1 ∷ []) ∷ value ∷ []);
  from_slice = read;
}

marked-CodecLaws : CodecLaws marked
unfolding concat
marked-CodecLaws = record {
  chunks = λ value. (1 ∷ []) ∷ value ∷ [];
  message = [];
  writes = λ value writer. refl;
  some_body = λ value h. absurd (omega (arith, h));
  reads_back = λ value. ap ok (append-nil value);
}

zeros : ℕ → Bytes
zeros zero = []
zeros (suc n) = 0 ∷ zeros n

length-zeros : (n : ℕ) → length (zeros n) ≡ n
unfolding zeros
length-zeros zero = refl
length-zeros (suc n) = omega (arith, length-zeros n)

length-marked :
    (value : Bytes) → length (body_of marked marked-CodecLaws value) ≡ suc (length value)
unfolding concat marked-CodecLaws
length-marked value = ap (λ v. suc (length v)) (append-nil value)

decode_frame-encode_frame_example :
    (encode_frame marked (7 ∷ []) ≡ ok (framed (body_of marked marked-CodecLaws (7 ∷ []))))
    × (decode_frame marked (framed (body_of marked marked-CodecLaws (7 ∷ []))) ≡ ok (7 ∷ []))
decode_frame-encode_frame_example =
    decode_frame-encode_frame marked marked-CodecLaws (7 ∷ [])
      (omega (arith, length-marked (7 ∷ [])))

-- A bridge that speaks 1.3 and 1.4, and a host that speaks 1.2 and 1.3.
abbrev pub old_host : HostHello
old_host = record {
  protocol_major = 1;
  protocol_minor = 3;
  minimum_supported_minor = 2;
  selected_protocol_minor = 3;
  host_version = 50 ∷ [];
  release_id = 50 ∷ [];
  supported_capabilities = record { capabilities = get_resource ∷ get_topology ∷ [] };
  required_capabilities = record { capabilities = [] };
}

abbrev pub new_bridge : ClientHello
new_bridge = record {
  protocol_major = 1;
  protocol_minor = 4;
  minimum_supported_minor = 3;
  bridge_version = 51 ∷ [];
  release_id = 51 ∷ [];
  supported_capabilities = record { capabilities = [] };
  required_capabilities = record { capabilities = get_topology ∷ [] };
}

abbrev upgrade : HandshakeResult
upgrade = record { selected_protocol_minor = 3; upgrade_recommended = true }

negotiate-ok_iff_example :
    (negotiate new_bridge old_host ≡ ok upgrade)
    ↔ (IsAgreed new_bridge old_host × (upgrade ≡ agreed new_bridge old_host))
negotiate-ok_iff_example = negotiate-ok_iff new_bridge old_host upgrade

negotiated : negotiate new_bridge old_host ≡ ok upgrade
unfolding negotiate validate_client validate_host validate_range find_missing contains
    Capability-discrete ℕ_discrete Text-discrete
negotiated = refl
