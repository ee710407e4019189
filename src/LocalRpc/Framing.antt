-- ===== src/LocalRpc/Framing.antt =====
-- crates/next-infra-local-rpc/src/protocol/framing.rs: one JSON body behind a length of four bytes.
pub mod Writer
pub mod Laws
use next_infra.Base.{
  ℕ, ◌+◌, ◌-◌, ◌^◌, Bool, true, false, List, [], ◌∷◌, ◌++◌, Text, Result, ok, err, ◌>>=◌, ◌>>◌,
  map_err, reject_if, if◌then◌else◌, ltb, length, ◌==◌, nat_eq,
}
use Prim.Native.Nat.{min}
use next_infra.LocalRpc.Bytes.{Bytes, take, to_be_bytes, from_be_bytes}

abbrev pub frame_header_bytes : ℕ
frame_header_bytes = 4

abbrev pub max_frame_bytes : ℕ
max_frame_bytes = 1048576

pub data FrameErrorKind : Type 0 where
  missing_header : ℕ → FrameErrorKind
  zero_length : FrameErrorKind
  incomplete trailing_bytes : ℕ → ℕ → FrameErrorKind
  invalid_json : Text → FrameErrorKind

pub data FrameError : Type 0 where
  oversized_frame : ℕ → FrameError
  invalid_frame : FrameErrorKind → FrameError

unfoldable pub is_oversized : FrameError → Bool
is_oversized (oversized_frame length) = true
is_oversized (invalid_frame kind) = false

unfoldable pub is_invalid : FrameError → Bool
is_invalid (oversized_frame length) = false
is_invalid (invalid_frame kind) = true

pub record LimitedWriter : Type 0 where
  pub bytes : Bytes
  pub limit : ℕ
  pub bytes_written : ℕ
  pub exceeded : Bool

unfoldable pub new_writer : ℕ → LimitedWriter
new_writer limit = record { bytes = []; limit = limit; bytes_written = 0; exceeded = false }

-- `saturating_add` on a `usize`.
abbrev pub saturating_add : ℕ → ℕ → ℕ
saturating_add a b = min (a + b) (2 ^ 64 - 1)

-- The result is the number of bytes taken; the error of a full writer has one message only.
unfoldable pub write : LimitedWriter → Bytes → Result (Unit {0}) ℕ × LimitedWriter
write writer bytes =
    if ltb (writer.limit - length writer.bytes) (length bytes)
    then (
      err tt,
      record writer {
        exceeded = true;
        bytes_written = saturating_add (length writer.bytes) (length bytes);
      },
    )
    else (
      ok (length bytes),
      record writer {
        bytes = writer.bytes ++ bytes;
        bytes_written = length (writer.bytes ++ bytes);
      },
    )

-- `serde_json::to_writer` and `from_slice`, of another package, with the text of its errors.
pub record Codec (T : Type 0) : Type 0 where
  pub to_writer : T → LimitedWriter → Result Text (Unit {0}) × LimitedWriter
  pub from_slice : Bytes → Result Text T

-- A body that was written: it must not be empty, and its length must fit a `u32`.
unfoldable pub frame_of : Bytes → Result FrameError Bytes
frame_of body = do
  reject_if (length body == 0) (invalid_frame zero_length)
  reject_if (ltb (2 ^ 32 - 1) (length body)) (oversized_frame (length body))
  ok (to_be_bytes (length body) ++ body)

unfoldable pub decode_frame_bytes : Bytes → Result FrameError Bytes
decode_frame_bytes (a ∷ b ∷ c ∷ d ∷ rest) = do
  let frame = a ∷ b ∷ c ∷ d ∷ rest
  let size = from_be_bytes a b c d
  reject_if (size == 0) (invalid_frame zero_length)
  reject_if (ltb max_frame_bytes size) (oversized_frame size)
  let expected = frame_header_bytes + size
  reject_if (ltb (length frame) expected) (invalid_frame (incomplete expected (length frame)))
  reject_if (ltb expected (length frame)) (invalid_frame (trailing_bytes expected (length frame)))
  ok (take size rest)
decode_frame_bytes frame = err (invalid_frame (missing_header (length frame)))

-- What `encode_frame` makes of the writer that the serializer leaves.
unfoldable pub finish_frame : Result Text (Unit {0}) × LimitedWriter → Result FrameError Bytes
finish_frame (ok _, writer) = frame_of writer.bytes
finish_frame (err message, writer) =
    if writer.exceeded
    then err (oversized_frame writer.bytes_written)
    else err (invalid_frame (invalid_json message))

module _ {T : Type 0} (codec : Codec T) where
  unfoldable pub encode_frame : T → Result FrameError Bytes
  encode_frame value = finish_frame (codec.to_writer value (new_writer max_frame_bytes))

  unfoldable pub decode_frame : Bytes → Result FrameError T
  decode_frame frame = do
    body ← decode_frame_bytes frame
    map_err (λ message. invalid_frame (invalid_json message)) (codec.from_slice body)
