-- ===== src/LocalRpc/Framing/Laws.antt =====
-- A frame is decoded exactly if it is a length and a body of that length, and values round trip.
use next_infra.Base.{
  ℕ, ◌<◌, ◌≤◌, true, [], ◌∷◌, ◌++◌, Text, Result, ok, err, length, nat_eq, ◌≡◌, ◌↔◌, refl, sym, ap,
  ◌∙◌, arith, subst, All, ok-injective,
}
use next_infra.LocalRpc.Bytes.{
  Bytes, IsByte, concat, to_be_bytes, from_be_bytes, from_be_bytes-to_be_bytes,
  to_be_bytes-from_be_bytes, take-length,
}
use next_infra.LocalRpc.Framing.{
  FrameError, oversized_frame, max_frame_bytes, new_writer, Codec, frame_of, finish_frame,
  LimitedWriter, decode_frame_bytes, encode_frame, decode_frame,
}
use next_infra.LocalRpc.Framing.Writer.{
  write_chunks, CodecLaws, write_chunks-fits, write_chunks-exceeds,
}

-- A body that a frame may carry.
abbrev pub IsBody : Bytes → Type 0
IsBody body = (0 < length body) × (length body ≤ max_frame_bytes)

-- A header that says the length of what follows is decoded to what follows.
decode_sized :
    (a b c d : ℕ) (rest : Bytes)
    → from_be_bytes a b c d ≡ length rest
    → IsBody rest
    → decode_frame_bytes (a ∷ b ∷ c ∷ d ∷ rest) ≡ ok rest
unfolding decode_frame_bytes
decode_sized a b c d rest size body = rw (size, take-length rest) (ground arith)

decoded_size :
    (a b c d : ℕ) (rest body : Bytes)
    → decode_frame_bytes (a ∷ b ∷ c ∷ d ∷ rest) ≡ ok body
    → (from_be_bytes a b c d ≡ length rest) × IsBody rest
unfolding decode_frame_bytes
decoded_size a b c d rest body h = (ground arith, (ground arith, ground arith))

-- The bytes of a frame: the length of the body, and the body.
abbrev pub framed : Bytes → Bytes
framed body = to_be_bytes (length body) ++ body

decode-framed : (body : Bytes) → IsBody body → decode_frame_bytes (framed body) ≡ ok body
unfolding to_be_bytes
decode-framed body is_body =
    decode_sized _ _ _ _ body (from_be_bytes-to_be_bytes (length body) (omega (arith, is_body.1)))
      is_body

decoded-framed :
    (frame body : Bytes)
    → All IsByte frame
    → decode_frame_bytes frame ≡ ok body
    → IsBody body × (frame ≡ framed body)
unfolding decode_frame_bytes
decoded-framed (a ∷ b ∷ c ∷ d ∷ rest) body (ha, (hb, (hc, (hd, _)))) h =
    let (size, is_body) = decoded_size a b c d rest body h in
    let same : rest ≡ body =
      ok-injective {E = FrameError} rest body (sym (decode_sized a b c d rest size is_body) ∙ h) in
    subst (λ x. IsBody x × (a ∷ b ∷ c ∷ d ∷ rest ≡ framed x)) same
      (
        is_body,
        ap (λ x. x ++ rest)
            (sym (to_be_bytes-from_be_bytes a b c d ha hb hc hd) ∙ ap to_be_bytes size),
      )
decoded-framed [] body bytes h = absurd cc
decoded-framed (a ∷ []) body bytes h = absurd cc
decoded-framed (a ∷ b ∷ []) body bytes h = absurd cc
decoded-framed (a ∷ b ∷ c ∷ []) body bytes h = absurd cc

-- A byte string is decoded to a body exactly if it is the length of that body as four big-endian bytes
-- and then the body, which is not empty and has at most 1 MiB: nothing is missing or trailing.
pub decode_frame_bytes-ok_iff :
    (frame body : Bytes)
    → All IsByte frame
    → (decode_frame_bytes frame ≡ ok body) ↔ (IsBody body × (frame ≡ framed body))
decode_frame_bytes-ok_iff frame body bytes =
    (decoded-framed frame body bytes, λ h. ap decode_frame_bytes h.1 ∙ decode-framed body h.0)

finish_frame-ok :
    (p : Result Text (Unit {0}) × LimitedWriter) (body : Bytes)
    → p.0 ≡ ok tt
    → p.1.bytes ≡ body
    → IsBody body
    → finish_frame p ≡ ok (framed body)
unfolding finish_frame frame_of
finish_frame-ok (ok _, writer) body written bytes is_body = rw bytes (ground arith)
finish_frame-ok (err message, writer) body written bytes is_body = absurd cc

finish_frame-exceeded :
    (p : Result Text (Unit {0}) × LimitedWriter) (message : Text)
    → p.0 ≡ err message
    → p.1.exceeded ≡ true
    → finish_frame p ≡ err (oversized_frame p.1.bytes_written)
unfolding finish_frame
finish_frame-exceeded (ok _, writer) message failed exceeded = absurd cc
finish_frame-exceeded (err _, writer) message failed exceeded = rw exceeded refl

module _ {T : Type 0} (codec : Codec T) (laws : CodecLaws codec) where
  abbrev pub body_of : T → Bytes
  body_of value = concat (laws.chunks value)

  abbrev written : T → Result Text (Unit {0}) × LimitedWriter
  written value = write_chunks laws.message (new_writer max_frame_bytes) (laws.chunks value)

  -- A value whose body has at most 1 MiB is encoded as the frame of that body, and decoding that frame
  -- gives the value back.
  pub decode_frame-encode_frame :
      (value : T)
      → length (body_of value) ≤ max_frame_bytes
      → (encode_frame codec value ≡ ok (framed (body_of value)))
        × (decode_frame codec (framed (body_of value)) ≡ ok value)
  unfolding encode_frame decode_frame new_writer
  decode_frame-encode_frame value small =
      let fits =
        write_chunks-fits laws.message (new_writer max_frame_bytes) (laws.chunks value)
          (omega arith) in
      let is_body : IsBody (body_of value) = (ground (arith, laws.some_body value), small) in
      (
        ap finish_frame (laws.writes value (new_writer max_frame_bytes))
            ∙ finish_frame-ok (written value) (body_of value) fits.0 fits.1 is_body,
        rw (decode-framed (body_of value) is_body, laws.reads_back value) refl,
      )

  -- A value whose body is longer than 1 MiB is refused as oversized, with a length beyond the limit.
  pub encode_frame-oversized :
      (value : T)
      → max_frame_bytes < length (body_of value)
      → (n : ℕ) × (encode_frame codec value ≡ err (oversized_frame n)) × (max_frame_bytes < n)
  unfolding encode_frame new_writer
  encode_frame-oversized value large =
      let (failed, exceeded, beyond) =
        write_chunks-exceeds laws.message (new_writer max_frame_bytes) (laws.chunks value)
          (omega arith) (omega arith) (omega arith) in
      (
        (written value).1.bytes_written,
        ap finish_frame (laws.writes value (new_writer max_frame_bytes))
            ∙ finish_frame-exceeded (written value) laws.message failed exceeded,
        beyond,
      )
