-- ===== src/LocalRpc/Framing/Writer.antt =====
-- What `LimitedWriter` does with a body that comes in chunks.
use next_infra.Base.{
  ℕ, ◌+◌, ◌-◌, ◌^◌, ◌<◌, ◌≤◌, true, false, List, [], ◌∷◌, ◌++◌, Text, Result, ok, err, length,
  length-append, ltb, ◌≡◌, ◌≢◌, refl, sym, ap, ◌∙◌, arith, Bool-cases, inl, inr,
}
use mathlib.Core.List.{append_assoc, append-nil}
use next_infra.LocalRpc.Bytes.{Bytes, concat}
use next_infra.LocalRpc.Framing.{LimitedWriter, write, saturating_add, Codec}

-- `Write::write_all` of one chunk after another. A chunk is taken whole or not at all, so that each
-- is one call of `write`.
unfoldable pub write_chunks :
    Text → LimitedWriter → List Bytes → Result Text (Unit {0}) × LimitedWriter
write_chunks message writer [] = (ok tt, writer)
write_chunks message writer (chunk ∷ chunks) =
    let (written, writer') = write writer chunk in
    elim written [ ok count ↦ write_chunks message writer' chunks | err _ ↦ (err message, writer') ]

-- What the frames rely on: a value is written in chunks, up to the first error of the writer, it is
-- never written as nothing, and what was written reads back.
pub record CodecLaws {T : Type 0} (codec : Codec T) : Type 0 where
  pub chunks : T → List Bytes
  pub message : Text
  pub writes :
      (value : T) (writer : LimitedWriter)
      → codec.to_writer value writer ≡ write_chunks message writer (chunks value)
  pub some_body : (value : T) → length (concat (chunks value)) ≢ 0
  pub reads_back : (value : T) → codec.from_slice (concat (chunks value)) ≡ ok value

-- The writer after it took the chunk, and after it refused it.
abbrev taken : LimitedWriter → Bytes → LimitedWriter
taken w chunk = record w { bytes = w.bytes ++ chunk; bytes_written = length (w.bytes ++ chunk) }

abbrev refused : LimitedWriter → Bytes → LimitedWriter
refused w chunk = record w {
  exceeded = true;
  bytes_written = saturating_add (length w.bytes) (length chunk);
}

write-taken :
    (w : LimitedWriter) (chunk : Bytes)
    → ltb (w.limit - length w.bytes) (length chunk) ≡ false
    → write w chunk ≡ (ok (length chunk), taken w chunk)
unfolding write
write-taken w chunk h = rw h refl

write-refused :
    (w : LimitedWriter) (chunk : Bytes)
    → ltb (w.limit - length w.bytes) (length chunk) ≡ true
    → write w chunk ≡ (err tt, refused w chunk)
unfolding write
write-refused w chunk h = rw h refl

write_chunks-next :
    (message : Text) (w w' : LimitedWriter) (chunk : Bytes) (chunks : List Bytes)
    (written : Result (Unit {0}) ℕ)
    → write w chunk ≡ (written, w')
    → write_chunks message w (chunk ∷ chunks)
      ≡ elim written [ ok count ↦ write_chunks message w' chunks | err _ ↦ (err message, w') ]
unfolding write_chunks
write_chunks-next message w w' chunk chunks written h =
    ap
      (λ (p : Result (Unit {0}) ℕ × LimitedWriter). elim p.0 [
        | ok count ↦ write_chunks message p.1 chunks
        | err _ ↦ (err message, p.1)
      ])
      h

fits_test : (limit filled more : ℕ) → filled + more ≤ limit → ltb (limit - filled) more ≡ false
fits_test limit filled more h = ground arith

full_test :
    (limit filled more : ℕ)
    → ltb (limit - filled) more ≡ false
    → filled ≤ limit
    → filled + more ≤ limit
full_test limit filled more h k = ground arith

no_chunks :
    (message : Text) (w : LimitedWriter)
    → ((write_chunks message w []).0 ≡ ok tt)
      × ((write_chunks message w []).1.bytes ≡ w.bytes ++ [])
unfolding write_chunks
no_chunks message w = (refl, sym (append-nil w.bytes))

pub write_chunks-fits :
    (message : Text) (w : LimitedWriter) (chunks : List Bytes)
    → length w.bytes + length (concat chunks) ≤ w.limit
    → ((write_chunks message w chunks).0 ≡ ok tt)
      × ((write_chunks message w chunks).1.bytes ≡ w.bytes ++ concat chunks)
unfolding concat
write_chunks-fits message w [] h = no_chunks message w
write_chunks-fits message w (chunk ∷ chunks) h =
    let sizes = length-append chunk (concat chunks) in
    let first = length-append w.bytes chunk in
    let test = fits_test w.limit (length w.bytes) (length chunk) (omega arith) in
    let rest = write_chunks-fits message (taken w chunk) chunks (omega arith) in
    rw (write_chunks-next message w (taken w chunk) chunk chunks _ (write-taken w chunk test))
      (rest.0, rest.1 ∙ append_assoc w.bytes chunk (concat chunks))

pub write_chunks-exceeds :
    (message : Text) (w : LimitedWriter) (chunks : List Bytes)
    → length w.bytes ≤ w.limit
    → w.limit < 2 ^ 64 - 1
    → w.limit < length w.bytes + length (concat chunks)
    → ((write_chunks message w chunks).0 ≡ err message)
      × ((write_chunks message w chunks).1.exceeded ≡ true)
      × (w.limit < (write_chunks message w chunks).1.bytes_written)
unfolding concat
write_chunks-exceeds message w [] within small h = absurd (omega arith)
write_chunks-exceeds message w (chunk ∷ chunks) within small h =
    let sizes = length-append chunk (concat chunks) in
    let first = length-append w.bytes chunk in
    elim (Bool-cases (ltb (w.limit - length w.bytes) (length chunk))) [
      | inl full ↦
          rw
            (write_chunks-next message w (refused w chunk) chunk chunks _
              (write-refused w chunk full))
            (refl, refl, ground arith)
      | inr fits ↦
          let now = full_test w.limit (length w.bytes) (length chunk) fits within in
          rw (write_chunks-next message w (taken w chunk) chunk chunks _ (write-taken w chunk fits))
            (write_chunks-exceeds message (taken w chunk) chunks (omega arith) small (omega arith))
    ]
