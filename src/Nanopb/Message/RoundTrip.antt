-- ===== src/Nanopb/Message/RoundTrip.antt =====
-- A message of required scalar fields: `pb_decode` of what `pb_encode` has written.
use between_us.Prelude.{
  ℕ, zero, suc, ◌^◌, ◌≤◌, ◌<◌, ◌≡◌, refl, sym, ap, ◌∙◌, List, [], All, none, length, length-append,
  arith,
}
use mathlib.Core.Path.{subst}
use between_us.Prelude.Outcome.{Outcome, ok, fail, M, >>=_ok}
use between_us.Nanopb.Field.{Field, Memory}
use between_us.Nanopb.Iter.{field_at, begin}
use between_us.Nanopb.Iter.Walk.{nth}
use between_us.Nanopb.Input.{pb_istream_from_buffer}
use between_us.Nanopb.Output.{buffer, pb_ostream_from_buffer}
use between_us.Nanopb.Wire.RoundTrip.{reading}
use between_us.Nanopb.Encode.Grow.{IsMemory}
use between_us.Nanopb.Encode.Message.{pb_encode}
use between_us.Nanopb.Encode.Message as Writer
use between_us.Nanopb.Decode.State.{Externals, Decoder}
use between_us.Nanopb.Decode.Seen.{Locals}
use between_us.Nanopb.Decode.Reset.{pb_message_set_to_defaults, pb_release}
use between_us.Nanopb.Decode.Message.{
  message_loop, check_complete, decode_message, with_count, decode_with, pb_decode_noinit,
  pb_decode,
}
use between_us.Nanopb.Decode.Scalars.{over}
use between_us.Nanopb.Message.Scalar.{IsScalar, field_bytes}
use between_us.Nanopb.Message.Encode.{IsPresent, bytes_from, message_bytes, pb_encode_scalars}
use between_us.Nanopb.Message.Decode.{IsUnique}
use between_us.Nanopb.Message.Loop.{put_from, message_loop_scalars, length-field_bytes}
use between_us.Nanopb.Message.Complete.{check_complete_scalars}
use between_us.Nanopb.Message.Layout.{IsApart, words, words-put_from}

length-bytes_from :
    (m : Memory) (fields : List Field) (src k rounds : ℕ)
    → rounds ≤ length (bytes_from m fields src k rounds)
unfolding bytes_from
length-bytes_from m fields src k zero = omega arith
length-bytes_from m fields src k (suc rounds) =
    let f = field_at fields k in
    let a = (nth fields src k).p_data in
    omega (
      arith,
      length-field_bytes m f a,
      length-append (field_bytes m f a) (bytes_from m fields src (suc k) rounds),
      length-bytes_from m fields src (suc k) rounds,
    )

module _ (ext : Externals) (depth : ℕ) (decode noinit : ℕ → ℕ → M Decoder (Unit {0})) (m : Memory)
    (fields : List Field) (src dest : ℕ) (is_memory : IsMemory m) (scalars : All IsScalar fields)
    (unique : IsUnique fields) (some_field : 1 ≤ length fields) (few : length fields ≤ 64) where
  decode_message_scalars :
      (d : Decoder)
      → let bytes = message_bytes m fields src in
        decode_message ext depth decode noinit fields dest (over d bytes (length bytes) none)
        ≡ ok tt
            (record (over d [] 0 none) { mem = put_from m fields src dest 0 (length fields) d.mem })
  unfolding decode_message nth
  decode_message_scalars d =
      let bytes = message_bytes m fields src in
      let l : Locals = record {
        seen_low = 0;
        seen_high = 0;
        extension_range_start = 0;
        iter = begin fields dest;
        fixed_count_field = none;
      } in
      let enough = length-bytes_from m fields src 0 (length fields) in
      let loop =
        message_loop_scalars ext depth decode noinit m is_memory fields src dest scalars unique
          (length fields) (suc (length bytes)) 0 0 l none d (omega arith) (omega (arith, enough))
          (omega arith) refl in
      >>=_ok (message_loop ext depth decode noinit (suc (length bytes)) l)
        (check_complete ext depth decode noinit) (over d bytes (length bytes) none) _ _ loop
      ∙ check_complete_scalars fields dest scalars ext depth decode noinit l _ some_field few refl
          refl refl

with_count-ok :
    (run : M Decoder (Unit {0})) (d d' : Decoder)
    → run (record d { count = 0 }) ≡ ok tt d'
    → with_count run d ≡ ok tt (record d' { count = d.count })
unfolding with_count
with_count-ok run d d' e =
    ap
      (λ o. elim o as (λ x. Outcome Decoder (Unit {0})) [
        | ok _ t ↦ ok tt (record t { count = d.count })
        | fail t ↦ fail (record t { count = d.count })
      ])
      e

decode_with-ok :
    (ext : Externals) (depth : ℕ) (noinit : ℕ → ℕ → M Decoder (Unit {0})) (address dest : ℕ)
    (d d' : Decoder)
    → noinit address dest
        (record d { mem = pb_message_set_to_defaults ext depth address dest d.mem })
      ≡ ok tt d'
    → decode_with ext depth noinit address dest d ≡ ok tt d'
unfolding decode_with
decode_with-ok ext depth noinit address dest d d' e =
    ap
      (λ o. elim o as (λ x. Outcome Decoder (Unit {0})) [
        | ok _ t ↦ ok tt t
        | fail t ↦ fail (record t { mem = pb_release ext depth address dest t.mem })
      ])
      e

module _ (ext : Externals) (m : Memory) (fields : List Field) (src dest : ℕ)
    (is_memory : IsMemory m) (scalars : All IsScalar fields) (unique : IsUnique fields)
    (some_field : 1 ≤ length fields) (few : length fields ≤ 64) where
  pb_decode_scalars :
      (depth address : ℕ) (d : Decoder)
      → ext.descriptor address ≡ fields
      → let bytes = message_bytes m fields src in
        let mem' = pb_message_set_to_defaults ext (suc depth) address dest d.mem in
        pb_decode ext (suc depth) address dest (over d bytes (length bytes) none)
        ≡ ok tt
            (record (over d [] 0 none) { mem = put_from m fields src dest 0 (length fields) mem' })
  unfolding pb_decode pb_decode_noinit
  pb_decode_scalars depth address d same =
      let bytes = message_bytes m fields src in
      let noinit = pb_decode_noinit ext depth in
      let decode = decode_with ext depth noinit in
      let mem' = pb_message_set_to_defaults ext (suc depth) address dest d.mem in
      let d1 : Decoder = record { stream = d.stream; mem = mem'; count = 0 } in
      let d2 : Decoder = record {
        stream = reading [] 0 none;
        mem = put_from m fields src dest 0 (length fields) mem';
        count = d.count;
      } in
      let inner =
        decode_message_scalars ext depth decode noinit m fields src dest is_memory scalars unique
          some_field few d1 in
      let counted =
        with_count-ok (decode_message ext depth decode noinit fields dest)
          (record (over d bytes (length bytes) none) { mem = mem' }) _ inner in
      let named =
        subst
          (λ (fs : List Field).
            with_count (decode_message ext depth decode noinit fs dest)
              (record (over d bytes (length bytes) none) { mem = mem' })
            ≡ ok tt d2)
          (sym same) counted in
      decode_with-ok ext (suc depth) (pb_decode_noinit ext (suc depth)) address dest
        (over d bytes (length bytes) none) d2 named

-- A message whose fields are required and of scalar types (`bool`, the signed, unsigned and zigzag varints,
-- and the words of four and eight bytes), from 1 to 64 of them with different tags, comes through:
-- `pb_encode` into a buffer with room for its bytes succeeds and writes exactly these, and
-- `pb_decode` of these bytes into another struct with the same descriptors, whatever that memory
-- held before, succeeds, has used up the stream, and each field there holds the word, or the truth
-- value, that it holds in the first struct. The memory consists of bytes, no field of the first
-- struct is at the null address, and the fields of the second one follow one another without overlap.
pub pb_decode-pb_encode :
    (enc : Writer.Externals) (dec : Externals) (m : Memory)
    (depth depth' address address' src dest max : ℕ) (d : Decoder)
    → dec.descriptor address' ≡ enc.descriptor address
    → IsMemory m
    → All IsScalar (enc.descriptor address)
    → IsUnique (enc.descriptor address)
    → 1 ≤ length (enc.descriptor address)
    → length (enc.descriptor address) ≤ 64
    → IsPresent (enc.descriptor address) src
    → IsApart (enc.descriptor address) dest
    → max < 2 ^ 63
    → length (message_bytes m (enc.descriptor address) src) ≤ max
    → let fields = enc.descriptor address in
      let bytes = message_bytes m fields src in
      let empty = pb_ostream_from_buffer max in
      (pb_encode enc m (suc depth) address src empty
        ≡ ok tt (record empty { sink = buffer bytes; bytes_written = length bytes }))
      × ((d' : Decoder) × (pb_decode dec
              (suc depth')
              address'
              dest
              (record d { stream = pb_istream_from_buffer bytes (length bytes) })
            ≡ ok tt d')
          × (d'.stream.bytes_left ≡ 0)
          × (words d'.mem fields dest ≡ words m fields src))
unfolding pb_ostream_from_buffer pb_istream_from_buffer
pb_decode-pb_encode enc dec m depth depth' address address' src dest max d same is_memory scalars
      unique some_field few there apart small room =
    let fields = enc.descriptor address in
    let written = pb_encode_scalars enc m depth address src max scalars there small room in
    let read =
      pb_decode_scalars dec m fields src dest is_memory scalars unique some_field few depth'
        address' d same in
    (written, (_, read, refl, words-put_from m fields src dest is_memory scalars apart _))
