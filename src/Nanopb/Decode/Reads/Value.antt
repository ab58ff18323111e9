-- ===== src/Nanopb/Decode/Reads/Value.antt =====
-- The field decoders of pb_decode.c stay within the stream.
use between_us.Prelude.{ℕ, ◌+◌, ◌%◌, ◌^◌, not, ltb, ◌==◌}
use between_us.Prelude.Outcome.{Outcome, ok, fail, M, ◌>>=◌}
use between_us.Nanopb.Error.{
  integer_too_large, invalid_data_size, bytes_overflow, size_too_large, end_of_stream,
  string_overflow, invalid_field_descriptor, incorrect_fixed_length, invalid_field_type,
}
use between_us.Nanopb.Input.{pb_read}
use between_us.Nanopb.Input.Varint.{
  pb_decode_varint32, pb_decode_varint, pb_decode_svarint, pb_decode_fixed32, pb_decode_fixed64,
}
use between_us.Nanopb.Input.Laws.{pb_read-Consuming}
use between_us.Nanopb.Input.Bounds.{
  pb_decode_varint-Consuming, pb_decode_svarint-Consuming, pb_decode_fixed32-Consuming,
  pb_decode_fixed64-Consuming, pb_decode_varint32-Consuming,
}
use between_us.Nanopb.Field.{Field, ltype, htype, atype, load_pointer, pb_size_max}
use between_us.Nanopb.Field.Ltype
use between_us.Nanopb.Field.Htype
use between_us.Nanopb.Field.Atype
use between_us.Nanopb.Encode.Value.{is_word}
use between_us.Nanopb.Decode.State.{Externals, Decoder, modify, store, lift, allocate_field}
use between_us.Nanopb.Decode.Value.{
  store_clamped, store_signed, pb_dec_bool, pb_dec_varint, pb_dec_uvarint, pb_dec_svarint,
  pb_dec_fixed32, pb_dec_fixed64, read_to, allocate_text, pb_dec_bytes, read_string, pb_dec_string,
  pb_dec_submessage, pb_dec_fixed_length_bytes, decode_value,
}
use between_us.Nanopb.Decode.Reads.{
  Reads, Reading, Reads-ok, Reads-throw, Reading-pure, Reading-throw, Reading-modify, Reads->>=,
  Reading->>=, Reading-if, Reads-if, Reading-lift, close_after-Reads, Reading-substream,
  Reads-either, Opened-throw, allocate_field-Reading,
}

abbrev Done : Type 0
Done = Unit {0}

store_clamped-Reading : (n dest value clamped : ℕ) → Reading (store_clamped n dest value clamped)
unfolding store_clamped
store_clamped-Reading n dest value clamped =
    Reading->>= (modify (store dest n value)) _ (Reading-modify _) (λ _.
      Reading-if (clamped == value) _ _ (Reading-pure tt) (Reading-throw Done integer_too_large))

store_signed-Reading : (f : Field) (dest svalue : ℕ) → Reading (store_signed f dest svalue)
unfolding store_signed
store_signed-Reading f dest svalue =
    Reading-if (is_word f.data_size) _ _ (store_clamped-Reading f.data_size dest svalue _)
      (Reading-throw Done invalid_data_size)

pb_dec_uvarint-Reading : (f : Field) (dest : ℕ) → Reading (pb_dec_uvarint f dest)
unfolding pb_dec_uvarint
pb_dec_uvarint-Reading f dest =
    Reading->>= (lift pb_decode_varint) _ (Reading-lift _ pb_decode_varint-Consuming) (λ value.
      Reading-if (is_word f.data_size) _ _ (store_clamped-Reading f.data_size dest value _)
        (Reading-throw Done invalid_data_size))

pub read_to-Reading : (dest size : ℕ) → Reading (read_to dest size)
unfolding read_to
read_to-Reading dest size =
    Reading->>= (lift (pb_read size)) _ (Reading-lift _ (pb_read-Consuming size))
      (λ bytes. Reading-modify _)

allocate_text-Reading :
    (ext : Externals) (dest size alloc_size : ℕ) → Reading (allocate_text ext dest size alloc_size)
unfolding allocate_text
allocate_text-Reading ext dest size alloc_size = record {
  run = λ d. Reads-if (ltb d.stream.bytes_left size) d.stream _ _ (Reads-throw end_of_stream d) (
      Reads->>= d.stream (allocate_field ext dest alloc_size 1) d _
        ((allocate_field-Reading ext dest alloc_size 1).run d)
        (λ _ t. Reads-ok (load_pointer t.mem dest) t));
}

fill-Reading :
    (bdest size : ℕ)
    → Reading (modify (store bdest 4 size) >>= λ (u : Unit {0}). read_to (bdest + 4) size)
fill-Reading bdest size =
    Reading->>= (modify (store bdest 4 size)) _ (Reading-modify _)
      (λ _. read_to-Reading (bdest + 4) size)

pb_dec_bytes-Reading : (ext : Externals) (f : Field) (dest : ℕ) → Reading (pb_dec_bytes ext f dest)
unfolding pb_dec_bytes
pb_dec_bytes-Reading ext f dest =
    Reading->>= (lift pb_decode_varint32) _ (Reading-lift _ pb_decode_varint32-Consuming) (λ size.
      Reading-if (ltb pb_size_max size) _ _ (Reading-throw Done bytes_overflow) (
        Reading-if (ltb ((size + 4) % 2 ^ 64) size) _ _ (Reading-throw Done size_too_large) (
          Reading-if (atype f == Atype.pointer) _ _
            (Reading->>= (allocate_text ext dest size ((size + 4) % 2 ^ 64)) _
              (allocate_text-Reading ext dest size _) (λ bdest. fill-Reading bdest size))
            (Reading-if (ltb f.data_size ((size + 4) % 2 ^ 64)) _ _
              (Reading-throw Done bytes_overflow) (fill-Reading dest size)))))

read_string-Reading : (size dest : ℕ) → Reading (read_string size dest)
unfolding read_string
read_string-Reading size dest = record {
  run = λ d. by_cases d (read_to dest size d) ((read_to-Reading dest size).run d);
}
  where
    by_cases :
        (d : Decoder) (o : Outcome Decoder Done)
        → Reads d.stream o
        → Reads d.stream (elim o as (λ x. Outcome Decoder Done) [
          | ok _ d' ↦ modify (store (dest + size) 1 0) d'
          | fail d' ↦ fail (record d' { mem = store (dest + size) 1 0 d'.mem })
        ])
    by_cases d (ok _ d') h = record { runs = h.runs }
    by_cases d (fail d') h = record { runs = h.runs }

pb_dec_string-Reading :
    (ext : Externals) (f : Field) (dest : ℕ) → Reading (pb_dec_string ext f dest)
unfolding pb_dec_string
pb_dec_string-Reading ext f dest =
    Reading->>= (lift pb_decode_varint32) _ (Reading-lift _ pb_decode_varint32-Consuming) (λ size.
      Reading-if (ltb ((size + 1) % 2 ^ 32) size) _ _ (Reading-throw Done size_too_large) (
        Reading-if (atype f == Atype.pointer) _ _
          (Reading->>= (allocate_text ext dest size ((size + 1) % 2 ^ 32)) _
            (allocate_text-Reading ext dest size _) (λ p. read_string-Reading size p))
          (Reading-if (ltb f.data_size ((size + 1) % 2 ^ 32)) _ _
            (Reading-throw Done string_overflow) (read_string-Reading size dest))))

pb_dec_fixed_length_bytes-Reading :
    (f : Field) (dest : ℕ) → Reading (pb_dec_fixed_length_bytes f dest)
unfolding pb_dec_fixed_length_bytes
pb_dec_fixed_length_bytes-Reading f dest =
    Reading->>= (lift pb_decode_varint32) _ (Reading-lift _ pb_decode_varint32-Consuming) (λ size.
      Reading-if (ltb pb_size_max size) _ _ (Reading-throw Done bytes_overflow) (
        Reading-if (size == 0) _ _ (Reading-modify _) (
          Reading-if (not (size == f.data_size)) _ _ (Reading-throw Done incorrect_fixed_length)
            (read_to-Reading dest f.data_size))))

-- `pb_decode` and `pb_decode_noinit` below a message.
module _ (ext : Externals) (decode noinit : ℕ → ℕ → M Decoder (Unit {0}))
    (decodes : (fields dest : ℕ) → Reading (decode fields dest))
    (noinits : (fields dest : ℕ) → Reading (noinit fields dest)) where
  submessage-Reading : (f : Field) (dest : ℕ) → Reading (pb_dec_submessage decode noinit f dest)
  unfolding pb_dec_submessage
  submessage-Reading f dest = Reading-substream _ (λ t sub d o.
      Reads-either (f.ptr == 0) t d _ _ (Opened-throw t sub d invalid_field_descriptor o) (
        close_after-Reads t sub d.stream _ o (
          (Reading-if (htype f == Htype.repeated) _ _ (decodes f.ptr dest) (noinits f.ptr dest)).run
            (record d { stream = sub }))))

  pub decode_value-Reading :
      (f : Field) (dest : ℕ) → Reading (decode_value ext decode noinit f dest)
  unfolding decode_value pb_dec_bool pb_dec_varint pb_dec_svarint pb_dec_fixed32 pb_dec_fixed64
  decode_value-Reading f dest =
      let varint32 = Reading-lift pb_decode_varint32 pb_decode_varint32-Consuming in
      let varint = Reading-lift pb_decode_varint pb_decode_varint-Consuming in
      let svarint = Reading-lift pb_decode_svarint pb_decode_svarint-Consuming in
      let fixed32 = Reading-lift pb_decode_fixed32 pb_decode_fixed32-Consuming in
      let fixed64 = Reading-lift pb_decode_fixed64 pb_decode_fixed64-Consuming in
      Reading-if (ltype f == Ltype.bool) _ _ (Reading->>= _ _ varint32 (λ v. Reading-modify _)) (
        Reading-if (ltype f == Ltype.varint) _ _
          (Reading->>= _ _ varint (λ v. store_signed-Reading f dest _))
          (Reading-if (ltype f == Ltype.uvarint) _ _ (pb_dec_uvarint-Reading f dest) (
            Reading-if (ltype f == Ltype.svarint) _ _
              (Reading->>= _ _ svarint (λ v. store_signed-Reading f dest v))
              (Reading-if (ltype f == Ltype.fixed32) _ _
                (Reading->>= _ _ fixed32 (λ v. Reading-modify _))
                (Reading-if (ltype f == Ltype.fixed64) _ _
                  (Reading->>= _ _ fixed64 (λ v. Reading-modify _))
                  (Reading-if (ltype f == Ltype.bytes) _ _ (pb_dec_bytes-Reading ext f dest) (
                    Reading-if (ltype f == Ltype.string) _ _ (pb_dec_string-Reading ext f dest) (
                      Reading-if (ltype f == Ltype.submessage) _ _ (submessage-Reading f dest) (
                        Reading-if (ltype f == Ltype.fixed_length_bytes) _ _
                          (pb_dec_fixed_length_bytes-Reading f dest)
                          (Reading-throw Done invalid_field_type))))))))))
