-- ===== src/Nanopb/Encode/Counts.antt =====
-- What the field encoders of Encode/Value write, they count.
pub mod Submessage
use between_us.Prelude.{
  ℕ, zero, suc, ◌+◌, ◌-◌, ◌^◌, ◌≤◌, ◌<◌, ◌≡◌, refl, ap, Bool, true, false, if◌then◌else◌,
}
use between_us.Prelude.{List, [], length, none, arith}
use between_us.Prelude.Outcome.{Outcome, ok, fail, M, ◌>>=◌, final}
use between_us.Nanopb.Error.{stream_full, invalid_field_type, bytes_size_exceeded}
use between_us.Nanopb.Output.{
  Ostream, buffer, sizing, return_error, sizing_stream, count_only, add_size,
}
use between_us.Nanopb.Output.Scalars.{pb_encode_varint, pb_encode_string}
use between_us.Nanopb.Output.Laws.{IsBounded}
use between_us.Nanopb.Output.Counts.{
  Pair, Agree, Same, Counting, Counting-if, Counting-return_error, Counting->>=,
  pb_encode_varint-Counting, pb_encode_string-Counting, counting,
}
use native.Mathlib.Decide.{dec_le}
use between_us.Nanopb.Field.{Field, Memory, load, load_bytes}
use between_us.Nanopb.Encode.Grow.{IsMemory, length-load_bytes, text_length-le, load_size-lt}
use between_us.Nanopb.Encode.Value.{
  pb_encode_tag_for_field, pb_enc_bool, pb_enc_varint, pb_enc_uvarint, pb_enc_svarint,
  pb_enc_fixed32, pb_enc_fixed64, pb_enc_bytes, text_length, pb_enc_string,
  pb_enc_fixed_length_bytes, finish_submessage, write_submessage, pb_encode_submessage,
  pb_enc_submessage, encode_value,
}

pub pb_encode_tag_for_field-Counting : (f : Field) → Counting (pb_encode_tag_for_field f)
unfolding pb_encode_tag_for_field
pb_encode_tag_for_field-Counting f = search counting depth 9

module _ (m : Memory) where
  pb_enc_bool-Counting : (src : ℕ) → Counting (pb_enc_bool m src)
  unfolding pb_enc_bool
  pb_enc_bool-Counting src = search counting

  pb_enc_varint-Counting : (f : Field) (src : ℕ) → Counting (pb_enc_varint m f src)
  unfolding pb_enc_varint
  pb_enc_varint-Counting f src = search counting

  pb_enc_uvarint-Counting : (f : Field) (src : ℕ) → Counting (pb_enc_uvarint m f src)
  unfolding pb_enc_uvarint
  pb_enc_uvarint-Counting f src = search counting

  pb_enc_svarint-Counting : (f : Field) (src : ℕ) → Counting (pb_enc_svarint m f src)
  unfolding pb_enc_svarint
  pb_enc_svarint-Counting f src = search counting

  pb_enc_fixed32-Counting : (src : ℕ) → Counting (pb_enc_fixed32 m src)
  unfolding pb_enc_fixed32
  pb_enc_fixed32-Counting src = search counting

  pb_enc_fixed64-Counting : (src : ℕ) → Counting (pb_enc_fixed64 m src)
  unfolding pb_enc_fixed64
  pb_enc_fixed64-Counting src = search counting

  -- Bytes of the memory, fewer than a `size_t` counts.
  string-Counting : (a n : ℕ) → n < 2 ^ 64 → Counting (pb_encode_string (load_bytes m a n))
  string-Counting a n h = pb_encode_string-Counting _ (rw (length-load_bytes m a n) h)

  pb_enc_bytes-Counting : IsMemory m → (f : Field) (src : ℕ) → Counting (pb_enc_bytes m f src)
  unfolding pb_enc_bytes
  pb_enc_bytes-Counting is_memory f src =
      let short : load m src 4 < 2 ^ 64 = omega (arith, load_size-lt m src is_memory) in
      let empty = pb_encode_string-Counting [] (omega arith) in
      let stored = string-Counting (src + 4) (load m src 4) short in
      Counting-if _ _ _ empty (Counting-if _ _ _ (Counting-return_error bytes_size_exceeded) stored)

  pb_enc_string-Counting :
      (f : Field) (src : ℕ) → f.data_size < 2 ^ 32 → Counting (pb_enc_string m f src)
  unfolding pb_enc_string
  pb_enc_string-Counting f src small =
      string-Counting src _
        (ground (arith, text_length-le m (2 ^ 64 - 1) src, text_length-le m f.data_size src))

  pb_enc_fixed_length_bytes-Counting :
      (f : Field) (src : ℕ) → f.data_size < 2 ^ 32 → Counting (pb_enc_fixed_length_bytes m f src)
  unfolding pb_enc_fixed_length_bytes
  pb_enc_fixed_length_bytes-Counting f src small = string-Counting src _ (omega arith)
