-- ===== src/Nanopb/Encode/Grow.antt =====
-- The field encoders of Encode/Value grow the stream that they write to.
use between_us.Prelude.{ℕ, zero, suc, ◌+◌, ◌-◌, ◌^◌, ◌≤◌, ◌<◌, ◌≡◌, refl, ap}
use between_us.Prelude.{List, [], length, none, arith}
use between_us.Prelude.Outcome.{Outcome, ok, fail, M, final}
use between_us.Nanopb.Error.{stream_full, invalid_field_type, bytes_size_exceeded}
use between_us.Nanopb.Output.{Ostream, buffer, return_error, sizing_stream}
use between_us.Nanopb.Output.Scalars.{pb_encode_varint, pb_encode_string}
use between_us.Nanopb.Output.Laws.{
  IsBounded, Extends, Grows, Growing, nothing_added, Growing-if, Growing-return_error, Growing->>=,
  pb_encode_varint-Growing, pb_encode_string-Growing, growing,
}
use native.Mathlib.Decide.{dec_le}
use between_us.Nanopb.Field.{Field, Memory, load, load_bytes}
use between_us.Nanopb.Encode.Value.{
  pb_encode_tag_for_field, pb_enc_bool, pb_enc_varint, pb_enc_uvarint, pb_enc_svarint,
  pb_enc_fixed32, pb_enc_fixed64, pb_enc_bytes, text_length, pb_enc_string,
  pb_enc_fixed_length_bytes, finish_submessage, write_submessage, pb_encode_submessage,
  pb_enc_submessage, encode_value,
}

pub length-load_bytes : (m : Memory) (a n : ℕ) → length (load_bytes m a n) ≡ n
unfolding load_bytes
length-load_bytes m a zero = refl
length-load_bytes m a (suc n) = ap suc (length-load_bytes m (a + 1) n)

pub text_length-le : (m : Memory) (n p : ℕ) → text_length m n p ≤ n
unfolding text_length
text_length-le m zero p = omega arith
text_length-le m (suc n) p = ground (arith, text_length-le m n (p + 1))

-- The bytes of a memory are bytes.
abbrev pub IsMemory : Memory → Type 0
IsMemory m = (a : ℕ) → m a < 256

pub load_size-lt : (m : Memory) (a : ℕ) → IsMemory m → load m a 4 < 2 ^ 32
unfolding load
load_size-lt m a h = omega (arith, h a, h (a + 1), h (a + 1 + 1), h (a + 1 + 1 + 1))

pub pb_encode_tag_for_field-Growing : (f : Field) → Growing (pb_encode_tag_for_field f)
unfolding pb_encode_tag_for_field
pb_encode_tag_for_field-Growing f = search growing depth 9

module _ (m : Memory) where
  pb_enc_bool-Growing : (src : ℕ) → Growing (pb_enc_bool m src)
  unfolding pb_enc_bool
  pb_enc_bool-Growing src = search growing

  pb_enc_varint-Growing : (f : Field) (src : ℕ) → Growing (pb_enc_varint m f src)
  unfolding pb_enc_varint
  pb_enc_varint-Growing f src = search growing

  pb_enc_uvarint-Growing : (f : Field) (src : ℕ) → Growing (pb_enc_uvarint m f src)
  unfolding pb_enc_uvarint
  pb_enc_uvarint-Growing f src = search growing

  pb_enc_svarint-Growing : (f : Field) (src : ℕ) → Growing (pb_enc_svarint m f src)
  unfolding pb_enc_svarint
  pb_enc_svarint-Growing f src = search growing

  pb_enc_fixed32-Growing : (src : ℕ) → Growing (pb_enc_fixed32 m src)
  unfolding pb_enc_fixed32
  pb_enc_fixed32-Growing src = search growing

  pb_enc_fixed64-Growing : (src : ℕ) → Growing (pb_enc_fixed64 m src)
  unfolding pb_enc_fixed64
  pb_enc_fixed64-Growing src = search growing

  -- Bytes of the memory, fewer than a `size_t` counts.
  string-Growing : (a n : ℕ) → n < 2 ^ 64 → Growing (pb_encode_string (load_bytes m a n))
  string-Growing a n h = pb_encode_string-Growing _ (rw (length-load_bytes m a n) h)

  pb_enc_bytes-Growing : IsMemory m → (f : Field) (src : ℕ) → Growing (pb_enc_bytes m f src)
  unfolding pb_enc_bytes
  pb_enc_bytes-Growing is_memory f src =
      let short : load m src 4 < 2 ^ 64 = omega (arith, load_size-lt m src is_memory) in
      let empty = pb_encode_string-Growing [] (omega arith) in
      let stored = string-Growing (src + 4) (load m src 4) short in
      Growing-if _ _ _ empty (Growing-if _ _ _ (Growing-return_error _ bytes_size_exceeded) stored)

  pb_enc_string-Growing :
      (f : Field) (src : ℕ) → f.data_size < 2 ^ 32 → Growing (pb_enc_string m f src)
  unfolding pb_enc_string
  pb_enc_string-Growing f src small =
      string-Growing src _
        (ground (arith, text_length-le m (2 ^ 64 - 1) src, text_length-le m f.data_size src))

  pb_enc_fixed_length_bytes-Growing :
      (f : Field) (src : ℕ) → f.data_size < 2 ^ 32 → Growing (pb_enc_fixed_length_bytes m f src)
  unfolding pb_enc_fixed_length_bytes
  pb_enc_fixed_length_bytes-Growing f src small = string-Growing src _ (omega arith)

-- How submessages are encoded: each adds to the stream, and none has 2 ^ 63 bytes or more.
pub record IsEncoder (sub : ℕ → ℕ → M Ostream (Unit {0})) : Type 0 where
  pub grows : (fields src : ℕ) → Growing (sub fields src)
  pub small :
      (fields src : ℕ) (t : Ostream)
      → sub fields src sizing_stream ≡ ok tt t
      → t.bytes_written < 2 ^ 63

-- The stream through which the second pass of a submessage writes.
abbrev pub inner_stream : Ostream → ℕ → Ostream
inner_stream s size = record { sink = s.sink; max_size = size; bytes_written = 0; errmsg = none }

finish_submessage-Extends :
    (s : Ostream) (w bytes : List ℕ) (size : ℕ) (o : Outcome Ostream (Unit {0}))
    → s.bytes_written + size ≤ s.max_size
    → IsBounded s
    → Extends (inner_stream s size) w (final o) bytes
    → Extends s w (final (finish_submessage size o s)) bytes
unfolding finish_submessage
finish_submessage-Extends s w bytes size (ok a t) room v e = ground arith
finish_submessage-Extends s w bytes size (fail t) room v e = ground arith

module _ (m : Memory) (sub : ℕ → ℕ → M Ostream (Unit {0})) where
  pub write_submessage_room :
      (fields src size : ℕ) (s : Ostream) (w : List ℕ)
      → s.sink ≡ buffer w
      → IsBounded s
      → s.bytes_written + size ≤ s.max_size
      → write_submessage m sub fields src size s
        ≡ finish_submessage size (sub fields src (inner_stream s size)) s
  unfolding write_submessage
  write_submessage_room fields src size s w stored v room = ground arith

  pub write_submessage_full :
      (fields src size : ℕ) (s : Ostream) (w : List ℕ)
      → s.sink ≡ buffer w
      → IsBounded s
      → size < 2 ^ 63
      → s.max_size < s.bytes_written + size
      → write_submessage m sub fields src size s ≡ return_error stream_full s
  unfolding write_submessage
  write_submessage_full fields src size s w stored v small full = ground arith

module _ (m : Memory) (sub : ℕ → ℕ → M Ostream (Unit {0})) (is_encoder : IsEncoder sub) where
  finish_submessage-Grows :
      (fields src size : ℕ) (s : Ostream)
      → s.bytes_written + size ≤ s.max_size
      → Grows s (final (finish_submessage size (sub fields src (inner_stream s size)) s))
  finish_submessage-Grows fields src size s room w stored v =
      let bounded : IsBounded (inner_stream s size) = record {
        fits = omega arith;
        size = omega arith;
      } in
      let (bytes, e) = (is_encoder.grows fields src).run (inner_stream s size) w stored bounded in
      (bytes, finish_submessage-Extends s w bytes size _ room v e)

  write_submessage-Grows :
      (fields src size : ℕ)
      → size < 2 ^ 63
      → (s : Ostream) → Grows s (final (write_submessage m sub fields src size s))
  write_submessage-Grows fields src size small s w stored v =
      elim (dec_le (s.bytes_written + size) s.max_size) [
        | yes room ↦
            rw (write_submessage_room m sub fields src size s w stored v room)
              (finish_submessage-Grows fields src size s room w stored v)
        | no full ↦
            rw (write_submessage_full m sub fields src size s w stored v small (omega arith))
              ((Growing-return_error (Unit {0}) stream_full).run s w stored v)
      ]

  write_submessage-Growing :
      (fields src size : ℕ) → size < 2 ^ 63 → Growing (write_submessage m sub fields src size)
  write_submessage-Growing fields src size small = record {
    run = write_submessage-Grows fields src size small;
  }

  -- The two passes of `pb_encode_submessage`, by what the first one counted.
  pb_encode_submessage-Grows :
      (fields src : ℕ) (s : Ostream) → Grows s (final (pb_encode_submessage m sub fields src s))
  unfolding pb_encode_submessage
  pb_encode_submessage-Grows fields src s = counted (sub fields src sizing_stream) refl
    where
      counted :
          (o : Outcome Ostream (Unit {0}))
          → sub fields src sizing_stream ≡ o
          → Grows s (final (pb_encode_submessage m sub fields src s))
      counted (fail t) e = rw (e, pb_encode_submessage) (nothing_added s _ refl refl refl)
      counted (ok u t) e =
          rw (e, pb_encode_submessage)
            ((Growing->>= (pb_encode_varint t.bytes_written) _
                (pb_encode_varint-Growing t.bytes_written)
                (λ _.
                  write_submessage-Growing fields src t.bytes_written
                    (is_encoder.small fields src t e))).run
              s)

  pb_encode_submessage-Growing : (fields src : ℕ) → Growing (pb_encode_submessage m sub fields src)
  pb_encode_submessage-Growing fields src = record { run = pb_encode_submessage-Grows fields src }

  pb_enc_submessage-Growing : (f : Field) (src : ℕ) → Growing (pb_enc_submessage m sub f src)
  unfolding pb_enc_submessage
  pb_enc_submessage-Growing f src = search (growing, pb_encode_submessage-Growing)

  -- Every field encoder grows the stream, for a field whose size is a `pb_size_t`.
  pub encode_value-Growing :
      IsMemory m → (f : Field) (src : ℕ) → f.data_size < 2 ^ 32 → Growing (encode_value m sub f src)
  unfolding encode_value
  encode_value-Growing is_memory f src small = Growing-if _ _ _ (pb_enc_bool-Growing m src) (
      Growing-if _ _ _ (pb_enc_varint-Growing m f src) (
        Growing-if _ _ _ (pb_enc_uvarint-Growing m f src) (
          Growing-if _ _ _ (pb_enc_svarint-Growing m f src) (
            Growing-if _ _ _ (pb_enc_fixed32-Growing m src) (
              Growing-if _ _ _ (pb_enc_fixed64-Growing m src) (
                Growing-if _ _ _ (pb_enc_bytes-Growing m is_memory f src) (
                  Growing-if _ _ _ (pb_enc_string-Growing m f src small) (
                    Growing-if _ _ _ (pb_enc_submessage-Growing f src) (
                      Growing-if _ _ _ (pb_enc_fixed_length_bytes-Growing m f src small)
                        (Growing-return_error _ invalid_field_type))))))))))
