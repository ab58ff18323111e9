-- ===== src/Nanopb/Input/Bounds.antt =====
-- The decoders of pb_decode.c that read from a stream alone stay within its `bytes_left`.
use between_us.Prelude.{
  ℕ, zero, suc, ◌+◌, ◌/◌, ◌%◌, Bool, true, false, ◌&&◌, not, if◌then◌else◌, inl, inr, Bool-cases,
  List, [], ◌++◌, get_or, leb, ◌==◌,
}
use between_us.Prelude.Outcome.{Outcome, ok, fail, final}
use between_us.Nanopb.Error.{varint_overflow, invalid_wire_type}
use between_us.Nanopb.Input.{Istream, pb_read, pb_readbyte}
use between_us.Nanopb.Input.Varint.{
  continues, or_group, bad_extension, varint32_rest, varint_loop, pb_decode_varint, varint32_loop,
  pb_decode_varint32_eof, pb_decode_varint32, pb_decode_svarint, pb_decode_fixed32,
  pb_decode_fixed64,
}
use between_us.Nanopb.Input.Fields.{
  Header, field, eof, error, wt_varint, wt_64bit, wt_string, wt_32bit, pb_decode_tag,
  skip_varint_loop, pb_skip_varint, pb_skip_string, pb_skip_field, raw_varint_loop, read_raw_value,
}
use between_us.Nanopb.Input.Laws.{
  Consumes, Consuming, Consumes-refl, Consumes-trans, Consumes-if, Consuming-pure, Consuming-fail,
  Consuming-return_error, Consuming->>=, Consuming-if, pb_read-Consuming, pb_skip-Consuming,
  pb_readbyte-Consuming,
}

varint_loop-Consuming : (rounds bitpos result : ℕ) → Consuming (varint_loop rounds bitpos result)
unfolding varint_loop
varint_loop-Consuming zero bitpos result = Consuming-return_error ℕ varint_overflow
varint_loop-Consuming (suc rounds) bitpos result =
    Consuming-if (leb 64 bitpos) _ _ (Consuming-return_error ℕ varint_overflow) (
      Consuming->>= pb_readbyte _ pb_readbyte-Consuming (λ byte.
        Consuming-if (continues byte) _ _
          (varint_loop-Consuming rounds (bitpos + 7) (or_group 64 result byte bitpos))
          (Consuming-pure _)))

pub pb_decode_varint-Consuming : Consuming pb_decode_varint
unfolding pb_decode_varint
pb_decode_varint-Consuming = varint_loop-Consuming 11 0 0

pub pb_decode_svarint-Consuming : Consuming pb_decode_svarint
unfolding pb_decode_svarint
pb_decode_svarint-Consuming =
    Consuming->>= pb_decode_varint _ pb_decode_varint-Consuming (λ value. Consuming-pure _)

pub pb_decode_fixed32-Consuming : Consuming pb_decode_fixed32
unfolding pb_decode_fixed32
pb_decode_fixed32-Consuming =
    Consuming->>= (pb_read 4) _ (pb_read-Consuming 4) (λ bytes. Consuming-pure _)

pub pb_decode_fixed64-Consuming : Consuming pb_decode_fixed64
unfolding pb_decode_fixed64
pb_decode_fixed64-Consuming =
    Consuming->>= (pb_read 8) _ (pb_read-Consuming 8) (λ bytes. Consuming-pure _)

varint32_loop-Consuming :
    (rounds bitpos result : ℕ) → Consuming (varint32_loop rounds bitpos result)
unfolding varint32_loop
varint32_loop-Consuming zero bitpos result = Consuming-fail ℕ
varint32_loop-Consuming (suc rounds) bitpos result =
    Consuming->>= pb_readbyte _ pb_readbyte-Consuming (λ byte.
      let result' : ℕ = if leb 32 bitpos then result else or_group 32 result byte bitpos in
      Consuming-if (leb 32 bitpos && bad_extension bitpos result byte) _ _
        (Consuming-return_error ℕ varint_overflow)
        (Consuming-if (continues byte) _ _
          (varint32_loop-Consuming rounds ((bitpos + 7) % 256) result')
          (Consuming-if ((bitpos + 7) % 256 == 35 && not (byte / 16 % 8 == 0)) _ _
            (Consuming-return_error ℕ varint_overflow) (Consuming-pure result'))))

pub pb_decode_varint32_eof-Consumes :
    (s : Istream) → Consumes s (final (pb_decode_varint32_eof s).1)
unfolding pb_decode_varint32_eof
pb_decode_varint32_eof-Consumes s = by_byte (pb_readbyte s) (pb_readbyte-Consuming.run s)
  where
    by_byte :
        (o : Outcome Istream ℕ)
        → Consumes s (final o)
        → Consumes s (
            final
              (elim o as (λ x. Bool × Outcome Istream ℕ) [
                | ok byte s' ↦ (false, varint32_rest byte s')
                | fail s' ↦ (s'.bytes_left == 0, fail s')
              ]).1)
    by_byte (ok byte s') h = Consumes-trans s s' _ h (
        Consumes-if (continues byte) s' _ (ok byte s')
          ((varint32_loop-Consuming (suc s'.bytes_left) 7 (byte % 128)).run s') (Consumes-refl s'))
    by_byte (fail s') h = h

pub pb_decode_varint32-Consuming : Consuming pb_decode_varint32
unfolding pb_decode_varint32
pb_decode_varint32-Consuming = record { run = λ s. pb_decode_varint32_eof-Consumes s }

-- The stream behind a header, however `pb_decode_tag` returns.
abbrev pub behind : Header → Istream
behind (field tag wire_type s) = s
behind (eof s) = s
behind (error s) = s

pub pb_decode_tag-Consumes : (s : Istream) → Consumes s (behind (pb_decode_tag s))
unfolding pb_decode_tag
pb_decode_tag-Consumes s = by_outcome (pb_decode_varint32_eof s) (pb_decode_varint32_eof-Consumes s)
  where
    by_outcome :
        (r : Bool × Outcome Istream ℕ)
        → Consumes s (final r.1)
        → Consumes s (
            behind (elim r.1 as (λ x. Header) [
              | ok temp s' ↦ if temp == 0 then eof s' else field (temp / 8) (temp % 8) s'
              | fail s' ↦ if r.0 then eof s' else error s'
            ]))
    by_outcome (at_end, ok temp s') h = elim (Bool-cases (temp == 0)) [
      | inl e ↦ rw e h
      | inr e ↦ rw e h
    ]
    by_outcome (true, fail s') h = h
    by_outcome (false, fail s') h = h

skip_varint_loop-Consuming : (rounds : ℕ) → Consuming (skip_varint_loop rounds)
unfolding skip_varint_loop
skip_varint_loop-Consuming zero = Consuming-fail (List ℕ)
skip_varint_loop-Consuming (suc rounds) =
    Consuming->>= (pb_read 1) _ (pb_read-Consuming 1) (λ bytes.
      Consuming-if (continues (get_or bytes 0 0)) _ _ (skip_varint_loop-Consuming rounds)
        (Consuming-pure []))

pub pb_skip_field-Consuming : (wire_type : ℕ) → Consuming (pb_skip_field wire_type)
unfolding pb_skip_field pb_skip_varint pb_skip_string
pb_skip_field-Consuming wire_type =
    Consuming-if (wire_type == wt_varint) _ _
      (record { run = λ s. (skip_varint_loop-Consuming (suc s.bytes_left)).run s })
      (Consuming-if (wire_type == wt_64bit) _ _ (pb_skip-Consuming 8) (
        Consuming-if (wire_type == wt_string) _ _
          (Consuming->>= pb_decode_varint32 _ pb_decode_varint32-Consuming
            (λ size. pb_skip-Consuming size))
          (Consuming-if (wire_type == wt_32bit) _ _ (pb_skip-Consuming 4)
            (Consuming-return_error (List ℕ) invalid_wire_type))))

raw_varint_loop-Consuming : (room : ℕ) (buf : List ℕ) → Consuming (raw_varint_loop room buf)
unfolding raw_varint_loop
raw_varint_loop-Consuming zero buf = Consuming-fail (List ℕ)
raw_varint_loop-Consuming (suc room) buf =
    Consuming->>= (pb_read 1) _ (pb_read-Consuming 1) (λ bytes.
      Consuming-if (continues (get_or bytes 0 0)) _ _
        (raw_varint_loop-Consuming room (buf ++ bytes)) (Consuming-pure _))

pub read_raw_value-Consuming : (size wire_type : ℕ) → Consuming (read_raw_value size wire_type)
unfolding read_raw_value
read_raw_value-Consuming size wire_type =
    Consuming-if (wire_type == wt_varint) _ _ (raw_varint_loop-Consuming size []) (
      Consuming-if (wire_type == wt_64bit) _ _ (pb_read-Consuming 8) (
        Consuming-if (wire_type == wt_32bit) _ _ (pb_read-Consuming 4)
          (Consuming-return_error (List ℕ) invalid_wire_type)))
