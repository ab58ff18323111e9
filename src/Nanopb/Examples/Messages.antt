-- ===== src/Nanopb/Examples/Messages.antt =====
-- The round trip of a whole message of BetweenUS/Pods/nanopb on a small one.
use between_us.Prelude.{
  ℕ, zero, suc, ◌≤◌, ◌≡◌, refl, List, [], ◌∷◌, All, some, true, length, ◌==◌, ◌&&◌, leb,
  if◌then◌else◌, arith,
}
use between_us.Prelude.Outcome.{ok, fail, pure}
use between_us.Nanopb.Field.{Field, Memory, load}
use between_us.Nanopb.Iter.Walk.{nth}
use between_us.Nanopb.Iter.{begin}
use between_us.Nanopb.Input.{pb_istream_from_buffer}
use between_us.Nanopb.Output.{buffer, pb_ostream_from_buffer}
use between_us.Nanopb.Output.Scalars.{varint_bytes, tag_value, fixed32_bytes}
use between_us.Nanopb.Encode.Grow.{IsMemory}
use between_us.Nanopb.Encode.Value.{sign_extend}
use between_us.Nanopb.Encode.Message.{pb_encode}
use between_us.Nanopb.Encode.Message as Writer
use between_us.Nanopb.Decode.State.{Externals, Decoder}
use between_us.Nanopb.Decode.Message.{pb_decode}
use between_us.Nanopb.Message.Scalar.{IsScalar, signed, four_bytes}
use between_us.Nanopb.Message.Encode.{IsPresent, bytes_from, message_bytes}
use between_us.Nanopb.Message.Decode.{IsUnique}
use between_us.Nanopb.Message.Layout.{IsApart, words}
use between_us.Nanopb.Message.RoundTrip.{pb_decode-pb_encode}
use between_us.Nanopb.Message.Orders.{bytes_of, put_of, among, all_among}
use between_us.Nanopb.Message.Missing.{pb_decode-bytes_of}
use between_us.Nanopb.Message.AnyOrder.{pb_decode-all_among}
use between_us.Nanopb.Decode.Reset.{pb_message_set_to_defaults, pb_release}
use between_us.Nanopb.Error.{missing_required_field}

-- `required int32 a = 1; required fixed32 b = 2;` in a struct of eight bytes.
abbrev first_field : Field
first_field = record {
  tag = 1;
  type = 0x01;
  data_offset = 0;
  size_offset = 0;
  data_size = 4;
  array_size = 0;
  ptr = 0;
}

abbrev second_field : Field
second_field = record first_field { tag = 2; type = 0x04 }

abbrev two_fields : List Field
two_fields = first_field ∷ second_field ∷ []

abbrev writer : Writer.Externals
writer = record {
  descriptor = λ a. two_fields;
  encode_callback = λ function m f a. pure tt;
  encode_extension = λ function m a. pure tt;
}

abbrev reader : Externals
reader = record {
  descriptor = λ a. two_fields;
  decode_callback = λ function f arg d. ok tt d;
  decode_extension = λ function extension tag wire_type d. ok tt d;
  realloc = λ p size m. (4096, m);
  free = λ p m. m;
}

-- The struct at 64 has 5 and 2 ^ 32 - 1; the other one, at 128, holds nothing yet.
abbrev filled : Memory
filled a = if a == 64 then 5 else if leb 68 a && leb a 71 then 255 else 0

abbrev blank : Decoder
blank = record { stream = pb_istream_from_buffer [] 0; mem = λ a. 0; count = 0 }

filled-IsMemory : IsMemory filled
filled-IsMemory a = ground arith

two_fields-IsScalar : All IsScalar two_fields
two_fields-IsScalar = (
  record {
    kind = signed refl refl;
    required = refl;
    static = refl;
    positive = omega arith;
    small = omega arith;
  },
  (
    record {
      kind = four_bytes refl refl;
      required = refl;
      static = refl;
      positive = omega arith;
      small = omega arith;
    },
    tt,
  ),
)

two_fields-IsUnique : IsUnique two_fields
two_fields-IsUnique zero zero j k e = refl
two_fields-IsUnique zero (suc zero) j k e = omega arith
two_fields-IsUnique (suc zero) zero j k e = omega arith
two_fields-IsUnique (suc zero) (suc zero) j k e = refl
two_fields-IsUnique (suc (suc i)) i' j k e = absurd (omega arith)
two_fields-IsUnique i (suc (suc i')) j k e = absurd (omega arith)

two_fields-IsPresent : IsPresent two_fields 64
unfolding nth begin
two_fields-IsPresent zero h = omega arith
two_fields-IsPresent (suc zero) h = omega arith
two_fields-IsPresent (suc (suc k)) h = absurd (omega arith)

two_fields-IsApart : IsApart two_fields 128
unfolding nth begin
two_fields-IsApart zero (suc zero) h below = omega arith
two_fields-IsApart j (suc (suc k)) h below = absurd (omega arith)
two_fields-IsApart (suc j) (suc zero) h below = absurd (omega arith)
two_fields-IsApart j zero h below = absurd (omega arith)

-- A varint and a word, behind their tags.
two_fields-bytes :
    message_bytes filled two_fields 64 ≡ 0x08 ∷ 0x05 ∷ 0x15 ∷ 255 ∷ 255 ∷ 255 ∷ 255 ∷ []
unfolding bytes_from nth begin varint_bytes fixed32_bytes tag_value sign_extend load
two_fields-bytes = refl

two_fields-room : length (message_bytes filled two_fields 64) ≤ 16
two_fields-room = rw two_fields-bytes (omega arith)

pb_decode-pb_encode_example :
    let bytes = message_bytes filled two_fields 64 in
    let empty = pb_ostream_from_buffer 16 in
    (pb_encode writer filled 1 0 64 empty
      ≡ ok tt (record empty { sink = buffer bytes; bytes_written = length bytes }))
    × ((d' : Decoder) × (pb_decode reader 1 0 128
            (record blank { stream = pb_istream_from_buffer bytes (length bytes) })
          ≡ ok tt d')
        × (d'.stream.bytes_left ≡ 0)
        × (words d'.mem two_fields 128 ≡ words filled two_fields 64))
pb_decode-pb_encode_example =
    pb_decode-pb_encode writer reader filled 0 0 0 0 64 128 16 blank refl filled-IsMemory
      two_fields-IsScalar two_fields-IsUnique (omega arith) (omega arith) two_fields-IsPresent
      two_fields-IsApart (omega arith) two_fields-room

-- The second field comes twice and the first one never.
abbrev second_twice : List ℕ
second_twice = 1 ∷ 1 ∷ []

pb_decode-bytes_of_example :
    let bytes = bytes_of filled two_fields 64 second_twice in
    let defaults = pb_message_set_to_defaults reader 1 0 128 blank.mem in
    let ended = pb_istream_from_buffer [] 0 in
    pb_decode reader 1 0 128 (record blank { stream = pb_istream_from_buffer bytes (length bytes) })
    ≡ fail (record blank {
      stream = record ended { errmsg = some missing_required_field };
      mem = pb_release reader 1 0 128 (put_of filled two_fields 64 128 second_twice defaults);
    })
unfolding among all_among
pb_decode-bytes_of_example =
    pb_decode-bytes_of reader filled 0 0 64 128 second_twice blank filled-IsMemory
      two_fields-IsScalar two_fields-IsUnique (omega arith) (omega arith)
      (omega arith, (omega arith, tt))

-- The second field in front of the first one and behind it.
abbrev turned : List ℕ
turned = 1 ∷ 0 ∷ 1 ∷ []

turned-all_among : all_among 2 turned ≡ true
unfolding all_among among
turned-all_among = refl

pb_decode-all_among_example :
    let bytes = bytes_of filled two_fields 64 turned in
    (d' : Decoder) × (pb_decode reader 1 0 128
        (record blank { stream = pb_istream_from_buffer bytes (length bytes) })
      ≡ ok tt d')
    × (d'.stream.bytes_left ≡ 0)
    × (words d'.mem two_fields 128 ≡ words filled two_fields 64)
pb_decode-all_among_example =
    pb_decode-all_among reader filled 0 0 64 128 turned blank filled-IsMemory two_fields-IsScalar
      two_fields-IsUnique (omega arith) (omega arith) two_fields-IsApart
      (omega arith, (omega arith, (omega arith, tt))) turned-all_among
