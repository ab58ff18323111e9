-- ===== src/Nanopb/Output/Scalars.antt =====
-- The scalar encoders of pb_encode.c. Integers are unsigned patterns, as in Input/Varint.
use between_us.Prelude.{ℕ, zero, suc, ◌+◌, ◌-◌, ◌*◌, ◌/◌, ◌%◌, ◌^◌, List, [], ◌∷◌}
use between_us.Prelude.{leb, ◌==◌, if◌then◌else◌, length}
use between_us.Prelude.Outcome.{M, ◌>>◌}
use between_us.Nanopb.Output.{Ostream, pb_write}

-- The loop `while (value)`, which stores `(value & 0x7F) | 0x80` and shifts by 7, to a number of rounds.
unfoldable pub varint_groups : ℕ → ℕ → List ℕ
varint_groups zero value = []
varint_groups (suc rounds) value =
    let rest = varint_groups rounds (value / 128) in
    if value == 0 then [] else (value % 128 + 128) ∷ rest

-- `buffer[i-1] &= 0x7F`
unfoldable pub clear_last : List ℕ → List ℕ
clear_last [] = []
clear_last (byte ∷ []) = byte % 128 ∷ []
clear_last (byte ∷ next ∷ rest) = byte ∷ clear_last (next ∷ rest)

-- What `pb_encode_varint` hands to `pb_write`. A round takes a bit at least, so that 64 rounds are enough for
-- a `uint64_t`, whatever the room in `buffer`.
unfoldable pub varint_bytes : ℕ → List ℕ
unfolding varint_groups clear_last
varint_bytes value = if leb value 0x7f then value ∷ [] else clear_last (varint_groups 64 value)

unfoldable pub pb_encode_varint : ℕ → M Ostream (Unit {0})
pb_encode_varint value = pb_write (varint_bytes value)

-- `value` is the pattern of an `int64_t`; it is negative from 2 ^ 63 on.
unfoldable pub zigzag : ℕ → ℕ
zigzag value = if leb (2 ^ 63) value then 2 ^ 64 - 1 - value * 2 % 2 ^ 64 else value * 2 % 2 ^ 64

unfoldable pub pb_encode_svarint : ℕ → M Ostream (Unit {0})
pb_encode_svarint value = pb_encode_varint (zigzag value)

-- `(val >> 8 * i) & 0xFF`
abbrev pub byte_of : ℕ → ℕ → ℕ
byte_of val i = val / 2 ^ (8 * i) % 256

unfoldable pub fixed32_bytes : ℕ → List ℕ
fixed32_bytes val = byte_of val 0 ∷ byte_of val 1 ∷ byte_of val 2 ∷ byte_of val 3 ∷ []

unfoldable pub fixed64_bytes : ℕ → List ℕ
fixed64_bytes val =
    byte_of val 0
    ∷ byte_of val 1
    ∷ byte_of val 2
    ∷ byte_of val 3
    ∷ byte_of val 4
    ∷ byte_of val 5
    ∷ byte_of val 6
    ∷ byte_of val 7
    ∷ []

unfoldable pub pb_encode_fixed32 : ℕ → M Ostream (Unit {0})
pb_encode_fixed32 val = pb_write (fixed32_bytes val)

unfoldable pub pb_encode_fixed64 : ℕ → M Ostream (Unit {0})
pb_encode_fixed64 val = pb_write (fixed64_bytes val)

-- `((pb_uint64_t)field_number << 3) | wiretype`, for a wire type below 8.
unfoldable pub tag_value : ℕ → ℕ → ℕ
tag_value wiretype field_number = field_number * 8 % 2 ^ 64 + wiretype

unfoldable pub pb_encode_tag : ℕ → ℕ → M Ostream (Unit {0})
pb_encode_tag wiretype field_number = pb_encode_varint (tag_value wiretype field_number)

unfoldable pub pb_encode_string : List ℕ → M Ostream (Unit {0})
pb_encode_string bytes = pb_encode_varint (length bytes) >> pb_write bytes
