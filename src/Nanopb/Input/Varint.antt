-- ===== src/Nanopb/Input/Varint.antt =====
-- The varint and fixed-width decoders of pb_decode.c. Integers are unsigned patterns: a
-- `uint64_t`, `uint32_t` or byte is a number below 2 ^ 64, 2 ^ 32 or 256. `x & 0x7F` is `x % 128`,
-- `x & 0x80` is not 0 where `x / 128 % 2` is not, and `x >> k` is `x / 2 ^ k`.
use between_us.Prelude.{ℕ, zero, suc, ◌+◌, ◌-◌, ◌*◌, ◌/◌, ◌%◌, ◌^◌, bit_or, Bool, false, not}
use between_us.Prelude.{◌&&◌, ◌||◌, List, ltb, leb, ◌==◌, if◌then◌else◌, get_or}
use between_us.Prelude.Outcome.{Outcome, ok, fail, M, pure, ◌>>=◌}
use between_us.Nanopb.Error.{varint_overflow}
use between_us.Nanopb.Input.{Istream, return_error, pb_read, pb_readbyte}

-- `byte & 0x80`
abbrev pub continues : ℕ → Bool
continues byte = not (byte / 128 % 2 == 0)

-- `result |= (uint64_t)(byte & 0x7F) << bitpos`
abbrev pub or_group : ℕ → ℕ → ℕ → ℕ → ℕ
or_group width result byte bitpos = bit_or result (byte % 128 * 2 ^ bitpos % 2 ^ width)

-- The loop of `pb_decode_varint`. `bitpos` grows by 7, so 11 rounds reach its limit of 64.
unfoldable pub varint_loop : ℕ → ℕ → ℕ → M Istream ℕ
varint_loop zero bitpos result = return_error varint_overflow
varint_loop (suc rounds) bitpos result =
    let next : ℕ → M Istream ℕ = λ byte.
      let more = varint_loop rounds (bitpos + 7) (or_group 64 result byte bitpos) in
      if continues byte then more else pure (or_group 64 result byte bitpos) in
    if leb 64 bitpos then return_error varint_overflow else (pb_readbyte >>= next)

unfoldable pub pb_decode_varint : M Istream ℕ
unfolding varint_loop
pb_decode_varint = varint_loop 11 0 0

-- The test in the multibyte loop of `pb_decode_varint32_eof` on a byte behind bit 32.
unfoldable pub bad_extension : ℕ → ℕ → ℕ → Bool
bad_extension bitpos result byte =
    let sign_extension : ℕ = if ltb bitpos 63 then 0xff else 0x01 in
    not (byte % 128 == 0) && (result / 2 ^ 31 == 0 || not (byte == sign_extension))

-- The multibyte loop and the test behind it. `bitpos` is a `uint_fast8_t` of 8 bits and wraps. Each
-- round takes a byte of the stream, so the fuel `bytes_left + 1` is enough.
unfoldable pub varint32_loop : ℕ → ℕ → ℕ → M Istream ℕ
unfolding bad_extension
varint32_loop zero bitpos result = fail
varint32_loop (suc rounds) bitpos result =
    let next : ℕ → M Istream ℕ = λ byte.
      let result' : ℕ = if leb 32 bitpos then result else or_group 32 result byte bitpos in
      let bitpos' : ℕ = (bitpos + 7) % 256 in
      let more = varint32_loop rounds bitpos' result' in
      if leb 32 bitpos && bad_extension bitpos result byte
      then return_error varint_overflow
      else if continues byte
      then more
      else if bitpos' == 35 && not (byte / 16 % 8 == 0)
      then return_error varint_overflow
      else pure result' in
    pb_readbyte >>= next

-- What follows the first byte.
abbrev pub varint32_rest : ℕ → M Istream ℕ
unfolding varint32_loop
varint32_rest byte s =
    if continues byte then varint32_loop (suc s.bytes_left) 7 (byte % 128) s else ok byte s

-- The flag is what is stored through `eof`: no byte was left for the first read.
unfoldable pub pb_decode_varint32_eof : Istream → Bool × Outcome Istream ℕ
unfolding varint32_rest
pb_decode_varint32_eof s = elim (pb_readbyte s) [
  | ok byte s' ↦ (false, varint32_rest byte s')
  | fail s' ↦ (s'.bytes_left == 0, fail s')
]

unfoldable pub pb_decode_varint32 : M Istream ℕ
pb_decode_varint32 s = (pb_decode_varint32_eof s).1

-- `~(value >> 1)` or `value >> 1`, as a pattern.
unfoldable pub unzigzag : ℕ → ℕ
unzigzag value = if value % 2 == 1 then 2 ^ 64 - 1 - value / 2 else value / 2

unfoldable pub pb_decode_svarint : M Istream ℕ
pb_decode_svarint = do value ← pb_decode_varint; pure (unzigzag value)

-- A byte of a little-endian word at its place. The places do not overlap: `|` adds them up.
abbrev pub byte_at : List ℕ → ℕ → ℕ
byte_at bytes i = get_or bytes i 0 * 2 ^ (8 * i)

unfoldable pub pb_decode_fixed32 : M Istream ℕ
pb_decode_fixed32 = do
  bytes ← pb_read 4
  pure (byte_at bytes 0 + byte_at bytes 1 + byte_at bytes 2 + byte_at bytes 3)

unfoldable pub pb_decode_fixed64 : M Istream ℕ
pb_decode_fixed64 = do
  bytes ← pb_read 8
  let low = byte_at bytes 0 + byte_at bytes 1 + byte_at bytes 2 + byte_at bytes 3
  let high = byte_at bytes 4 + byte_at bytes 5 + byte_at bytes 6 + byte_at bytes 7
  pure (low + high)
