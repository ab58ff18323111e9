-- ===== src/Nanopb/Input/Fields.antt =====
-- Field headers, skipping, and the substreams of length-delimited fields (pb_decode.c).
use between_us.Prelude.{ℕ, zero, suc, ◌-◌, ◌/◌, ◌%◌, List, [], ◌++◌}
use between_us.Prelude.{ltb, ◌==◌, if◌then◌else◌, get_or}
use between_us.Prelude.Outcome.{ok, fail, M, pure, ◌>>=◌}
use between_us.Nanopb.Error.{invalid_wire_type, parent_too_short}
use between_us.Nanopb.Input.{Istream, return_error, pb_read, pb_skip}
use between_us.Nanopb.Input.Varint.{continues, pb_decode_varint32_eof, pb_decode_varint32}

-- `pb_wire_type_t`: the numbers of the enumeration. A header can hold others, up to 7.
abbrev pub wt_varint : ℕ
wt_varint = 0

abbrev pub wt_64bit : ℕ
wt_64bit = 1

abbrev pub wt_string : ℕ
wt_string = 2

abbrev pub wt_32bit : ℕ
wt_32bit = 5

-- The three ways in which `pb_decode_tag` returns: true with the tag and the wire type, false with
-- `*eof` set, and false without.
pub data Header : Type 0 where
  field : ℕ → ℕ → Istream → Header
  eof : Istream → Header
  error : Istream → Header

unfoldable pub pb_decode_tag : Istream → Header
pb_decode_tag s =
    let (at_end, outcome) = pb_decode_varint32_eof s in
    elim outcome [
      | ok temp s' ↦ if temp == 0 then eof s' else field (temp / 8) (temp % 8) s'
      | fail s' ↦ if at_end then eof s' else error s'
    ]

-- The loop of `pb_skip_varint`. Each round takes a byte: the fuel `bytes_left + 1` is enough.
unfoldable pub skip_varint_loop : ℕ → M Istream (List ℕ)
skip_varint_loop zero = fail
skip_varint_loop (suc rounds) =
    let next : List ℕ → M Istream (List ℕ) =
      λ bytes. if continues (get_or bytes 0 0) then skip_varint_loop rounds else pure [] in
    pb_read 1 >>= next

unfoldable pub pb_skip_varint : M Istream (List ℕ)
unfolding skip_varint_loop
pb_skip_varint s = skip_varint_loop (suc s.bytes_left) s

unfoldable pub pb_skip_string : M Istream (List ℕ)
pb_skip_string = pb_decode_varint32 >>= pb_skip

unfoldable pub pb_skip_field : ℕ → M Istream (List ℕ)
unfolding pb_skip_varint pb_skip_string
pb_skip_field wire_type =
    if wire_type == wt_varint
    then pb_skip_varint
    else if wire_type == wt_64bit
    then pb_skip 8
    else if wire_type == wt_string
    then pb_skip_string
    else if wire_type == wt_32bit
    then pb_skip 4
    else return_error invalid_wire_type

-- The varint case of `read_raw_value`: at most `max_size` bytes, one round for each.
unfoldable pub raw_varint_loop : ℕ → List ℕ → M Istream (List ℕ)
raw_varint_loop zero buf = fail
raw_varint_loop (suc room) buf =
    let next : List ℕ → M Istream (List ℕ) = λ bytes.
      if continues (get_or bytes 0 0)
      then raw_varint_loop room (buf ++ bytes)
      else pure (buf ++ bytes) in
    pb_read 1 >>= next

-- The value is what `buf` and `*size` hold on return. `read_raw_value` is called with 10 bytes.
unfoldable pub read_raw_value : ℕ → ℕ → M Istream (List ℕ)
unfolding raw_varint_loop
read_raw_value max_size wire_type =
    if wire_type == wt_varint
    then raw_varint_loop max_size []
    else if wire_type == wt_64bit
    then pb_read 8
    else if wire_type == wt_32bit
    then pb_read 4
    else return_error invalid_wire_type

-- The value is `*substream`, the state afterwards `*stream`.
unfoldable pub pb_make_string_substream : M Istream Istream
pb_make_string_substream = do
  size ← pb_decode_varint32
  λ s.
      if ltb s.bytes_left size
      then return_error parent_too_short s
      else ok (record s { bytes_left = size }) (record s { bytes_left = s.bytes_left - size })

-- Skip what is left of the substream, if anything is.
abbrev pub drain : M Istream (List ℕ)
drain sub = if sub.bytes_left == 0 then ok [] sub else pb_skip sub.bytes_left sub

unfoldable pub pb_close_string_substream : Istream → M Istream (Unit {0})
pb_close_string_substream substream s = elim (drain substream) [
  | ok bytes sub ↦ ok tt (record s { source = sub.source; errmsg = sub.errmsg })
  | fail sub ↦ fail s
]
