-- ===== src/Nanopb/Decode/Value.antt =====
-- The field decoders of pb_decode.c (`pb_dec_bool` to `pb_dec_fixed_length_bytes`), by PB_LTYPE. They
-- store a value at the address `dest`. Signed integers are patterns of 64 bits.
use between_us.Prelude.{ℕ, ◌+◌, ◌*◌, ◌%◌, ◌^◌, not, ltb, ◌==◌, if◌then◌else◌}
use between_us.Prelude.Outcome.{Outcome, ok, fail, M, pure, ◌>>=◌, ◌>>◌, final}
use between_us.Nanopb.Error.{
  integer_too_large, invalid_data_size, bytes_overflow, size_too_large, end_of_stream,
  string_overflow, invalid_field_descriptor, incorrect_fixed_length, invalid_field_type,
}
use between_us.Nanopb.Input.{Istream, pb_read}
use between_us.Nanopb.Input.Varint.{pb_decode_varint32, pb_decode_varint, pb_decode_svarint}
use between_us.Nanopb.Input.Varint.{pb_decode_fixed32, pb_decode_fixed64}
use between_us.Nanopb.Input.Fields.{pb_make_string_substream, pb_close_string_substream}
use between_us.Nanopb.Field.{Field, ltype, htype, atype, load_pointer, pb_size_max}
use between_us.Nanopb.Field.Ltype
use between_us.Nanopb.Field.Htype
use between_us.Nanopb.Field.Atype
use between_us.Nanopb.Encode.Value.{sign_extend, is_word}
use between_us.Nanopb.Decode.State.{
  Externals, Decoder, throw, modify, lift, store, store_size, store_bool, store_bytes, clear,
  allocate_field,
}

-- Close a substream, put the stream back, and return `status`, what was read from the substream.
unfoldable pub close_after : Istream → Outcome Decoder (Unit {0}) → Outcome Decoder (Unit {0})
close_after outer status = elim status [
  | ok _ d ↦ lift (pb_close_string_substream d.stream) (record d { stream = outer })
  | fail d ↦ fail (final (lift (pb_close_string_substream d.stream) (record d { stream = outer })))
]

-- The test behind the casts: `clamped` is the value of the word of `n` bytes that is stored.
unfoldable pub store_clamped : ℕ → ℕ → ℕ → ℕ → M Decoder (Unit {0})
store_clamped n dest value clamped = do
  modify (store dest n value)
  if clamped == value then pure tt else throw integer_too_large

unfoldable pub pb_dec_bool : ℕ → M Decoder (Unit {0})
pb_dec_bool dest = do value ← lift pb_decode_varint32; modify (store_bool dest (not (value == 0)))

-- The casts of a signed value to the size of the field.
unfoldable pub store_signed : Field → ℕ → ℕ → M Decoder (Unit {0})
store_signed f dest svalue =
    let n = f.data_size in
    if is_word n
    then store_clamped n dest svalue (sign_extend n (svalue % 2 ^ (8 * n)))
    else throw invalid_data_size

unfoldable pub pb_dec_varint : Field → ℕ → M Decoder (Unit {0})
pb_dec_varint f dest = do
  value ← lift pb_decode_varint
  store_signed f dest (if f.data_size == 8 then value else sign_extend 4 (value % 2 ^ 32))

unfoldable pub pb_dec_uvarint : Field → ℕ → M Decoder (Unit {0})
pb_dec_uvarint f dest = do
  value ← lift pb_decode_varint
  let n = f.data_size
  (if is_word n then store_clamped n dest value (value % 2 ^ (8 * n)) else throw invalid_data_size)

unfoldable pub pb_dec_svarint : Field → ℕ → M Decoder (Unit {0})
pb_dec_svarint f dest = do value ← lift pb_decode_svarint; store_signed f dest value

unfoldable pub pb_dec_fixed32 : ℕ → M Decoder (Unit {0})
pb_dec_fixed32 dest = lift pb_decode_fixed32 >>= λ value. modify (store dest 4 value)

unfoldable pub pb_dec_fixed64 : ℕ → M Decoder (Unit {0})
pb_dec_fixed64 dest = lift pb_decode_fixed64 >>= λ value. modify (store dest 8 value)

-- `pb_read` into memory.
unfoldable pub read_to : ℕ → ℕ → M Decoder (Unit {0})
read_to dest size = lift (pb_read size) >>= λ bytes. modify (store_bytes dest bytes)

-- Where the bytes or the text of a pointer field go: allocated behind the pointer at `dest`.
unfoldable pub allocate_text : Externals → ℕ → ℕ → ℕ → M Decoder ℕ
allocate_text ext dest size alloc_size d =
    if ltb d.stream.bytes_left size
    then throw end_of_stream d
    else (allocate_field ext dest alloc_size 1 >>= λ _ d'. ok (load_pointer d'.mem dest) d') d

-- `pb_bytes_array_t` has its size at offset 0 and the bytes at offset 4.
unfoldable pub pb_dec_bytes : Externals → Field → ℕ → M Decoder (Unit {0})
pb_dec_bytes ext f dest = do
  size ← lift pb_decode_varint32
  let alloc_size = (size + 4) % 2 ^ 64
  let fill : ℕ → M Decoder (Unit {0}) =
      λ bdest. modify (store_size bdest size) >>= λ _. read_to (bdest + 4) size
  (if ltb pb_size_max size
      then throw bytes_overflow
      else if ltb alloc_size size
      then throw size_too_large
      else if atype f == Atype.pointer
      then (allocate_text ext dest size alloc_size >>= fill)
      else if ltb f.data_size alloc_size
      then throw bytes_overflow
      else fill dest)

-- The terminator is stored whether or not the text was read.
unfoldable pub read_string : ℕ → ℕ → M Decoder (Unit {0})
read_string size dest d = elim (read_to dest size d) [
  | ok _ d' ↦ modify (store (dest + size) 1 0) d'
  | fail d' ↦ fail (final (modify (store (dest + size) 1 0) d'))
]

-- `size + 1` is computed in 32 bits.
unfoldable pub pb_dec_string : Externals → Field → ℕ → M Decoder (Unit {0})
pb_dec_string ext f dest = do
  size ← lift pb_decode_varint32
  let alloc_size = (size + 1) % 2 ^ 32
  (if ltb alloc_size size
      then throw size_too_large
      else if atype f == Atype.pointer
      then (allocate_text ext dest size alloc_size >>= read_string size)
      else if ltb f.data_size alloc_size
      then throw string_overflow
      else read_string size dest)

-- `decode` and `noinit` are `pb_decode` and `pb_decode_noinit` on the descriptors at an address.
module _ (decode noinit : ℕ → ℕ → M Decoder (Unit {0})) where
  unfoldable pub pb_dec_submessage : Field → ℕ → M Decoder (Unit {0})
  pb_dec_submessage f dest = do
    substream ← lift pb_make_string_substream
    let read = if htype f == Htype.repeated then decode f.ptr dest else noinit f.ptr dest
    (if f.ptr == 0 then throw invalid_field_descriptor else λ d.
        close_after d.stream (read (record d { stream = substream })))

unfoldable pub pb_dec_fixed_length_bytes : Field → ℕ → M Decoder (Unit {0})
pb_dec_fixed_length_bytes f dest = do
  size ← lift pb_decode_varint32
  (if ltb pb_size_max size
      then throw bytes_overflow
      else if size == 0
      then modify (clear dest f.data_size)
      else if not (size == f.data_size)
      then throw incorrect_fixed_length
      else read_to dest f.data_size)

-- `PB_DECODERS[PB_LTYPE(type)]`. The table has a null pointer for extensions and ends behind
-- fixed-length bytes; a descriptor that selects none of its functions fails here.
unfoldable pub decode_value :
    Externals
    → (ℕ → ℕ → M Decoder (Unit {0}))
    → (ℕ → ℕ → M Decoder (Unit {0}))
    → Field
    → ℕ
    → M Decoder (Unit {0})
decode_value ext decode noinit f dest =
    if ltype f == Ltype.bool
    then pb_dec_bool dest
    else if ltype f == Ltype.varint
    then pb_dec_varint f dest
    else if ltype f == Ltype.uvarint
    then pb_dec_uvarint f dest
    else if ltype f == Ltype.svarint
    then pb_dec_svarint f dest
    else if ltype f == Ltype.fixed32
    then pb_dec_fixed32 dest
    else if ltype f == Ltype.fixed64
    then pb_dec_fixed64 dest
    else if ltype f == Ltype.bytes
    then pb_dec_bytes ext f dest
    else if ltype f == Ltype.string
    then pb_dec_string ext f dest
    else if ltype f == Ltype.submessage
    then pb_dec_submessage decode noinit f dest
    else if ltype f == Ltype.fixed_length_bytes
    then pb_dec_fixed_length_bytes f dest
    else throw invalid_field_type
