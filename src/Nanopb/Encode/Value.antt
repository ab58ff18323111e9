-- ===== src/Nanopb/Encode/Value.antt =====
-- The field encoders of pb_encode.c, PB_ENCODERS, on the memory that holds the message.
use between_us.Prelude.{
  ℕ, zero, suc, ◌+◌, ◌-◌, ◌*◌, ◌%◌, ◌^◌, Bool, true, false, not, ◌&&◌, ◌||◌, none,
}
use between_us.Prelude.{[], ◌==◌, leb, ltb, if◌then◌else◌}
use between_us.Prelude.Outcome.{Outcome, ok, fail, M, ◌>>=◌, final, succeeded}
use between_us.Nanopb.Error.{
  stream_full, submsg_size_changed, invalid_data_size, invalid_field_type, bytes_size_exceeded,
  invalid_field_descriptor,
}
use between_us.Nanopb.Output.{Ostream, return_error, sizing_stream, is_sizing, add_size, count_only}
use between_us.Nanopb.Output.Scalars.{pb_encode_varint, pb_encode_svarint, pb_encode_tag}
use between_us.Nanopb.Output.Scalars.{pb_encode_fixed32, pb_encode_fixed64, pb_encode_string}
use between_us.Nanopb.Input.Fields.{wt_varint, wt_64bit, wt_string, wt_32bit}
use between_us.Nanopb.Field.{Field, ltype, atype, Memory, load, load_size, load_bytes}
use between_us.Nanopb.Field.Ltype
use between_us.Nanopb.Field.Atype
use between_us.Nanopb.Encode.Default.{safe_read_bool}

unfoldable pub pb_encode_tag_for_field : Field → M Ostream (Unit {0})
pb_encode_tag_for_field f =
    if leb (ltype f) Ltype.svarint
    then pb_encode_tag wt_varint f.tag
    else if ltype f == Ltype.fixed32
    then pb_encode_tag wt_32bit f.tag
    else if ltype f == Ltype.fixed64
    then pb_encode_tag wt_64bit f.tag
    else if ltype f == Ltype.bytes
        || ltype f == Ltype.string
        || ltype f == Ltype.submessage
        || ltype f == Ltype.fixed_length_bytes
    then pb_encode_tag wt_string f.tag
    else return_error invalid_field_type

-- The pattern of 64 bits of the signed integer whose pattern has `n` bytes.
unfoldable pub sign_extend : ℕ → ℕ → ℕ
sign_extend n v = if leb (2 ^ (8 * n - 1)) v then v + (2 ^ 64 - 2 ^ (8 * n)) else v

-- The test of `data_size` that three of the encoders make.
abbrev pub is_word : ℕ → Bool
is_word n = n == 1 || n == 2 || n == 4 || n == 8

-- The stream after the second pass, which wrote through a stream of its own.
unfoldable pub finish_submessage : ℕ → Outcome Ostream (Unit {0}) → M Ostream (Unit {0})
finish_submessage size outcome s =
    let t = final outcome in
    let total = add_size s.bytes_written t.bytes_written in
    let s' : Ostream = record s { sink = t.sink; bytes_written = total; errmsg = t.errmsg } in
    if not (t.bytes_written == size)
    then return_error submsg_size_changed s'
    else if succeeded outcome
    then ok tt s'
    else fail s'

module _ (m : Memory) where
  unfoldable pub pb_enc_bool : ℕ → M Ostream (Unit {0})
  pb_enc_bool src = pb_encode_varint (if safe_read_bool m src then 1 else 0)

  unfoldable pub pb_enc_varint : Field → ℕ → M Ostream (Unit {0})
  pb_enc_varint f src =
      if is_word f.data_size
      then pb_encode_varint (sign_extend f.data_size (load m src f.data_size))
      else return_error invalid_data_size

  unfoldable pub pb_enc_uvarint : Field → ℕ → M Ostream (Unit {0})
  pb_enc_uvarint f src =
      if is_word f.data_size
      then pb_encode_varint (load m src f.data_size)
      else return_error invalid_data_size

  unfoldable pub pb_enc_svarint : Field → ℕ → M Ostream (Unit {0})
  pb_enc_svarint f src =
      if is_word f.data_size
      then pb_encode_svarint (sign_extend f.data_size (load m src f.data_size))
      else return_error invalid_data_size

  unfoldable pub pb_enc_fixed32 : ℕ → M Ostream (Unit {0})
  pb_enc_fixed32 src = pb_encode_fixed32 (load m src 4)

  unfoldable pub pb_enc_fixed64 : ℕ → M Ostream (Unit {0})
  pb_enc_fixed64 src = pb_encode_fixed64 (load m src 8)

  -- `pb_bytes_array_t` has its size first, and its bytes at offset 4.
  unfoldable pub pb_enc_bytes : Field → ℕ → M Ostream (Unit {0})
  pb_enc_bytes f src =
      let size = load_size m src in
      let capacity : ℕ = (f.data_size + 2 ^ 64 - 4) % 2 ^ 64 in
      if src == 0
      then pb_encode_string []
      else if atype f == Atype.static && ltb capacity size
      then return_error bytes_size_exceeded
      else pb_encode_string (load_bytes m (src + 4) size)

  -- The loop of `pb_enc_string`: the length of a text of at most `max_size` bytes.
  unfoldable pub text_length : ℕ → ℕ → ℕ
  text_length zero p = 0
  text_length (suc max_size) p = elim (m p == 0) [
    | true ↦ 0
    | false ↦ suc (text_length max_size (p + 1))
  ]

  unfoldable pub pb_enc_string : Field → ℕ → M Ostream (Unit {0})
  pb_enc_string f src =
      let max_size : ℕ = if atype f == Atype.pointer then 2 ^ 64 - 1 else f.data_size in
      let size : ℕ = if src == 0 then 0 else text_length max_size src in
      pb_encode_string (load_bytes m src size)

  unfoldable pub pb_enc_fixed_length_bytes : Field → ℕ → M Ostream (Unit {0})
  pb_enc_fixed_length_bytes f src = pb_encode_string (load_bytes m src f.data_size)

  -- `sub` encodes the message of the descriptor array at an address.
  module _ (sub : ℕ → ℕ → M Ostream (Unit {0})) where
    -- What follows the length of a submessage.
    unfoldable pub write_submessage : ℕ → ℕ → ℕ → M Ostream (Unit {0})
    write_submessage fields src size s =
        let inner : Ostream = record {
          sink = s.sink;
          max_size = size;
          bytes_written = 0;
          errmsg = none;
        } in
        if is_sizing s.sink
        then count_only size s
        else if ltb s.max_size (add_size s.bytes_written size)
        then return_error stream_full s
        else finish_submessage size (sub fields src inner) s

    unfoldable pub pb_encode_submessage : ℕ → ℕ → M Ostream (Unit {0})
    pb_encode_submessage fields src s = elim (sub fields src sizing_stream) [
      | fail t ↦ fail (record s { errmsg = t.errmsg })
      | ok _ t ↦
          (pb_encode_varint t.bytes_written >>= λ _. write_submessage fields src t.bytes_written) s
    ]

    unfoldable pub pb_enc_submessage : Field → ℕ → M Ostream (Unit {0})
    pb_enc_submessage f src =
        if f.ptr == 0 then return_error invalid_field_descriptor else pb_encode_submessage f.ptr src

    -- `PB_ENCODERS[PB_LTYPE(field->type)]`. The entry of an extension is NULL; it is not called, since
    -- the tag of such a field is not written before.
    unfoldable pub encode_value : Field → ℕ → M Ostream (Unit {0})
    encode_value f src =
        if ltype f == Ltype.bool
        then pb_enc_bool src
        else if ltype f == Ltype.varint
        then pb_enc_varint f src
        else if ltype f == Ltype.uvarint
        then pb_enc_uvarint f src
        else if ltype f == Ltype.svarint
        then pb_enc_svarint f src
        else if ltype f == Ltype.fixed32
        then pb_enc_fixed32 src
        else if ltype f == Ltype.fixed64
        then pb_enc_fixed64 src
        else if ltype f == Ltype.bytes
        then pb_enc_bytes f src
        else if ltype f == Ltype.string
        then pb_enc_string f src
        else if ltype f == Ltype.submessage
        then pb_enc_submessage f src
        else if ltype f == Ltype.fixed_length_bytes
        then pb_enc_fixed_length_bytes f src
        else return_error invalid_field_type
