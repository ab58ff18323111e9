-- ===== src/Nanopb/Examples/Decode.antt =====
-- Fields and messages of BetweenUS/Pods/nanopb/pb_decode.c on concrete bytes and memory.
use between_us.Prelude.{
  ◌+◌, ◌-◌, ◌^◌, ◌≡◌, refl, true, [], ◌∷◌, ◌++◌, none, List, length, arith, ltb, if◌then◌else◌,
}
use between_us.Prelude.{some}
use between_us.Nanopb.Input.{pb_readbyte, call}
use between_us.Nanopb.Input.Varint.{varint32_loop, pb_decode_varint32_eof, pb_decode_varint32}
use between_us.Nanopb.Input.Fields.{pb_decode_tag}
use between_us.Nanopb.Iter.{pb_field_iter_begin, pb_field_iter_next, find_loop, pb_field_iter_find}
use between_us.Nanopb.Decode.State.{clear}
use between_us.Nanopb.Decode.Value.{pb_dec_bool, decode_value}
use between_us.Nanopb.Decode.Static.{decode_static_field}
use between_us.Nanopb.Decode.Field.{decode_by_atype, decode_field}
use between_us.Nanopb.Decode.Reset.{
  each_field, each_field_of, init_data, default_static, default_body, pb_field_set_to_default,
  pb_message_set_to_defaults, pb_release, pb_release_single_field, release_body,
}
use between_us.Nanopb.Decode.Seen.{is_incomplete, mark_seen, last_loop, required_count, all_seen}
use between_us.Nanopb.Decode.Message.{
  decode_known, decode_tagged, message_loop, check_complete, decode_message, with_count,
  decode_with, pb_decode_noinit, pb_decode,
}
use between_us.Prelude.{ℕ}
use between_us.Nanopb.Error.{missing_required_field}
use between_us.Prelude.Outcome.{Outcome, ok, fail, succeeded, final}
use between_us.Nanopb.Error.{first_error, integer_too_large, size_too_large}
use between_us.Nanopb.Field.{Field, Memory, load}
use between_us.Nanopb.Output.{pb_write}
use between_us.Nanopb.Output.Scalars.{varint_bytes, zigzag}
use between_us.Nanopb.Encode.Value.{sign_extend, pb_enc_varint, pb_enc_uvarint, pb_enc_svarint}
use between_us.Nanopb.Encode.Grow.{IsMemory}
use between_us.Nanopb.Wire.RoundTrip.{reading}
use between_us.Nanopb.Decode.State.{Externals, Decoder, throw, store, allocate_field}
use between_us.Nanopb.Decode.Value.{pb_dec_varint, pb_dec_uvarint, pb_dec_svarint}
use between_us.Nanopb.Decode.Scalars.{
  over, stored, pb_dec_uvarint-varint_bytes, pb_dec_uvarint-pb_enc_uvarint,
  pb_dec_varint-pb_enc_varint, pb_dec_svarint-pb_enc_svarint,
}
use between_us.Nanopb.Input.Laws.{Takes}
use between_us.Nanopb.Decode.Reads.{Reading-pure}
use between_us.Nanopb.Decode.Reads.Message.{IsReading}
use between_us.Nanopb.Decode.Reads.Whole.{pb_decode-Takes}
use between_us.Prelude.{◌<◌, ◌↔◌, Any}
use between_us.Nanopb.Decode.Required.{IsMarkable, mark_all, all_seen-mark_all}
use between_us.Nanopb.Decode.Reads.Rounds.{message_loop_enough}
use between_us.Nanopb.Decode.Seen.{Locals}
use between_us.Nanopb.Iter.{begin}
use between_us.Nanopb.Decode.Allocate.{allocate_field_exact}

-- A field of two bytes, memory whose every byte is 0xfe, and a decoder over nothing.
abbrev two_bytes : Field
two_bytes = record {
  tag = 1;
  type = 0x01;
  data_offset = 0;
  size_offset = 0;
  data_size = 2;
  array_size = 0;
  ptr = 0;
}

abbrev high_bytes : Memory
high_bytes = λ a. 0xfe

high_bytes-IsMemory : IsMemory high_bytes
high_bytes-IsMemory a = omega arith

abbrev start : Decoder
start = record { stream = reading [] 0 none; mem = λ a. 0; count = 0 }

-- 0xfefe, as a signed word of two bytes.
sign_extend-minus : sign_extend 2 0xfefe ≡ 2 ^ 64 - 258
unfolding sign_extend
sign_extend-minus = refl

-- 0x12345 does not fit two bytes.
pb_dec_uvarint-varint_bytes_example :
    pb_dec_uvarint two_bytes 64
      (over start (varint_bytes 0x12345 ++ (7 ∷ [])) (length (varint_bytes 0x12345) + 1) none)
    ≡ (if ltb 0x12345 (2 ^ 16)
        then ok tt (stored (over start (7 ∷ []) 1 none) 64 2 0x12345)
        else fail
            (stored (over start (7 ∷ []) 1 (first_error none integer_too_large)) 64 2 0x12345))
pb_dec_uvarint-varint_bytes_example =
    pb_dec_uvarint-varint_bytes two_bytes 64 0x12345 (7 ∷ []) 1 none start refl (omega arith)

pb_dec_uvarint-pb_enc_uvarint_example :
    let value = load high_bytes 16 2 in
    let bytes = varint_bytes value in
    let mem' = store 64 2 value start.mem in
    (pb_enc_uvarint high_bytes two_bytes 16 ≡ pb_write bytes)
    × (pb_dec_uvarint two_bytes 64 (over start (bytes ++ (7 ∷ [])) (length bytes + 1) none)
        ≡ ok tt (record (over start (7 ∷ []) 1 none) { mem = mem' }))
    × (load mem' 64 2 ≡ value)
pb_dec_uvarint-pb_enc_uvarint_example =
    pb_dec_uvarint-pb_enc_uvarint two_bytes high_bytes 16 64 (7 ∷ []) 1 none start refl
      high_bytes-IsMemory

pb_dec_varint-pb_enc_varint_example :
    let value = sign_extend 2 (load high_bytes 16 2) in
    let bytes = varint_bytes value in
    let mem' = store 64 2 value start.mem in
    (pb_enc_varint high_bytes two_bytes 16 ≡ pb_write bytes)
    × (pb_dec_varint two_bytes 64 (over start (bytes ++ (7 ∷ [])) (length bytes + 1) none)
        ≡ ok tt (record (over start (7 ∷ []) 1 none) { mem = mem' }))
    × (load mem' 64 2 ≡ load high_bytes 16 2)
pb_dec_varint-pb_enc_varint_example =
    pb_dec_varint-pb_enc_varint two_bytes high_bytes 16 64 (7 ∷ []) 1 none start refl
      high_bytes-IsMemory

pb_dec_svarint-pb_enc_svarint_example :
    let value = sign_extend 2 (load high_bytes 16 2) in
    let bytes = varint_bytes (zigzag value) in
    let mem' = store 64 2 value start.mem in
    (pb_enc_svarint high_bytes two_bytes 16 ≡ pb_write bytes)
    × (pb_dec_svarint two_bytes 64 (over start (bytes ++ (7 ∷ [])) (length bytes + 1) none)
        ≡ ok tt (record (over start (7 ∷ []) 1 none) { mem = mem' }))
    × (load mem' 64 2 ≡ load high_bytes 16 2)
pb_dec_svarint-pb_enc_svarint_example =
    pb_dec_svarint-pb_enc_svarint two_bytes high_bytes 16 64 (7 ∷ []) 1 none start refl
      high_bytes-IsMemory

-- A message of one `required bool`, no function of the caller, and an allocator that always answers
-- with the same place.
abbrev bool_message : Externals
bool_message = record {
  descriptor = λ a. record two_bytes { type = 0x00; data_size = 1 } ∷ [];
  decode_callback = λ function f arg d. ok tt d;
  decode_extension = λ function extension tag wire_type d. ok tt d;
  realloc = λ p size m. (4096, m);
  free = λ p m. m;
}

-- 2 ^ 32 entries of 2 ^ 32 bytes do not fit 64 bits.
allocate_field_exact_example :
    allocate_field bool_message 8 (2 ^ 32) (2 ^ 32) start ≡ throw size_too_large start
allocate_field_exact_example = allocate_field_exact bool_message 8 (2 ^ 32) (2 ^ 32) start

abbrev decoded : List ℕ → Outcome Decoder (Unit {0})
decoded bytes = pb_decode bool_message 2 1 64 (over start bytes (length bytes) none)

pb_decode-one_bool :
    let o = decoded (0x08 ∷ 0x01 ∷ []) in
    (succeeded o ≡ true) × (load (final o).mem 64 1 ≡ 1) × ((final o).stream.bytes_left ≡ 0)
unfolding pb_decode decode_with pb_message_set_to_defaults each_field_of each_field
    pb_field_set_to_default default_body default_static init_data pb_field_iter_begin
    pb_field_iter_next pb_decode_noinit with_count decode_message message_loop pb_decode_tag
    pb_decode_varint32_eof varint32_loop pb_readbyte call decode_tagged pb_field_iter_find find_loop
    decode_known is_incomplete mark_seen decode_field decode_by_atype decode_static_field
    decode_value pb_dec_bool pb_decode_varint32 store clear load check_complete all_seen
    required_count last_loop
pb_decode-one_bool = (refl, refl, refl)

pb_decode-nothing : (final (decoded [])).stream.errmsg ≡ some missing_required_field
unfolding pb_decode decode_with pb_message_set_to_defaults each_field_of each_field
    pb_field_set_to_default default_body default_static init_data pb_field_iter_begin
    pb_field_iter_next pb_decode_noinit with_count decode_message message_loop pb_decode_tag
    pb_decode_varint32_eof varint32_loop pb_readbyte call decode_tagged pb_field_iter_find find_loop
    decode_known is_incomplete mark_seen decode_field decode_by_atype decode_static_field
    decode_value pb_dec_bool pb_decode_varint32 store clear load check_complete all_seen
    required_count last_loop pb_release pb_release_single_field release_body
pb_decode-nothing = refl

bool_message-IsReading : IsReading bool_message
bool_message-IsReading = record {
  callback = λ function f arg. Reading-pure tt;
  extension = λ function extension tag wire_type. Reading-pure tt;
}

pb_decode-Takes_example :
    let d = over start (0x08 ∷ 0x01 ∷ 0x10 ∷ []) 2 none in
    Takes d.stream (0x08 ∷ 0x01 ∷ 0x10 ∷ []) (final (pb_decode bool_message 2 1 64 d)).stream
pb_decode-Takes_example =
    pb_decode-Takes bool_message 2 1 64 (over start (0x08 ∷ 0x01 ∷ 0x10 ∷ []) 2 none)
      (0x08 ∷ 0x01 ∷ 0x10 ∷ []) bool_message-IsReading refl

-- The locals at the start of a message of one field.
abbrev start_locals : Locals
start_locals = record {
  seen_low = 0;
  seen_high = 0;
  extension_range_start = 0;
  iter = begin (bool_message.descriptor 1) 64;
  fixed_count_field = none;
}

message_loop_enough_example :
    let d = over start (0x08 ∷ 0x01 ∷ []) 2 none in
    let noinit = pb_decode_noinit bool_message 1 in
    message_loop bool_message 1 (decode_with bool_message 1 noinit) noinit 3 start_locals d
    ≡ message_loop bool_message 1 (decode_with bool_message 1 noinit) noinit 100 start_locals d
message_loop_enough_example =
    message_loop_enough bool_message 1 bool_message-IsReading 3 100 start_locals
      (over start (0x08 ∷ 0x01 ∷ []) 2 none) (0x08 ∷ 0x01 ∷ []) refl (omega arith) (omega arith)

start-IsMarkable : IsMarkable 1 start_locals.iter
unfolding begin
start-IsMarkable = record { required = refl; below = omega arith }

all_seen-mark_all_example :
    (all_seen 1 (mark_all (start_locals.iter ∷ []) start_locals) ≡ true)
    ↔ ((i : ℕ) → i < 1 → Any (λ it. it.required_field_index ≡ i) (start_locals.iter ∷ []))
all_seen-mark_all_example =
    all_seen-mark_all 1 (start_locals.iter ∷ []) start_locals (omega arith) (start-IsMarkable, tt)
      refl refl
