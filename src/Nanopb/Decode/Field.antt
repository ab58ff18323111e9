-- ===== src/Nanopb/Decode/Field.antt =====
-- One field of a message: decode_callback_field, pb_release_union_field and decode_field of
-- pb_decode.c.
use between_us.Prelude.{ℕ, zero, suc, ◌+◌, not, ◌||◌, ◌==◌, if◌then◌else◌}
use between_us.Prelude.Outcome.{ok, fail, M, pure, ◌>>=◌}
use between_us.Nanopb.Error.{invalid_field_type, callback_failed, invalid_union_tag, iterator_error}
use between_us.Nanopb.Input.{pb_istream_from_buffer}
use between_us.Nanopb.Input.Fields.{
  wt_string, pb_skip_field, read_raw_value, pb_make_string_substream,
}
use between_us.Nanopb.Field.{htype, atype, Memory, load_size, load_pointer}
use between_us.Nanopb.Field.Htype
use between_us.Nanopb.Field.Atype
use between_us.Nanopb.Iter.{Iter, current, pb_field_iter_find}
use between_us.Nanopb.Decode.State.{Externals, Decoder, Cell, at, throw, lift, store_pointer}
use between_us.Nanopb.Decode.Reset.{pb_message_set_to_defaults, pb_release_single_field}
use between_us.Nanopb.Decode.Value.{decode_value, close_after}
use between_us.Prelude.{length}
use between_us.Nanopb.Decode.Static.{decode_static_field}
use between_us.Nanopb.Decode.Pointer.{decode_pointer_field}

-- The loop of `decode_callback_field`, which calls the callback until the substream is used up: a
-- callback that always takes a byte is called at most `bytes_left + 1` times.
unfoldable pub callback_loop : ℕ → M Decoder (Unit {0}) → M Decoder (Unit {0})
callback_loop zero callback d = fail d
callback_loop (suc rounds) callback d = elim (callback d) [
  | ok _ d' ↦
      let more = callback_loop rounds callback d' in
      if d'.stream.bytes_left == 0 then ok tt d' else more
  | fail d' ↦ fail d'
]

-- `pb_callback_t` has its function first, and `arg` at offset 8.
unfoldable pub decode_callback_field : Externals → ℕ → Iter → M Decoder (Unit {0})
decode_callback_field ext wire_type it d =
    let function = load_pointer d.mem it.p_data in
    let callback = ext.decode_callback function (current it) (it.p_data + 8) in
    let text : M Decoder (Unit {0}) =
      (lift pb_make_string_substream >>= λ substream d1.
      elim (callback_loop (suc substream.bytes_left) callback (record d1 { stream = substream })) [
        | ok _ d2 ↦ close_after d1.stream (ok tt d2)
        | fail d2 ↦ throw callback_failed (record d2 { stream = d1.stream })
      ]) in
    let scalar : M Decoder (Unit {0}) =
      (lift (read_raw_value 10 wire_type) >>= λ bytes d1.
      elim (callback (record d1 { stream = pb_istream_from_buffer bytes (length bytes) })) [
        | ok _ d2 ↦ ok tt (record d2 { stream = d1.stream })
        | fail d2 ↦ fail (record d2 { stream = d1.stream })
      ]) in
    if it.p_data == 0 || function == 0
    then (lift (pb_skip_field wire_type) >>= λ _. pure tt) d
    else if wire_type == wt_string
    then text d
    else scalar d

-- The value is the iterator, which `pb_release_union_field` moves and moves back.
unfoldable pub pb_release_union_field : (Iter → Memory → Memory) → Iter → M Decoder Iter
pb_release_union_field release it d =
    let old_tag = load_size d.mem it.p_size in
    let new_tag = (current it).tag in
    let (found, old) = pb_field_iter_find old_tag it in
    let (restored, it') = pb_field_iter_find new_tag old in
    let m1 = release old d.mem in
    let m2 : Memory =
      if atype (current it') == Atype.pointer then store_pointer it'.p_data 0 m1 else m1 in
    if old_tag == 0 || old_tag == new_tag
    then ok it d
    else if not found
    then throw invalid_union_tag d
    else if not restored
    then throw iterator_error (record d { mem = m1 })
    else ok it' (record d { mem = m2 })

module _ (ext : Externals) (depth : ℕ) (decode noinit : ℕ → ℕ → M Decoder (Unit {0})) where
  -- The switch of `decode_field`.
  unfoldable pub decode_by_atype : ℕ → Iter → Cell → M Decoder (Unit {0})
  decode_by_atype wire_type it cell =
      let f = current it in
      let value = decode_value ext decode noinit in
      let defaults = pb_message_set_to_defaults ext depth in
      if atype f == Atype.static
      then decode_static_field value defaults wire_type it cell
      else if atype f == Atype.pointer
      then decode_pointer_field ext value defaults (pb_release_single_field ext depth) wire_type it
          cell
      else if atype f == Atype.callback
      then decode_callback_field ext wire_type it
      else throw invalid_field_type

  -- The value is the iterator, which the release of a union's old field moves.
  unfoldable pub decode_field : ℕ → Iter → Cell → M Decoder Iter
  decode_field wire_type it cell d =
      let again : M Decoder Iter =
        (pb_release_union_field (pb_release_single_field ext depth) it >>= λ it'.
        decode_by_atype wire_type it' (at it'.p_size) >>= λ _. pure it') in
      if htype (current it) == Htype.oneof
      then again d
      else (decode_by_atype wire_type it cell >>= λ _. pure it) d
