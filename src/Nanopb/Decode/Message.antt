-- ===== src/Nanopb/Decode/Message.antt =====
-- Messages: decode_extension, pb_decode_noinit and pb_decode of pb_decode.c.
use between_us.Prelude.{
  ℕ, zero, suc, ◌+◌, ◌-◌, ◌^◌, Bool, true, false, not, ◌&&◌, ◌||◌, List, none, some, leb, ◌==◌,
  if◌then◌else◌,
}
use between_us.Prelude.Outcome.{Outcome, ok, fail, M, pure, ◌>>=◌}
use between_us.Nanopb.Error.{wrong_fixed_count, missing_required_field}
use between_us.Nanopb.Input.Fields.{
  field, eof, error, pb_decode_tag, pb_skip_field, pb_make_string_substream,
}
use between_us.Nanopb.Field.{Field, htype, load_pointer}
use between_us.Nanopb.Field.Htype
use between_us.Nanopb.Iter.{Iter, field_at, current, begin, pb_field_iter_find}
use between_us.Nanopb.Decode.State.{
  Externals, Decoder, Cell, at, local, throw, modify, lift, store_bool,
}
use between_us.Nanopb.Decode.Reset.{
  next_extension, found_at, iter_from_extension, pb_message_set_to_defaults, pb_release,
}
use between_us.Nanopb.Decode.Value.{close_after}
use between_us.Nanopb.Decode.Field.{decode_field}
use between_us.Nanopb.Decode.Seen.{
  Locals, find_extension_field, is_incomplete, mark_seen, required_count, all_seen,
}

module _ (ext : Externals) (depth : ℕ) (decode noinit : ℕ → ℕ → M Decoder (Unit {0})) where
  unfoldable pub default_extension_decoder : ℕ → ℕ → ℕ → M Decoder (Unit {0})
  default_extension_decoder extension tag wire_type d =
      let arg = load_pointer d.mem (load_pointer d.mem extension + 16) in
      let it = iter_from_extension ext d.mem extension in
      let read =
        (modify (store_bool (found_at extension) true) >>= λ _.
        decode_field ext depth decode noinit wire_type it (at it.p_size) >>= λ _. pure tt) in
      if not ((field_at (ext.descriptor arg) 0).tag == tag) then ok tt d else read d

  -- `decode` is at offset 0 of the type of an extension.
  unfoldable pub try_extension : ℕ → ℕ → ℕ → M Decoder (Unit {0})
  try_extension extension tag wire_type d =
      let function = load_pointer d.mem (load_pointer d.mem extension) in
      if function == 0
      then default_extension_decoder extension tag wire_type d
      else ext.decode_extension function extension tag wire_type d

  -- The loop of `decode_extension`, to a number of rounds: `pos` is what was left of the stream.
  unfoldable pub extension_loop : ℕ → ℕ → ℕ → ℕ → ℕ → M Decoder (Unit {0})
  extension_loop zero extension pos tag wire_type d =
      if extension == 0 || not (pos == d.stream.bytes_left) then ok tt d else fail d
  extension_loop (suc rounds) extension pos tag wire_type d =
      let next : M Decoder (Unit {0}) =
        λ d'. extension_loop rounds (next_extension d'.mem extension) pos tag wire_type d' in
      let handle = (try_extension extension tag wire_type >>= λ _. next) in
      if extension == 0 || not (pos == d.stream.bytes_left) then ok tt d else handle d

  unfoldable pub decode_extension : ℕ → ℕ → Iter → M Decoder (Unit {0})
  decode_extension tag wire_type it d =
      extension_loop depth (load_pointer d.mem it.p_data) d.stream.bytes_left tag wire_type d

  abbrev skip : ℕ → Locals → M Decoder Locals
  skip wire_type l = lift (pb_skip_field wire_type) >>= λ _. pure l

  -- A tag that the message has no field for: an extension, or data to skip.
  unfoldable pub decode_unknown : ℕ → ℕ → Locals → M Decoder Locals
  decode_unknown tag wire_type l d =
      let (found, it) = find_extension_field l.iter in
      let start : ℕ = if found then (current it).tag else 2 ^ 32 - 1 in
      let l' : Locals = record l { iter = it; extension_range_start = start } in
      let handle : M Decoder Locals =
        (decode_extension tag wire_type it >>= λ _ d'.
        if not (d'.stream.bytes_left == d.stream.bytes_left)
        then ok l' d'
        else skip wire_type l' d') in
      if not (leb l.extension_range_start tag)
      then skip wire_type l d
      else if leb start tag
      then handle d
      else skip wire_type l' d

  -- A tag whose field the iterator has found. A repeated field without a counter in the struct counts
  -- in the local `fixed_count_size`.
  unfoldable pub decode_known : ℕ → Locals → M Decoder Locals
  decode_known wire_type l d =
      let it = l.iter in
      let fixed = htype (current it) == Htype.repeated && it.p_size == it.p_data in
      let same : Bool = elim l.fixed_count_field [ none ↦ false | some i ↦ i == it.pos ] in
      let fresh = fixed && not same in
      let l1 : Locals = if fresh then record l { fixed_count_field = some it.pos } else l in
      let d1 : Decoder = if fresh then record d { count = 0 } else d in
      let cell : Cell = if fixed then local else at it.p_size in
      let l2 = mark_seen l1 in
      if fresh && is_incomplete l d
      then throw wrong_fixed_count d
      else (decode_field ext depth decode noinit wire_type it cell >>= λ it'.
            pure (record l2 { iter = it' }))
          d1

  unfoldable pub decode_tagged : ℕ → ℕ → Locals → M Decoder Locals
  decode_tagged tag wire_type l =
      let (found, it) = pb_field_iter_find tag l.iter in
      let l' : Locals = record l { iter = it } in
      if found then decode_known wire_type l' else decode_unknown tag wire_type l'

  -- The loop of `pb_decode_noinit`. A round takes a byte at least: `bytes_left + 1` rounds are enough
  -- where the callbacks do not give bytes back.
  unfoldable pub message_loop : ℕ → Locals → M Decoder Locals
  message_loop zero l d = fail d
  message_loop (suc rounds) l d =
      let next : Locals → M Decoder Locals = λ l'. message_loop rounds l' in
      let round : Outcome Decoder Locals = elim (pb_decode_tag d.stream) [
        | field tag wire_type s ↦ (decode_tagged tag wire_type l >>= next) (record d { stream = s })
        | eof s ↦ ok l (record d { stream = s })
        | error s ↦ fail (record d { stream = s })
      ] in
      if d.stream.bytes_left == 0 then ok l d else round

  -- What is tested behind the loop.
  unfoldable pub check_complete : Locals → M Decoder (Unit {0})
  check_complete l d =
      if is_incomplete l d
      then throw wrong_fixed_count d
      else if not (all_seen (required_count l.iter) l)
      then throw missing_required_field d
      else ok tt d

  unfoldable pub decode_message : List Field → ℕ → M Decoder (Unit {0})
  decode_message fields dest d =
      let l : Locals = record {
        seen_low = 0;
        seen_high = 0;
        extension_range_start = 0;
        iter = begin fields dest;
        fixed_count_field = none;
      } in
      (message_loop (suc d.stream.bytes_left) l >>= check_complete) d

-- A call with a `fixed_count_size` of its own.
unfoldable pub with_count : M Decoder (Unit {0}) → M Decoder (Unit {0})
with_count run d = elim (run (record d { count = 0 })) [
  | ok _ d' ↦ ok tt (record d' { count = d.count })
  | fail d' ↦ fail (record d' { count = d.count })
]

-- `pb_decode` around a `pb_decode_noinit`: defaults before it, and a release where it fails.
unfoldable pub decode_with :
    Externals → ℕ → (ℕ → ℕ → M Decoder (Unit {0})) → ℕ → ℕ → M Decoder (Unit {0})
decode_with ext depth noinit fields dest d =
    let d0 : Decoder = record d { mem = pb_message_set_to_defaults ext depth fields dest d.mem } in
    elim (noinit fields dest d0) [
      | ok _ d' ↦ ok tt d'
      | fail d' ↦ fail (record d' { mem = pb_release ext depth fields dest d'.mem })
    ]

module _ (ext : Externals) where
  -- Messages nest to a depth; below it a message fails with no message.
  unfoldable pub pb_decode_noinit : ℕ → ℕ → ℕ → M Decoder (Unit {0})
  pb_decode_noinit zero fields dest = fail
  pb_decode_noinit (suc depth) fields dest =
      let noinit = pb_decode_noinit depth in
      with_count (
        decode_message ext depth (decode_with ext depth noinit) noinit (ext.descriptor fields) dest)

  unfoldable pub pb_decode : ℕ → ℕ → ℕ → M Decoder (Unit {0})
  pb_decode depth = decode_with ext depth (pb_decode_noinit depth)

  -- A message in a substream of its own length.
  abbrev in_substream : M Decoder (Unit {0}) → M Decoder (Unit {0})
  in_substream run = lift pb_make_string_substream >>= λ substream d.
      close_after d.stream (run (record d { stream = substream }))

  unfoldable pub pb_decode_delimited_noinit : ℕ → ℕ → ℕ → M Decoder (Unit {0})
  pb_decode_delimited_noinit depth fields dest = in_substream (pb_decode_noinit depth fields dest)

  unfoldable pub pb_decode_delimited : ℕ → ℕ → ℕ → M Decoder (Unit {0})
  pb_decode_delimited depth fields dest = in_substream (pb_decode depth fields dest)

  unfoldable pub pb_decode_nullterminated : ℕ → ℕ → ℕ → M Decoder (Unit {0})
  pb_decode_nullterminated = pb_decode
