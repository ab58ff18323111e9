-- ===== src/Nanopb/Encode/Message.antt =====
-- Fields and messages in pb_encode.c. The functions that a message's memory names by address are
-- not part of the repository's code: they are a parameter.
pub mod Grow
pub mod Packed
pub mod Size
pub mod Counts
use between_us.Prelude.{ℕ, zero, suc, ◌+◌, ◌*◌, Bool, true, false, not, ◌&&◌, ◌||◌, List, []}
use between_us.Prelude.{◌∷◌, ◌==◌, leb, ltb, if◌then◌else◌, length}
use between_us.Prelude.Outcome.{Outcome, ok, fail, M, pure, ◌>>=◌, ◌>>◌}
use between_us.Nanopb.Error.{
  array_max_size_exceeded, missing_required_field, invalid_field_type, callback_error,
}
use between_us.Nanopb.Output.{Ostream, return_error, sizing_stream, is_sizing, count_only, pb_write}
use between_us.Nanopb.Output.Scalars.{pb_encode_varint, pb_encode_tag}
use between_us.Nanopb.Input.Fields.{wt_string}
use between_us.Nanopb.Field.{Field, ltype, htype, atype, Memory, address, load_size, load_pointer}
use between_us.Nanopb.Field.Ltype
use between_us.Nanopb.Field.Htype
use between_us.Nanopb.Field.Atype
use between_us.Nanopb.Iter.{Iter, field_at, current, pb_field_iter_begin, pb_field_iter_next}
use between_us.Nanopb.Encode.Default.{safe_read_bool, pb_check_proto3_default_value}
use between_us.Nanopb.Encode.Value.{pb_encode_tag_for_field, encode_value, pb_encode_submessage}

-- What an address means: a descriptor array, `funcs.encode` of a callback field on the address of
-- its `arg`, and `encode` of an extension type on the address of the extension.
pub record Externals : Type 0 where
  pub descriptor : ℕ → List Field
  pub encode_callback : ℕ → Memory → Field → ℕ → M Ostream (Unit {0})
  pub encode_extension : ℕ → Memory → ℕ → M Ostream (Unit {0})

-- A value at each of `count` places, `step` bytes apart.
unfoldable pub encode_each : (ℕ → M Ostream (Unit {0})) → ℕ → ℕ → ℕ → M Ostream (Unit {0})
encode_each value step zero p = pure tt
encode_each value step (suc count) p = value p >>= λ _. encode_each value step count (p + step)

module _ (ext : Externals) (m : Memory) (depth : ℕ) (sub : ℕ → ℕ → M Ostream (Unit {0})) where
  -- The total size of a packed array: computed, or counted on a stream that does not write.
  unfoldable pub packed_size : Field → ℕ → ℕ → Outcome Ostream (Unit {0})
  packed_size f a count =
      if ltype f == Ltype.fixed32
      then ok tt (record sizing_stream { bytes_written = 4 * count })
      else if ltype f == Ltype.fixed64
      then ok tt (record sizing_stream { bytes_written = 8 * count })
      else encode_each (encode_value m sub f) f.data_size count a sizing_stream

  -- What follows the length of a packed array.
  unfoldable pub write_packed : Field → ℕ → ℕ → ℕ → M Ostream (Unit {0})
  write_packed f a count size s =
      if is_sizing s.sink
      then count_only size s
      else encode_each (encode_value m sub f) f.data_size count a s

  unfoldable pub encode_packed : Field → ℕ → ℕ → M Ostream (Unit {0})
  encode_packed f a count = do
    pb_encode_tag wt_string f.tag
    λ s. elim (packed_size f a count) [
      | fail t ↦ fail s
      | ok _ t ↦
          (pb_encode_varint t.bytes_written >>= λ _. write_packed f a count t.bytes_written) s
    ]

  -- An entry with its tag. Entries of pointer texts and bytes are pointers themselves.
  unfoldable pub encode_entry : Field → ℕ → M Ostream (Unit {0})
  encode_entry f p =
      let indirect =
        atype f == Atype.pointer && (ltype f == Ltype.string || ltype f == Ltype.bytes) in
      pb_encode_tag_for_field f >>= λ _.
      encode_value m sub f (if indirect then load_pointer m p else p)

  unfoldable pub encode_array : Field → ℕ → ℕ → M Ostream (Unit {0})
  encode_array f a count =
      if count == 0
      then pure tt
      else if not (atype f == Atype.pointer) && ltb f.array_size count
      then return_error array_max_size_exceeded
      else if leb (ltype f) Ltype.last_packable
      then encode_packed f a count
      else encode_each (encode_entry f) f.data_size count a

  abbrev tag_and_value : Field → ℕ → M Ostream (Unit {0})
  tag_and_value f a = pb_encode_tag_for_field f >>= λ _. encode_value m sub f a

  -- The switch of `encode_basic_field` on PB_HTYPE, by what was read for the field.
  unfoldable pub encode_by_rule : Field → ℕ → Bool → ℕ → ℕ → M Ostream (Unit {0})
  encode_by_rule f target has count which =
      if htype f == Htype.required
      then (if target == 0 then return_error missing_required_field else tag_and_value f target)
      else if htype f == Htype.optional
      then (if has then tag_and_value f target else pure tt)
      else if htype f == Htype.repeated
      then encode_array f target count
      else if which == f.tag
      then tag_and_value f target
      else pure tt

  -- `pSize` points into the struct where the field has an offset for it, else to `implicit_has`.
  unfoldable pub encode_basic_field : Field → ℕ → M Ostream (Unit {0})
  encode_basic_field f a =
      let size_at = address (a + f.size_offset) in
      let stored = not (f.size_offset == 0) in
      let pointed = atype f == Atype.pointer in
      let target : ℕ = if pointed then load_pointer m a else a in
      let implicit_has : Bool =
        if pointed
        then not (target == 0)
        else if htype f == Htype.optional
        then not (pb_check_proto3_default_value m ext.descriptor depth f a)
        else true in
      let has : Bool = if stored then safe_read_bool m size_at else implicit_has in
      let count : ℕ = if stored then load_size m size_at else f.array_size in
      let which : ℕ = if stored then load_size m size_at else if implicit_has then 1 else 0 in
      encode_by_rule f target has count which

  -- `pb_callback_t` has its function first, and `arg` at offset 8.
  unfoldable pub encode_callback_field : Field → ℕ → M Ostream (Unit {0})
  encode_callback_field f a s =
      let function = load_pointer m a in
      if function == 0 then ok tt s else elim (ext.encode_callback function m f (a + 8) s) [
        | ok _ t ↦ ok tt t
        | fail t ↦ return_error callback_error t
      ]

  unfoldable pub encode_field : Field → ℕ → M Ostream (Unit {0})
  encode_field f a =
      if atype f == Atype.static || atype f == Atype.pointer
      then encode_basic_field f a
      else if atype f == Atype.callback
      then encode_callback_field f a
      else return_error invalid_field_type

  -- `pb_extension_t` has its type, `dest` and `next` at the offsets 0, 8 and 16, and its type has
  -- `encode` and `arg` at the offsets 8 and 16. `arg` is the address of a field descriptor.
  unfoldable pub default_extension_encoder : ℕ → M Ostream (Unit {0})
  default_extension_encoder extension =
      let arg = load_pointer m (load_pointer m extension + 16) in
      let f = field_at (ext.descriptor arg) 0 in
      encode_field f
        (if atype f == Atype.pointer then extension + 8 else load_pointer m (extension + 8))

  abbrev encode_one_extension : ℕ → M Ostream (Unit {0})
  encode_one_extension extension =
      let encode = load_pointer m (load_pointer m extension + 8) in
      if encode == 0
      then default_extension_encoder extension
      else ext.encode_extension encode m extension

  -- The loop over the list of extensions, to a number of rounds.
  unfoldable pub extension_loop : ℕ → ℕ → M Ostream (Unit {0})
  extension_loop zero extension = if extension == 0 then pure tt else fail
  extension_loop (suc rounds) extension =
      let next = load_pointer m (extension + 16) in
      let rest = (encode_one_extension extension >>= λ _. extension_loop rounds next) in
      if extension == 0 then pure tt else rest

  unfoldable pub encode_extension_field : ℕ → M Ostream (Unit {0})
  encode_extension_field a = extension_loop depth (load_pointer m a)

  -- One round of the loop of `pb_encode`.
  unfoldable pub encode_current : Field → ℕ → M Ostream (Unit {0})
  encode_current f a =
      if ltype f == Ltype.extension then encode_extension_field a else encode_field f a

  -- The loop of `pb_encode`: an array of `n` fields has `n` rounds.
  unfoldable pub fields_loop : ℕ → Iter → M Ostream (Unit {0})
  fields_loop zero it = pure tt
  fields_loop (suc rounds) it =
      let (more, it') = pb_field_iter_next it in
      encode_current (current it) it.p_data >>= λ _.
      (let others = fields_loop rounds it' in if more then others else pure tt)

  unfoldable pub encode_message : List Field → ℕ → M Ostream (Unit {0})
  encode_message fields src =
      let (some_field, it) = pb_field_iter_begin fields src in
      if some_field then fields_loop (length fields) it else pure tt

module _ (ext : Externals) (m : Memory) where
  -- `pb_encode` on the descriptor array at an address. Messages nest to a depth; below it a message
  -- fails with no message.
  unfoldable pub pb_encode : ℕ → ℕ → ℕ → M Ostream (Unit {0})
  pb_encode zero fields src = fail
  pb_encode (suc depth) fields src =
      encode_message ext m depth (pb_encode depth) (ext.descriptor fields) src

  unfoldable pub pb_encode_delimited : ℕ → ℕ → ℕ → M Ostream (Unit {0})
  pb_encode_delimited depth fields src = pb_encode_submessage m (pb_encode depth) fields src

  unfoldable pub pb_encode_nullterminated : ℕ → ℕ → ℕ → M Ostream (Unit {0})
  pb_encode_nullterminated depth fields src = pb_encode depth fields src >> pb_write (0 ∷ [])

  unfoldable pub pb_get_encoded_size : ℕ → ℕ → ℕ → Outcome Ostream ℕ
  pb_get_encoded_size depth fields src = elim (pb_encode depth fields src sizing_stream) [
    | ok _ t ↦ ok t.bytes_written t
    | fail t ↦ fail t
  ]
