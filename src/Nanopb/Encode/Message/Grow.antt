-- ===== src/Nanopb/Encode/Message/Grow.antt =====
-- `pb_encode` on a buffer: whatever the message holds, it adds bytes, counts them, and never passes
-- the size of the buffer, whether it succeeds or fails.
use between_us.Prelude.{ℕ, zero, suc, ◌+◌, ◌^◌, ◌<◌, ◌≡◌, Bool, List, length, arith}
use between_us.Prelude.{◌==◌, ◌||◌}
use between_us.Prelude.Outcome.{Outcome, ok, fail, M, pure, ◌>>=◌, final}
use between_us.Nanopb.Error.{
  callback_error, array_max_size_exceeded, missing_required_field, invalid_field_type,
}
use between_us.Nanopb.Output.{Ostream, buffer, return_error, sizing_stream}
use between_us.Nanopb.Output.Laws.{
  IsBounded, Extends, Grows, Grows-refl, Grows-trans, Grows-if, Growing, Growing-pure, Growing-fail,
  Growing-return_error, Growing->>=, Growing-if, pb_encode_varint-Growing, pb_encode_tag-Growing,
}
use between_us.Nanopb.Output.Scalars.{pb_encode_varint}
use between_us.Nanopb.Field.{Field, ltype, htype, atype, Memory, load_pointer}
use between_us.Nanopb.Field.Ltype
use between_us.Nanopb.Field.Htype
use between_us.Nanopb.Field.Atype
use between_us.Nanopb.Iter.{Iter, field_at, current, begin, pb_field_iter_begin, pb_field_iter_next}
use between_us.Nanopb.Encode.Grow.{IsMemory, IsEncoder, encode_value-Growing}
use between_us.Nanopb.Encode.Grow.{pb_encode_tag_for_field-Growing}
use between_us.Nanopb.Input.Fields.{wt_string}
use between_us.Nanopb.Encode.Value.{encode_value, pb_encode_tag_for_field}
use between_us.Nanopb.Encode.Message.Packed.{write_packed-stored}
use between_us.Nanopb.Encode.Message.{
  Externals, encode_each, write_packed, encode_packed, encode_entry, encode_array, encode_by_rule,
  encode_basic_field, encode_callback_field, encode_field, default_extension_encoder,
  extension_loop, encode_extension_field, encode_current, fields_loop, encode_message, pb_encode,
}

-- The fields of a descriptor array have sizes of the type `pb_size_t`.
abbrev pub IsSized : List Field → Type 0
IsSized fields = (i : ℕ) → (field_at fields i).data_size < 2 ^ 32

-- What the functions of the caller have to keep to: they write through the stream's functions.
pub record IsExternal (ext : Externals) (m : Memory) : Type 0 where
  pub sized : (a : ℕ) → IsSized (ext.descriptor a)
  pub callback : (function a : ℕ) (f : Field) → Growing (ext.encode_callback function m f a)
  pub extension : (function a : ℕ) → Growing (ext.encode_extension function m a)

encode_each-Growing :
    (value : ℕ → M Ostream (Unit {0})) (step count p : ℕ)
    → ((q : ℕ) → Growing (value q))
    → Growing (encode_each value step count p)
unfolding encode_each
encode_each-Growing value step zero p h = Growing-pure tt
encode_each-Growing value step (suc count) p h =
    Growing->>= _ _ (h p) (λ _. encode_each-Growing value step count (p + step) h)

module _ (ext : Externals) (m : Memory) (depth : ℕ) (sub : ℕ → ℕ → M Ostream (Unit {0}))
    (is_memory : IsMemory m) (is_external : IsExternal ext m) (is_encoder : IsEncoder sub) where
  value-Growing : (f : Field) (p : ℕ) → f.data_size < 2 ^ 32 → Growing (encode_value m sub f p)
  value-Growing f p small = encode_value-Growing m sub is_encoder is_memory f p small

  write_packed-Growing :
      (f : Field) (a count size : ℕ)
      → f.data_size < 2 ^ 32
      → Growing (write_packed ext m depth sub f a count size)
  write_packed-Growing f a count size small =
      let each =
        encode_each-Growing (encode_value m sub f) f.data_size count a
          (λ p. value-Growing f p small) in
      record {
        run = λ s w stored v.
            rw (write_packed-stored ext m depth sub f a count size s w stored)
              (each.run s w stored v);
      }

  -- What stands behind the tag of a packed array, by the size that was counted.
  counted-Grows :
      (f : Field) (a count : ℕ) (s : Ostream) (o : Outcome Ostream (Unit {0}))
      → f.data_size < 2 ^ 32
      → Grows s (
          final (elim o [
            | fail t ↦ fail s
            | ok _ t ↦
                (pb_encode_varint t.bytes_written >>= λ _.
                write_packed ext m depth sub f a count t.bytes_written)
                  s
          ]))
  counted-Grows f a count s (fail t) small = Grows-refl s
  counted-Grows f a count s (ok u t) small =
      (Growing->>= _ _ (pb_encode_varint-Growing t.bytes_written)
          (λ _. write_packed-Growing f a count t.bytes_written small)).run
        s

  encode_packed-Growing :
      (f : Field) (a count : ℕ)
      → f.data_size < 2 ^ 32
      → Growing (encode_packed ext m depth sub f a count)
  unfolding encode_packed
  encode_packed-Growing f a count small =
      Growing->>= _ _ (pb_encode_tag-Growing wt_string f.tag)
        (λ _. record { run = λ s. counted-Grows f a count s _ small })

  encode_entry-Growing :
      (f : Field) (p : ℕ) → f.data_size < 2 ^ 32 → Growing (encode_entry ext m depth sub f p)
  unfolding encode_entry
  encode_entry-Growing f p small =
      Growing->>= _ _ (pb_encode_tag_for_field-Growing f) (λ _. value-Growing f _ small)

  encode_array-Growing :
      (f : Field) (a count : ℕ)
      → f.data_size < 2 ^ 32
      → Growing (encode_array ext m depth sub f a count)
  unfolding encode_array
  encode_array-Growing f a count small = Growing-if _ _ _ (Growing-pure tt) (
      Growing-if _ _ _ (Growing-return_error _ array_max_size_exceeded) (
        Growing-if _ _ _ (encode_packed-Growing f a count small)
          (encode_each-Growing _ f.data_size count a (λ p. encode_entry-Growing f p small))))

  -- A tag and a value.
  pair-Growing :
      (f : Field) (p : ℕ)
      → f.data_size < 2 ^ 32
      → Growing (pb_encode_tag_for_field f >>= λ _. encode_value m sub f p)
  pair-Growing f p small =
      Growing->>= _ _ (pb_encode_tag_for_field-Growing f) (λ _. value-Growing f p small)

  encode_by_rule-Growing :
      (f : Field) (target : ℕ) (has : Bool) (count which : ℕ)
      → f.data_size < 2 ^ 32
      → Growing (encode_by_rule ext m depth sub f target has count which)
  unfolding encode_by_rule
  encode_by_rule-Growing f target has count which small =
      let present = pair-Growing f target small in
      let absent : Growing {A = Unit {0}} (pure tt) = Growing-pure tt in
      Growing-if (htype f == Htype.required) _ _
        (Growing-if (target == 0) _ _ (Growing-return_error _ missing_required_field) present)
        (Growing-if (htype f == Htype.optional) _ _ (Growing-if has _ _ present absent) (
          Growing-if (htype f == Htype.repeated) _ _ (encode_array-Growing f target count small)
            (Growing-if (which == f.tag) _ _ present absent)))

  encode_basic_field-Growing :
      (f : Field) (a : ℕ) → f.data_size < 2 ^ 32 → Growing (encode_basic_field ext m depth sub f a)
  unfolding encode_basic_field
  encode_basic_field-Growing f a small = encode_by_rule-Growing f _ _ _ _ small

  answered-Grows :
      (s : Ostream) (o : Outcome Ostream (Unit {0}))
      → Grows s (final o)
      → Grows s (final (elim o [ ok _ t ↦ ok tt t | fail t ↦ return_error callback_error t ]))
  answered-Grows s (ok u t) h = h
  answered-Grows s (fail t) h =
      Grows-trans s t _ h ((Growing-return_error (Unit {0}) callback_error).run t)

  called-Grows :
      (f : Field) (a : ℕ) (s : Ostream)
      → Grows s (final (encode_callback_field ext m depth sub f a s))
  unfolding encode_callback_field
  called-Grows f a s =
      let function = load_pointer m a in
      Grows-if (function == 0) s _ _ (Grows-refl s) (
        answered-Grows s (ext.encode_callback function m f (a + 8) s)
          ((is_external.callback function (a + 8) f).run s))

  encode_callback_field-Growing :
      (f : Field) (a : ℕ) → Growing (encode_callback_field ext m depth sub f a)
  encode_callback_field-Growing f a = record { run = called-Grows f a }

  encode_field-Growing :
      (f : Field) (a : ℕ) → f.data_size < 2 ^ 32 → Growing (encode_field ext m depth sub f a)
  unfolding encode_field
  encode_field-Growing f a small =
      let unknown = Growing-return_error (Unit {0}) invalid_field_type in
      Growing-if (atype f == Atype.static || atype f == Atype.pointer) _ _
        (encode_basic_field-Growing f a small)
        (Growing-if (atype f == Atype.callback) _ _ (encode_callback_field-Growing f a) unknown)

  default_extension_encoder-Growing :
      (e : ℕ) → Growing (default_extension_encoder ext m depth sub e)
  unfolding default_extension_encoder
  default_extension_encoder-Growing e =
      let arg = load_pointer m (load_pointer m e + 16) in
      encode_field-Growing (field_at (ext.descriptor arg) 0) _ (is_external.sized arg 0)

  extension_loop-Growing : (rounds e : ℕ) → Growing (extension_loop ext m depth sub rounds e)
  unfolding extension_loop
  extension_loop-Growing zero e =
      Growing-if (e == 0) _ _ (Growing-pure tt) (Growing-fail (Unit {0}))
  extension_loop-Growing (suc rounds) e =
      let encode = load_pointer m (load_pointer m e + 8) in
      let one =
        Growing-if (encode == 0) (default_extension_encoder ext m depth sub e) _
          (default_extension_encoder-Growing e) (is_external.extension encode e) in
      let rest = extension_loop-Growing rounds (load_pointer m (e + 16)) in
      Growing-if (e == 0) _ _ (Growing-pure tt) (Growing->>= _ _ one (λ _. rest))

  encode_current-Growing :
      (f : Field) (a : ℕ) → f.data_size < 2 ^ 32 → Growing (encode_current ext m depth sub f a)
  unfolding encode_current encode_extension_field
  encode_current-Growing f a small =
      Growing-if (ltype f == Ltype.extension) _ _ (extension_loop-Growing depth (load_pointer m a))
        (encode_field-Growing f a small)

  -- The iterator keeps to its descriptor array.
  start-next : (it : Iter) → (pb_field_iter_next it).1.start ≡ it.start
  unfolding pb_field_iter_next begin
  start-next it = ground arith

  fields_loop-Growing :
      (rounds : ℕ) (it : Iter) → IsSized it.start → Growing (fields_loop ext m depth sub rounds it)
  unfolding fields_loop
  fields_loop-Growing zero it sized = Growing-pure tt
  fields_loop-Growing (suc rounds) it sized =
      let sized' : IsSized (pb_field_iter_next it).1.start = rw (start-next it) sized in
      Growing->>= _ _ (encode_current-Growing (current it) it.p_data (sized it.pos))
        (λ _. Growing-if _ _ _ (fields_loop-Growing rounds _ sized') (Growing-pure tt))

  encode_message-Growing :
      (fields : List Field) (src : ℕ)
      → IsSized fields
      → Growing (encode_message ext m depth sub fields src)
  unfolding encode_message pb_field_iter_begin begin
  encode_message-Growing fields src sized =
      Growing-if _ _ _ (fields_loop-Growing (length fields) _ sized) (Growing-pure tt)

-- No message of the memory has 2 ^ 63 bytes or more, at any depth.
abbrev pub IsSmall : Externals → Memory → Type 0
IsSmall ext m =
    (depth fields src : ℕ) (t : Ostream)
    → pb_encode ext m depth fields src sizing_stream ≡ ok tt t
    → t.bytes_written < 2 ^ 63

pb_encode-IsEncoder :
    (ext : Externals) (m : Memory) (depth : ℕ)
    → IsMemory m
    → IsExternal ext m
    → IsSmall ext m
    → IsEncoder (pb_encode ext m depth)
unfolding pb_encode
pb_encode-IsEncoder ext m zero is_memory is_external is_small = record {
  grows = λ fields src. Growing-fail _;
  small = is_small 0;
}
pb_encode-IsEncoder ext m (suc depth) is_memory is_external is_small =
    let inner = pb_encode-IsEncoder ext m depth is_memory is_external is_small in
    record {
      grows = λ fields src.
          encode_message-Growing ext m depth (pb_encode ext m depth) is_memory is_external inner
            (ext.descriptor fields) src (is_external.sized fields);
      small = is_small (suc depth);
    }

-- For every memory of bytes, `pb_encode` on a stream over a buffer leaves the bytes that were written
-- before, adds bytes behind them and counts each one, and ends within `max_size`, where it succeeds
-- and where it fails. The buffer takes fewer than 2 ^ 63 bytes and no message has as many, the
-- stream has not passed its size before, the functions of the caller only extend a stream, and the
-- sizes in the descriptors are of the type `pb_size_t`.
pub pb_encode-Extends :
    (ext : Externals) (m : Memory) (depth fields src : ℕ) (s : Ostream) (w : List ℕ)
    → IsMemory m
    → IsExternal ext m
    → IsSmall ext m
    → s.sink ≡ buffer w
    → IsBounded s
    → (bytes : List ℕ) × Extends s w (final (pb_encode ext m depth fields src s)) bytes
pb_encode-Extends ext m depth fields src s w is_memory is_external is_small =
    ((pb_encode-IsEncoder ext m depth is_memory is_external is_small).grows fields src).run s w
