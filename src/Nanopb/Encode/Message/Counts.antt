-- ===== src/Nanopb/Encode/Message/Counts.antt =====
-- What the fields of a message write, they count.
use between_us.Prelude.{ℕ, zero, suc, ◌+◌, ◌^◌, ◌<◌, ◌≡◌, refl, Bool, List, length, arith}
use between_us.Prelude.{◌==◌, ◌||◌}
use between_us.Prelude.Outcome.{Outcome, ok, fail, M, pure, ◌>>=◌}
use between_us.Nanopb.Error.{
  callback_error, array_max_size_exceeded, missing_required_field, invalid_field_type,
}
use between_us.Nanopb.Output.{Ostream, return_error}
use between_us.Nanopb.Output.Scalars.{pb_encode_varint}
use between_us.Nanopb.Output.Counts.{
  Pair, Same, Same-if, Counting, Counting-pure, Counting-fail, Counting-if, Counting-return_error,
  Counting->>=, pb_encode_varint-Counting, pb_encode_tag-Counting,
}
use between_us.Nanopb.Field.{Field, ltype, htype, atype, Memory, load_pointer}
use between_us.Nanopb.Field.Ltype
use between_us.Nanopb.Field.Htype
use between_us.Nanopb.Field.Atype
use between_us.Nanopb.Iter.{Iter, field_at, current, begin, pb_field_iter_begin, pb_field_iter_next}
use between_us.Nanopb.Encode.Grow.{IsMemory}
use between_us.Nanopb.Encode.Counts.{pb_encode_tag_for_field-Counting}
use between_us.Nanopb.Encode.Counts.Submessage.{IsCounter, encode_value-Counting}
use between_us.Nanopb.Input.Fields.{wt_string}
use between_us.Nanopb.Encode.Value.{encode_value, pb_encode_tag_for_field}
use between_us.Nanopb.Encode.Message.{
  Externals, packed_size, write_packed, encode_packed, encode_entry, encode_array, encode_by_rule,
  encode_basic_field, encode_callback_field, encode_field, default_extension_encoder,
  extension_loop, encode_extension_field, encode_current, fields_loop, encode_message,
}
use between_us.Nanopb.Encode.Message.Grow.{IsSized}
use between_us.Nanopb.Encode.Message.Packed.{
  write_packed-stored, write_packed-sizing, encode_each-Counting, each-Same, Counted,
  packed_size-Counted,
}

-- What is asked of the functions of the caller: a callback writes what it has counted, and the sizes of the
-- fields are of the type `pb_size_t`.
pub record IsSteady (ext : Externals) (m : Memory) : Type 0 where
  pub sized : (a : ℕ) → IsSized (ext.descriptor a)
  pub callback : (function a : ℕ) (f : Field) → Counting (ext.encode_callback function m f a)
  pub extension : (function a : ℕ) → Counting (ext.encode_extension function m a)

answered-Same :
    (k : ℕ) (o o' : Outcome Ostream (Unit {0}))
    → Same k o o'
    → Same k
        (elim o [ ok _ t ↦ ok tt t | fail t ↦ return_error callback_error t ])
        (elim o' [ ok _ t ↦ ok tt t | fail t ↦ return_error callback_error t ])
answered-Same k (ok _ s) (ok _ t) h = h
answered-Same k (ok _ s) (fail t) h = absurd h.agree
answered-Same k (fail s) o h = record { agree = tt }

module _ (ext : Externals) (m : Memory) (depth : ℕ) (sub : ℕ → ℕ → M Ostream (Unit {0}))
    (is_memory : IsMemory m) (is_steady : IsSteady ext m) (is_counter : IsCounter sub) where
  value-Counting : (f : Field) (p : ℕ) → f.data_size < 2 ^ 32 → Counting (encode_value m sub f p)
  value-Counting f p small = encode_value-Counting m sub is_counter is_memory f p small

  write_packed-Counting :
      (f : Field) (a count size : ℕ)
      → f.data_size < 2 ^ 32
      → Counted ext m depth sub f a count size
      → Counting (write_packed ext m depth sub f a count size)
  write_packed-Counting f a count size small c = record {
    run = λ k s t p.
        rw
          (
            write_packed-stored ext m depth sub f a count size s p.written p.stored,
            write_packed-sizing ext m depth sub f a count size t p.counts,
          )
          (each-Same (encode_value m sub f) f.data_size count a k size s t c.behind
            (λ q. value-Counting f q small) c.counts c.total p);
  }

  -- What stands behind the tag of a packed array, by the size that was counted.
  by_size :
      (f : Field) (a count k : ℕ) (s t : Ostream) (o : Outcome Ostream (Unit {0}))
      → f.data_size < 2 ^ 32
      → packed_size ext m depth sub f a count ≡ o
      → Pair k s t
      → Same k
          (elim o [
            | fail u ↦ fail s
            | ok _ u ↦
                (pb_encode_varint u.bytes_written >>= λ _.
                write_packed ext m depth sub f a count u.bytes_written)
                  s
          ])
          (elim o [
            | fail u ↦ fail t
            | ok _ u ↦
                (pb_encode_varint u.bytes_written >>= λ _.
                write_packed ext m depth sub f a count u.bytes_written)
                  t
          ])
  by_size f a count k s t (fail u) small e p = record { agree = tt }
  by_size f a count k s t (ok _ u) small e p =
      let entries =
        write_packed-Counting f a count u.bytes_written small
          (packed_size-Counted ext m depth sub f a count u e) in
      (Counting->>= _ _ (pb_encode_varint-Counting u.bytes_written) (λ _. entries)).run k s t p

  encode_packed-Counting :
      (f : Field) (a count : ℕ)
      → f.data_size < 2 ^ 32
      → Counting (encode_packed ext m depth sub f a count)
  unfolding encode_packed
  encode_packed-Counting f a count small =
      Counting->>= _ _ (pb_encode_tag-Counting wt_string f.tag)
        (λ _. record { run = λ k s t p. by_size f a count k s t _ small refl p })

  encode_entry-Counting :
      (f : Field) (p : ℕ) → f.data_size < 2 ^ 32 → Counting (encode_entry ext m depth sub f p)
  unfolding encode_entry
  encode_entry-Counting f p small =
      Counting->>= _ _ (pb_encode_tag_for_field-Counting f) (λ _. value-Counting f _ small)

  encode_array-Counting :
      (f : Field) (a count : ℕ)
      → f.data_size < 2 ^ 32
      → Counting (encode_array ext m depth sub f a count)
  unfolding encode_array
  encode_array-Counting f a count small = Counting-if _ _ _ Counting-pure (
      Counting-if _ _ _ (Counting-return_error array_max_size_exceeded) (
        Counting-if _ _ _ (encode_packed-Counting f a count small)
          (encode_each-Counting _ f.data_size count a (λ p. encode_entry-Counting f p small))))

  -- A tag and a value.
  pair-Counting :
      (f : Field) (p : ℕ)
      → f.data_size < 2 ^ 32
      → Counting (pb_encode_tag_for_field f >>= λ _. encode_value m sub f p)
  pair-Counting f p small =
      Counting->>= _ _ (pb_encode_tag_for_field-Counting f) (λ _. value-Counting f p small)

  encode_by_rule-Counting :
      (f : Field) (target : ℕ) (has : Bool) (count which : ℕ)
      → f.data_size < 2 ^ 32
      → Counting (encode_by_rule ext m depth sub f target has count which)
  unfolding encode_by_rule
  encode_by_rule-Counting f target has count which small =
      let present = pair-Counting f target small in
      let absent : Counting (pure tt) = Counting-pure in
      Counting-if (htype f == Htype.required) _ _
        (Counting-if (target == 0) _ _ (Counting-return_error missing_required_field) present)
        (Counting-if (htype f == Htype.optional) _ _ (Counting-if has _ _ present absent) (
          Counting-if (htype f == Htype.repeated) _ _ (encode_array-Counting f target count small)
            (Counting-if (which == f.tag) _ _ present absent)))

  encode_basic_field-Counting :
      (f : Field) (a : ℕ) → f.data_size < 2 ^ 32 → Counting (encode_basic_field ext m depth sub f a)
  unfolding encode_basic_field
  encode_basic_field-Counting f a small = encode_by_rule-Counting f _ _ _ _ small

  called-Same :
      (f : Field) (a k : ℕ) (s t : Ostream)
      → Pair k s t
      → Same k
          (encode_callback_field ext m depth sub f a s)
          (encode_callback_field ext m depth sub f a t)
  unfolding encode_callback_field
  called-Same f a k s t p =
      let function = load_pointer m a in
      Same-if (function == 0) k _ _ _ _ (record { agree = p })
        (answered-Same k (ext.encode_callback function m f (a + 8) s)
          (ext.encode_callback function m f (a + 8) t)
          ((is_steady.callback function (a + 8) f).run k s t p))

  encode_callback_field-Counting :
      (f : Field) (a : ℕ) → Counting (encode_callback_field ext m depth sub f a)
  encode_callback_field-Counting f a = record { run = λ k s t p. called-Same f a k s t p }

  encode_field-Counting :
      (f : Field) (a : ℕ) → f.data_size < 2 ^ 32 → Counting (encode_field ext m depth sub f a)
  unfolding encode_field
  encode_field-Counting f a small =
      let unknown = Counting-return_error invalid_field_type in
      Counting-if (atype f == Atype.static || atype f == Atype.pointer) _ _
        (encode_basic_field-Counting f a small)
        (Counting-if (atype f == Atype.callback) _ _ (encode_callback_field-Counting f a) unknown)

  default_extension_encoder-Counting :
      (e : ℕ) → Counting (default_extension_encoder ext m depth sub e)
  unfolding default_extension_encoder
  default_extension_encoder-Counting e =
      let arg = load_pointer m (load_pointer m e + 16) in
      encode_field-Counting (field_at (ext.descriptor arg) 0) _ (is_steady.sized arg 0)

  extension_loop-Counting : (rounds e : ℕ) → Counting (extension_loop ext m depth sub rounds e)
  unfolding extension_loop
  extension_loop-Counting zero e = Counting-if (e == 0) _ _ Counting-pure Counting-fail
  extension_loop-Counting (suc rounds) e =
      let encode = load_pointer m (load_pointer m e + 8) in
      let one =
        Counting-if (encode == 0) (default_extension_encoder ext m depth sub e) _
          (default_extension_encoder-Counting e) (is_steady.extension encode e) in
      let rest = extension_loop-Counting rounds (load_pointer m (e + 16)) in
      Counting-if (e == 0) _ _ Counting-pure (Counting->>= _ _ one (λ _. rest))

  encode_current-Counting :
      (f : Field) (a : ℕ) → f.data_size < 2 ^ 32 → Counting (encode_current ext m depth sub f a)
  unfolding encode_current encode_extension_field
  encode_current-Counting f a small =
      Counting-if (ltype f == Ltype.extension) _ _
        (extension_loop-Counting depth (load_pointer m a)) (encode_field-Counting f a small)

  -- The iterator keeps to its descriptor array.
  start-next : (it : Iter) → (pb_field_iter_next it).1.start ≡ it.start
  unfolding pb_field_iter_next begin
  start-next it = ground arith

  fields_loop-Counting :
      (rounds : ℕ) (it : Iter) → IsSized it.start → Counting (fields_loop ext m depth sub rounds it)
  unfolding fields_loop
  fields_loop-Counting zero it sized = Counting-pure
  fields_loop-Counting (suc rounds) it sized =
      let sized' : IsSized (pb_field_iter_next it).1.start = rw (start-next it) sized in
      Counting->>= _ _ (encode_current-Counting (current it) it.p_data (sized it.pos))
        (λ _. Counting-if _ _ _ (fields_loop-Counting rounds _ sized') Counting-pure)

  pub encode_message-Counting :
      (fields : List Field) (src : ℕ)
      → IsSized fields
      → Counting (encode_message ext m depth sub fields src)
  unfolding encode_message pb_field_iter_begin begin
  encode_message-Counting fields src sized =
      Counting-if _ _ _ (fields_loop-Counting (length fields) _ sized) Counting-pure
