-- ===== src/Nanopb/Message/Decode.antt =====
-- What `pb_decode_noinit` of pb_decode.c makes of the bytes of required scalar fields.
use between_us.Prelude.{
  ℕ, suc, ◌+◌, ◌<◌, ◌≡◌, refl, ap, ◌∙◌, true, false, List, All, ◌++◌, Option, length, ◌==◌, inl,
  inr, arith,
}
use mathlib.Core.Path.{subst}
use between_us.Prelude.Outcome.{ok, M, pure, >>=_ok}
use between_us.Nanopb.Error.{Error}
use between_us.Nanopb.Field.{Field, Memory}
use between_us.Nanopb.Iter.{Iter, field_at, current, pb_field_iter_find}
use between_us.Nanopb.Iter.Walk.{nth}
use between_us.Nanopb.Iter.Find.{Found, pb_field_iter_find-Found}
use between_us.Nanopb.Input.{Istream}
use between_us.Nanopb.Input.Fields.{field, pb_decode_tag}
use between_us.Nanopb.Encode.Grow.{IsMemory}
use between_us.Nanopb.Decode.State.{Externals, Decoder, Cell, at}
use between_us.Nanopb.Decode.Field.{decode_by_atype, decode_field}
use between_us.Nanopb.Decode.Static.{decode_static_field}
use between_us.Nanopb.Decode.Seen.{Locals, mark_seen}
use between_us.Nanopb.Decode.Required.{mark}
use between_us.Nanopb.Decode.Value.{decode_value}
use between_us.Nanopb.Decode.Message.{decode_known, decode_tagged, message_loop}
use between_us.Nanopb.Decode.Scalars.{over}
use between_us.Nanopb.Message.Scalar.{
  not_extension, IsScalar, value_bytes, put_value, decode_value-IsKind,
}
use between_us.Nanopb.Message.Encode.{All-field_at, IsScalar-IsTagged, current-nth}

-- No two fields have the same tag.
abbrev pub IsUnique : List Field → Type 0
IsUnique fields =
    (j k : ℕ)
    → j < length fields
    → k < length fields
    → (field_at fields j).tag ≡ (field_at fields k).tag
    → j ≡ k

by_place :
    (fields : List Field) (dest origin k : ℕ)
    → IsUnique fields
    → k < length fields
    → IsScalar (field_at fields k)
    → (r : _) → Found fields dest (field_at fields k).tag origin r
    → r ≡ (true, nth fields dest k)
by_place fields dest origin k unique below h r (inl (j, lt, match, e)) =
    let same : j ≡ k = unique j k lt below (ground (arith, match)) in
    e ∙ ap (λ (i : ℕ). (true, nth fields dest i)) same
by_place fields dest origin k unique below h r (inr (no_match, e)) =
    let other = no_match k (omega arith) below in
    absurd (ground (arith, other, not_extension _ h.kind))

-- From every field, the iterator finds the field of a tag.
pb_field_iter_find_unique :
    (fields : List Field) (dest origin k : ℕ)
    → All IsScalar fields
    → IsUnique fields
    → origin < length fields
    → k < length fields
    → pb_field_iter_find (field_at fields k).tag (nth fields dest origin)
      ≡ (true, nth fields dest k)
pb_field_iter_find_unique fields dest origin k h unique from below =
    by_place fields dest origin k unique below (All-field_at IsScalar fields k h below) _ (
      pb_field_iter_find-Found fields dest (field_at fields k).tag origin
        (IsScalar-IsTagged fields h) from)

iter-mark_seen : (l : Locals) → record (mark_seen l) { iter = l.iter } ≡ mark_seen l
unfolding mark_seen
iter-mark_seen l = ground arith

module _ (ext : Externals) (depth : ℕ) (decode noinit : ℕ → ℕ → M Decoder (Unit {0})) where
  -- One round of the loop.
  pub message_loop-field :
      (fuel tag wire_type : ℕ) (l l' : Locals) (d d' : Decoder) (s : Istream)
      → (d.stream.bytes_left == 0) ≡ false
      → pb_decode_tag d.stream ≡ field tag wire_type s
      → decode_tagged ext depth decode noinit tag wire_type l (record d { stream = s }) ≡ ok l' d'
      → message_loop ext depth decode noinit (suc fuel) l d
        ≡ message_loop ext depth decode noinit fuel l' d'
  unfolding message_loop
  message_loop-field fuel tag wire_type l l' d d' s more read done =
      rw (more, read)
        (>>=_ok (decode_tagged ext depth decode noinit tag wire_type l)
          (λ l'. message_loop ext depth decode noinit fuel l') (record d { stream = s }) d' l' done)

module _ (ext : Externals) (depth : ℕ) (decode noinit : ℕ → ℕ → M Decoder (Unit {0})) (m : Memory)
    (is_memory : IsMemory m) where
  -- A required field in the struct is decoded where it stands.
  decode_by_atype_scalar :
      (wire_type : ℕ) (it : Iter) (cell : Cell) (d : Decoder)
      → IsScalar (current it)
      → decode_by_atype ext depth decode noinit wire_type it cell d
        ≡ decode_value ext decode noinit (current it) it.p_data d
  unfolding decode_by_atype decode_static_field
  decode_by_atype_scalar wire_type it cell d h = rw h.static (rw h.required refl)

  decode_field_scalar :
      (wire_type : ℕ) (it : Iter) (src : ℕ) (cell : Cell) (rest : List ℕ) (left : ℕ)
      (e : Option Error) (d : Decoder)
      → IsScalar (current it)
      → let bytes = value_bytes m (current it) src in
        decode_field ext depth decode noinit wire_type it cell
          (over d (bytes ++ rest) (length bytes + left) e)
        ≡ ok it (record (over d rest left e) { mem = put_value m (current it) src it.p_data d.mem })
  unfolding decode_field
  decode_field_scalar wire_type it src cell rest left e d h =
      let f = current it in
      let bytes = value_bytes m f src in
      let d1 = over d (bytes ++ rest) (length bytes + left) e in
      let d2 : Decoder = record (over d rest left e) { mem = put_value m f src it.p_data d.mem } in
      let read =
        decode_value-IsKind ext decode noinit m f src it.p_data rest left e d h.kind is_memory in
      rw h.required (
        >>=_ok (decode_by_atype ext depth decode noinit wire_type it cell) (λ _. pure it) d1 d2 tt
          (decode_by_atype_scalar wire_type it cell d1 h ∙ read))

  decode_known_scalar :
      (wire_type : ℕ) (it : Iter) (l : Locals) (src : ℕ) (rest : List ℕ) (left : ℕ)
      (e : Option Error) (d : Decoder)
      → IsScalar (current it)
      → let bytes = value_bytes m (current it) src in
        decode_known ext depth decode noinit wire_type
          (record l { iter = it })
          (over d (bytes ++ rest) (length bytes + left) e)
        ≡ ok
            (mark it l)
            (record (over d rest left e) { mem = put_value m (current it) src it.p_data d.mem })
  unfolding decode_known mark
  decode_known_scalar wire_type it l src rest left e d h =
      let f = current it in
      let l' : Locals = record l { iter = it } in
      let bytes = value_bytes m f src in
      let d1 = over d (bytes ++ rest) (length bytes + left) e in
      let d2 : Decoder = record (over d rest left e) { mem = put_value m f src it.p_data d.mem } in
      let done = decode_field_scalar wire_type it src (at it.p_size) rest left e d h in
      rw h.required (
        >>=_ok (decode_field ext depth decode noinit wire_type it (at it.p_size))
          (λ it'. pure (record (mark_seen l') { iter = it' })) d1 d2 it done
        ∙ ap (λ (x : Locals). ok x d2) (iter-mark_seen l'))

  -- A field behind its tag, wherever the iterator has stood before.
  pub decode_tagged_scalar :
      (fields : List Field) (wire_type src dest origin k : ℕ) (l : Locals) (rest : List ℕ)
      (left : ℕ) (e : Option Error) (d : Decoder)
      → All IsScalar fields
      → IsUnique fields
      → origin < length fields
      → k < length fields
      → l.iter ≡ nth fields dest origin
      → let f = field_at fields k in
        let it = nth fields dest k in
        let bytes = value_bytes m f src in
        decode_tagged ext depth decode noinit f.tag wire_type l
          (over d (bytes ++ rest) (length bytes + left) e)
        ≡ ok (mark it l) (record (over d rest left e) { mem = put_value m f src it.p_data d.mem })
  unfolding decode_tagged mark
  decode_tagged_scalar fields wire_type src dest origin k l rest left e d h unique from below
        stands =
      let it = nth fields dest k in
      let same = current-nth fields dest k in
      let here : IsScalar (current it) = rw same (All-field_at IsScalar fields k h below) in
      let known =
        subst
          (λ (f : Field).
            decode_known ext depth decode noinit wire_type (record l { iter = it })
              (over d (value_bytes m f src ++ rest) (length (value_bytes m f src) + left) e)
            ≡ ok (mark it l)
                (record (over d rest left e) { mem = put_value m f src it.p_data d.mem }))
          same (decode_known_scalar wire_type it l src rest left e d here) in
      rw (stands, pb_field_iter_find_unique fields dest origin k h unique from below) known
