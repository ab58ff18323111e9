-- ===== src/Nanopb/Encode/Default.antt =====
-- `pb_check_proto3_default_value` of pb_encode.c: whether a proto3 field has its default value.
use between_us.Prelude.{ℕ, zero, suc, ◌+◌, Bool, true, false, not, ◌&&◌, List, ◌==◌, ltb}
use between_us.Prelude.{if◌then◌else◌, length}
use between_us.Nanopb.Field.{Field, ltype, htype, atype, Memory, address, load_size, load_pointer}
use between_us.Nanopb.Field.Ltype
use between_us.Nanopb.Field.Htype
use between_us.Nanopb.Field.Atype
use between_us.Nanopb.Iter.{Iter, current, pb_field_iter_begin, pb_field_iter_next}

-- `safe_read_bool`: a `bool` is one byte.
abbrev pub safe_read_bool : Memory → ℕ → Bool
safe_read_bool m a = not (m a == 0)

-- The comparison byte by byte at the end of `pb_check_proto3_default_value`.
unfoldable pub all_zero : Memory → ℕ → ℕ → Bool
all_zero m a zero = true
all_zero m a (suc n) = m a == 0 && all_zero m (a + 1) n

module _ (m : Memory) (sub : ℕ → ℕ → Bool) where
  -- A singular proto3 field. `sub` is the loop over the fields of a submessage.
  unfoldable pub singular_default : Field → ℕ → Bool
  singular_default f a =
      let static = atype f == Atype.static in
      if static && ltype f == Ltype.bytes
      then load_size m a == 0
      else if static && ltype f == Ltype.string
      then m a == 0
      else if static && ltype f == Ltype.fixed_length_bytes
      then f.data_size == 0
      else if static && ltype f == Ltype.submessage
      then sub f.ptr a
      else if atype f == Atype.pointer && ltb Ltype.last_packable (ltype f)
      then load_pointer m a == 0
      else all_zero m a f.data_size

  unfoldable pub check_default : Field → ℕ → Bool
  check_default f a =
      let size_at = address (a + f.size_offset) in
      let counted = not (f.size_offset == 0) in
      if htype f == Htype.required
      then false
      else if htype f == Htype.repeated && counted
      then load_size m size_at == 0
      else if htype f == Htype.repeated && atype f == Atype.static
      then false
      else if htype f == Htype.oneof
      then load_size m size_at == 0
      else if htype f == Htype.optional && counted
      then not (safe_read_bool m size_at)
      else singular_default f a

  -- The loop over the fields of a submessage; an array of `n` fields has `n` rounds.
  unfoldable pub check_fields : ℕ → Iter → Bool
  check_fields zero it = true
  check_fields (suc rounds) it =
      let (more, it') = pb_field_iter_next it in
      let others = check_fields rounds it' in
      if check_default (current it) it.p_data then (if more then others else true) else false

module _ (m : Memory) (descriptor : ℕ → List Field) where
  -- Submessages within submessages, to a depth. At depth 0 a submessage counts as set.
  unfoldable pub submessage_default : ℕ → ℕ → ℕ → Bool
  submessage_default zero fields a = false
  submessage_default (suc depth) fields a =
      let (some_field, it) = pb_field_iter_begin (descriptor fields) a in
      let loop = check_fields m (submessage_default depth) (length (descriptor fields)) it in
      if some_field then loop else true

  unfoldable pub pb_check_proto3_default_value : ℕ → Field → ℕ → Bool
  pb_check_proto3_default_value depth f a = check_default m (submessage_default depth) f a
