-- ===== src/Nanopb/Decode/Reset.antt =====
-- Defaults and releases: pb_field_set_to_default and pb_release_single_field of pb_decode.c. They
-- change memory only. Messages nest to a depth; below it they leave the memory as it is.
use between_us.Prelude.{ℕ, zero, suc, ◌+◌, false, not, ◌&&◌, ◌||◌, length}
use between_us.Prelude.{◌==◌, ltb, if◌then◌else◌}
use between_us.Nanopb.Field.{ltype, htype, atype, Memory, load_size, load_pointer}
use between_us.Nanopb.Field.{pointer_size}
use between_us.Nanopb.Field.Ltype
use between_us.Nanopb.Field.Htype
use between_us.Nanopb.Field.Atype
use between_us.Nanopb.Iter.{Iter, field_at, current, begin, pb_field_iter_begin, pb_field_iter_next}
use between_us.Nanopb.Decode.State.{Externals, store_size, store_pointer, store_bool, clear, copy}

-- An extension has its type, `dest`, `next` and `found` at the offsets 0, 8, 16 and 24, and its type
-- has `arg`, the address of a field descriptor, at offset 16.
abbrev pub next_extension : Memory → ℕ → ℕ
next_extension m e = load_pointer m (e + 16)

abbrev pub found_at : ℕ → ℕ
found_at e = e + 24

unfoldable pub iter_from_extension : Externals → Memory → ℕ → Iter
iter_from_extension ext m e =
    let fields = ext.descriptor (load_pointer m (load_pointer m e + 16)) in
    let dest = load_pointer m (e + 8) in
    let place : ℕ = if atype (field_at fields 0) == Atype.pointer then e + 8 else dest in
    record (begin fields dest) { p_data = place; p_size = found_at e }

-- A step at each extension of a list, to a number of rounds.
unfoldable pub each_extension : (ℕ → Memory → Memory) → ℕ → ℕ → Memory → Memory
each_extension step zero e m = m
each_extension step (suc rounds) e m =
    let m' = step e m in
    let others = each_extension step rounds (next_extension m' e) m' in if e == 0 then m else others

-- A step at each field of a message, one round for each.
unfoldable pub each_field : (Iter → Memory → Memory) → ℕ → Iter → Memory → Memory
each_field step zero it m = m
each_field step (suc rounds) it m =
    let (more, it') = pb_field_iter_next it in
    let m' = step it m in let others = each_field step rounds it' m' in if more then others else m'

-- A step at each field of the message at an address.
unfoldable pub each_field_of : Externals → (Iter → Memory → Memory) → ℕ → ℕ → Memory → Memory
each_field_of ext step fields a m =
    let (some_field, it) = pb_field_iter_begin (ext.descriptor fields) a in
    if some_field then each_field step (length (ext.descriptor fields)) it m else m

module _ (ext : Externals) (depth : ℕ) (again : Iter → Memory → Memory) where
  -- The default value of a submessage, a value from the descriptor, or zeros.
  unfoldable pub init_data : Iter → Memory → Memory
  init_data it m =
      let f = current it in
      if ltype f == Ltype.submessage
      then each_field_of ext again f.ptr it.p_data m
      else if not (f.ptr == 0)
      then copy it.p_data f.ptr f.data_size m
      else clear it.p_data f.data_size m

  unfoldable pub default_static : Iter → Memory → Memory
  default_static it m =
      let f = current it in
      if htype f == Htype.optional && not (it.p_size == it.p_data)
      then init_data it (store_bool it.p_size false m)
      else if htype f == Htype.repeated || htype f == Htype.oneof
      then store_size it.p_size 0 m
      else init_data it m

  unfoldable pub default_pointer : Iter → Memory → Memory
  default_pointer it m =
      let f = current it in
      let m' = store_pointer it.p_data 0 m in
      if htype f == Htype.repeated || htype f == Htype.oneof then store_size it.p_size 0 m' else m'

  -- The body of `pb_field_set_to_default`; `again` is its call within extensions and submessages.
  unfoldable pub default_body : Iter → Memory → Memory
  default_body it m =
      let f = current it in
      let reset = λ (e : ℕ) (m1 : Memory).
        let m2 = store_bool (found_at e) false m1 in again (iter_from_extension ext m2 e) m2 in
      if ltype f == Ltype.extension
      then each_extension reset depth (load_pointer m it.p_data) m
      else if atype f == Atype.static
      then default_static it m
      else if atype f == Atype.pointer
      then default_pointer it m
      else m

  -- How many submessages a field holds.
  unfoldable pub item_count : Iter → Memory → ℕ
  item_count it m =
      let f = current it in
      let static = atype f == Atype.static in
      let count : ℕ =
        if static && it.p_size == it.p_data then f.array_size else load_size m it.p_size in
      if htype f == Htype.repeated
      then (if static && ltb f.array_size count then f.array_size else count)
      else 1

  unfoldable pub release_items : ℕ → ℕ → ℕ → ℕ → Memory → Memory
  release_items fields size zero item m = m
  release_items fields size (suc count) item m =
      release_items fields size count (item + size) (each_field_of ext again fields item m)

  -- The entries of a repeated text or bytes field are pointers.
  unfoldable pub free_entries : ℕ → ℕ → Memory → Memory
  free_entries zero p m = m
  free_entries (suc count) p m =
      free_entries count (p + pointer_size) (store_pointer p 0 (ext.free (load_pointer m p) m))

  unfoldable pub release_pointer : Iter → Memory → Memory
  release_pointer it m =
      let f = current it in
      let repeated = htype f == Htype.repeated in
      let texts = ltype f == Ltype.string || ltype f == Ltype.bytes in
      let m1 : Memory =
        if repeated && texts
        then free_entries (load_size m it.p_size) (load_pointer m it.p_data) m
        else m in
      let m2 : Memory = if repeated then store_size it.p_size 0 m1 else m1 in
      store_pointer it.p_data 0 (ext.free (load_pointer m2 it.p_data) m2)

  unfoldable pub release_submessages : Iter → Memory → Memory
  release_submessages it m =
      let f = current it in
      let item : ℕ = if atype f == Atype.pointer then load_pointer m it.p_data else it.p_data in
      if item == 0 then m else release_items f.ptr f.data_size (item_count it m) item m

  -- The body of `pb_release_single_field`; `again` is its call within extensions and submessages.
  unfoldable pub release_body : Iter → Memory → Memory
  release_body it m =
      let f = current it in
      let extension = λ (e : ℕ) (m1 : Memory). again (iter_from_extension ext m1 e) m1 in
      let inner : Memory =
        if ltype f == Ltype.extension
        then each_extension extension depth (load_pointer m it.p_data) m
        else if ltype f == Ltype.submessage && not (atype f == Atype.callback)
        then release_submessages it m
        else m in
      if htype f == Htype.oneof && not (load_size m it.p_size == f.tag)
      then m
      else if atype f == Atype.pointer
      then release_pointer it inner
      else inner

module _ (ext : Externals) where
  unfoldable pub pb_field_set_to_default : ℕ → Iter → Memory → Memory
  pb_field_set_to_default zero it m = m
  pb_field_set_to_default (suc depth) it m =
      default_body ext depth (pb_field_set_to_default depth) it m

  unfoldable pub pb_message_set_to_defaults : ℕ → ℕ → ℕ → Memory → Memory
  pb_message_set_to_defaults depth fields a m =
      each_field_of ext (pb_field_set_to_default depth) fields a m

  unfoldable pub pb_release_single_field : ℕ → Iter → Memory → Memory
  pb_release_single_field zero it m = m
  pb_release_single_field (suc depth) it m =
      release_body ext depth (pb_release_single_field depth) it m

  unfoldable pub pb_release : ℕ → ℕ → ℕ → Memory → Memory
  pb_release depth fields a m =
      if a == 0 then m else each_field_of ext (pb_release_single_field depth) fields a m
