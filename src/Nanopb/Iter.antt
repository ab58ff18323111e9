-- ===== src/Nanopb/Iter.antt =====
-- The field iterator (BetweenUS/Pods/nanopb/pb_common.c). `pos` is the index of the current field
-- in the array `start`; behind the last field of the list stands PB_LAST_FIELD.
pub mod Walk
pub mod Find
pub mod Struct
use between_us.Prelude.{ℕ, zero, suc, ◌+◌, ◌*◌, ◌≤◌, Bool, true, false, not, ◌&&◌, List}
use between_us.Prelude.{◌==◌, if◌then◌else◌, get_or, length}
use between_us.Nanopb.Field.{
  Field, last_field, ltype, htype, atype, pb_size_max, pointer_size, address,
}
use between_us.Nanopb.Field.Htype
use between_us.Nanopb.Field.Atype
use between_us.Nanopb.Field.Ltype

pub record Iter : Type 0 where
  pub start : List Field
  pub pos : ℕ
  pub required_field_index : ℕ
  pub dest_struct : ℕ
  pub p_data : ℕ
  pub p_size : ℕ

-- `iter->pos`
abbrev pub field_at : List Field → ℕ → Field
field_at fields i = get_or fields i last_field

abbrev pub current : Iter → Field
current it = field_at it.start it.pos

-- `pb_field_iter_begin` stores an iterator, and returns whether there is a field.
unfoldable pub begin : List Field → ℕ → Iter
begin fields dest =
    let first = field_at fields 0 in
    let there = address (dest + first.data_offset) in
    record {
      start = fields;
      pos = 0;
      required_field_index = 0;
      dest_struct = dest;
      p_data = if dest == 0 then 0 else there;
      p_size = if dest == 0 then 0 else address (there + first.size_offset);
    }

unfoldable pub pb_field_iter_begin : List Field → ℕ → Bool × Iter
unfolding begin
pb_field_iter_begin fields dest = (not ((field_at fields 0).tag == 0), begin fields dest)

-- The room that the data of a field takes in the message struct.
abbrev pub room : Field → ℕ
room f =
    if atype f == Atype.static && htype f == Htype.repeated
    then f.data_size * f.array_size
    else if atype f == Atype.pointer
    then pointer_size
    else f.data_size

-- Both fields stand at the same place in a union.
abbrev pub in_union : Field → Field → Bool
in_union prev next =
    htype prev == Htype.oneof && htype next == Htype.oneof && next.data_offset == pb_size_max

-- The step from a field to the next one.
abbrev pub advance : Iter → Field → Field → Iter
advance it prev next =
    let there = address (it.p_data + room prev + next.data_offset) in
    let index : ℕ =
      if htype prev == Htype.required
      then it.required_field_index + 1
      else it.required_field_index in
    if in_union prev next then record it { pos = it.pos + 1 } else record it {
      pos = it.pos + 1;
      required_field_index = index;
      p_data = there;
      p_size = address (there + next.size_offset);
    }

-- False where the iterator has wrapped back to the first field.
unfoldable pub pb_field_iter_next : Iter → Bool × Iter
unfolding begin
pb_field_iter_next it =
    let next = field_at it.start (it.pos + 1) in
    if (current it).tag == 0
    then (false, it)
    else if next.tag == 0
    then (false, begin it.start it.dest_struct)
    else (true, advance it (current it) next)

-- The loop of `pb_field_iter_find`, which ends where it comes back to `origin`. In a descriptor
-- array of `n` fields that is after `n` rounds.
unfoldable pub find_loop : ℕ → ℕ → ℕ → Iter → Bool × Iter
find_loop zero tag origin it = (false, it)
find_loop (suc rounds) tag origin it =
    let it' = (pb_field_iter_next it).1 in
    let more = find_loop rounds tag origin it' in
    if (current it).tag == tag && not (ltype (current it) == Ltype.extension)
    then (true, it)
    else if it'.pos == origin
    then (false, it')
    else more

unfoldable pub pb_field_iter_find : ℕ → Iter → Bool × Iter
pb_field_iter_find tag it = find_loop (suc (length it.start)) tag it.pos it
