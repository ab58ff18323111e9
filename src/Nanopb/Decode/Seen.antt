-- ===== src/Nanopb/Decode/Seen.antt =====
-- The bookkeeping of `pb_decode_noinit` in pb_decode.c: its locals, and which required fields it saw.
use between_us.Prelude.{
  ℕ, zero, suc, ◌+◌, ◌-◌, ◌/◌, ◌%◌, ◌^◌, bit_or, min, Bool, true, false, not, ◌&&◌, ◌||◌, Option,
  none, some, leb, ltb, ◌==◌, if◌then◌else◌, length,
}
use between_us.Nanopb.Field.{Field, ltype, htype}
use between_us.Nanopb.Field.Ltype
use between_us.Nanopb.Field.Htype
use between_us.Nanopb.Iter.{Iter, field_at, current, pb_field_iter_next}
use between_us.Nanopb.Decode.State.{Decoder}

-- The locals of `pb_decode_noinit` beside `fixed_count_size`, which is in the decoder.
-- `fields_seen` is an array of two words; `fixed_count_field` is an index into the descriptors.
pub record Locals : Type 0 where
  pub seen_low : ℕ
  pub seen_high : ℕ
  pub extension_range_start : ℕ
  pub iter : Iter
  pub fixed_count_field : Option ℕ

abbrev pub pb_max_required_fields : ℕ
pb_max_required_fields = 64

-- The loop of `find_extension_field`, which comes back to its start: one round for each field.
unfoldable pub find_extension_loop : ℕ → ℕ → Iter → Bool × Iter
find_extension_loop zero origin it = (false, it)
find_extension_loop (suc rounds) origin it =
    let it' = (pb_field_iter_next it).1 in
    let more = find_extension_loop rounds origin it' in
    if ltype (current it) == Ltype.extension
    then (true, it)
    else if it'.pos == origin
    then (false, it')
    else more

unfoldable pub find_extension_field : Iter → Bool × Iter
unfolding find_extension_loop
find_extension_field it = find_extension_loop (suc (length it.start)) it.pos it

-- `fixed_count_field != NULL && fixed_count_size != fixed_count_field->array_size`
unfoldable pub is_incomplete : Locals → Decoder → Bool
is_incomplete l d = elim l.fixed_count_field [
  | none ↦ false
  | some i ↦ not (d.count == (field_at l.iter.start i).array_size)
]

-- `fields_seen[index >> 5] |= (uint32_t)1 << (index & 31)`
unfoldable pub mark_seen : Locals → Locals
mark_seen l =
    let index = l.iter.required_field_index in
    let bit : ℕ = 2 ^ (index % 32) in
    if not (htype (current l.iter) == Htype.required && ltb index pb_max_required_fields)
    then l
    else if index / 32 == 0
    then record l { seen_low = bit_or l.seen_low bit }
    else record l { seen_high = bit_or l.seen_high bit }

-- The number of required fields: from the iterator to the last field, one round for each field. The
-- values are `req_field_count`, `last_type` (as its field) and the iterator behind the last step.
unfoldable pub last_loop : ℕ → Iter → ℕ × Field × Iter
last_loop zero it = (it.required_field_index, current it, it)
last_loop (suc rounds) it =
    let (more, it') = pb_field_iter_next it in
    let others = last_loop rounds it' in
    if more then others else (it.required_field_index, current it, it')

unfoldable pub required_count : Iter → ℕ
unfolding last_loop
required_count it =
    let (count, last, behind) = last_loop (suc (length it.start)) it in
    let fixed : ℕ =
      if htype last == Htype.required && not ((current behind).tag == 0)
      then count + 1
      else count in
    min fixed pb_max_required_fields

-- The whole words are compared with `allbits`, the bits left over with `allbits >> (32 - n % 32)`.
unfoldable pub all_seen : ℕ → Locals → Bool
all_seen count l =
    let allbits : ℕ = 2 ^ 32 - 1 in
    let word : ℕ = if count / 32 == 0 then l.seen_low else l.seen_high in
    (not (leb 1 (count / 32)) || (l.seen_low == allbits))
    && (not (leb 2 (count / 32)) || (l.seen_high == allbits))
    && (count % 32 == 0 || (word == allbits / 2 ^ (32 - count % 32)))
