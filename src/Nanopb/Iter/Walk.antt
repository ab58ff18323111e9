-- ===== src/Nanopb/Iter/Walk.antt =====
-- Where the iterator stands: its steps visit the fields in order and come back to the first, and
-- its pointer is the place that the layout of the struct gives the field.
use between_us.Prelude.{ℕ, zero, suc, ◌+◌, ◌≤◌, ◌<◌, ◌≡◌, ◌≢◌, refl, true, false, List, [], ◌∷◌}
use between_us.Prelude.{if◌then◌else◌, ◌==◌, length, All, arith}
use between_us.Nanopb.Field.{Field, htype, address}
use between_us.Nanopb.Field.Htype
use between_us.Nanopb.Iter.{Iter, field_at, begin, room, in_union, advance}
use between_us.Nanopb.Iter.{pb_field_iter_next}

-- A descriptor array: no field but the end marker has the tag 0.
abbrev pub IsTagged : List Field → Type 0
IsTagged = All (λ f. f.tag ≢ 0)

pub field_at-tag :
    (fields : List Field) (i : ℕ)
    → IsTagged fields
    → i < length fields
    → (field_at fields i).tag ≢ 0
field_at-tag [] i t h = absurd (omega arith)
field_at-tag (f ∷ fs) zero t h = t.0
field_at-tag (f ∷ fs) (suc i) t h = field_at-tag fs i t.1 (omega arith)

pub field_at-past : (fields : List Field) (i : ℕ) → length fields ≤ i → (field_at fields i).tag ≡ 0
field_at-past [] i h = refl
field_at-past (f ∷ fs) zero h = absurd (omega arith)
field_at-past (f ∷ fs) (suc i) h = field_at-past fs i (omega arith)

module _ (fields : List Field) (dest : ℕ) where
  -- The iterator at field `k`.
  unfoldable pub nth : ℕ → Iter
  nth zero = begin fields dest
  nth (suc k) = advance (nth k) (field_at fields k) (field_at fields (suc k))

  -- The array and the struct stay, and the position is the number of steps.
  pub nth_stands :
      (k : ℕ) → ((nth k).start ≡ fields) × ((nth k).dest_struct ≡ dest) × ((nth k).pos ≡ k)
  unfolding nth begin
  nth_stands zero = (refl, refl, refl)
  nth_stands (suc k) = ground (arith, nth_stands k)

  -- In a descriptor array whose fields have tags, `pb_field_iter_next` leads from a field to the next
  -- one, and from the last one back to the first, where it answers false.
  pub pb_field_iter_next-nth :
      (k : ℕ)
      → IsTagged fields
      → k < length fields
      → pb_field_iter_next (nth k)
        ≡ (if suc k == length fields then (false, nth 0) else (true, nth (suc k)))
  pb_field_iter_next-nth k t h =
      let (same, base, place) = nth_stands k in
      let after : (nth k).pos + 1 ≡ suc k = omega (arith, place) in
      unfold pb_field_iter_next nth in
      rw (same, base, after, place)
        (ground (
          arith,
          field_at-tag fields k t h,
          field_at-past fields (suc k),
          field_at-tag fields (suc k) t,
        ))

  -- The layout of the struct: where field `k` stands behind its start.
  unfoldable pub offset : ℕ → ℕ
  offset zero = (field_at fields 0).data_offset
  offset (suc k) =
      let prev = field_at fields k in
      let next = field_at fields (suc k) in
      if in_union prev next then offset k else offset k + room prev + next.data_offset

  -- In a struct that is not at the null address, the pointer of the iterator at a field is the place
  -- where the sizes and offsets of the fields before it put that field.
  pub p_data-nth : (k : ℕ) → dest ≢ 0 → (nth k).p_data ≡ address (dest + offset k)
  unfolding nth begin offset
  p_data-nth zero h = ground arith
  p_data-nth (suc k) h = ground (arith, p_data-nth k h)

  -- The number of required fields before field `k`.
  unfoldable pub required_before : ℕ → ℕ
  required_before zero = 0
  required_before (suc k) =
      required_before k + (if htype (field_at fields k) == Htype.required then 1 else 0)

  -- The iterator's index of required fields is the number of those before its field.
  pub required_field_index-nth : (k : ℕ) → (nth k).required_field_index ≡ required_before k
  unfolding nth begin required_before
  required_field_index-nth zero = refl
  required_field_index-nth (suc k) = ground (arith, required_field_index-nth k)
