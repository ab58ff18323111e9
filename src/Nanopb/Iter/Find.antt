-- ===== src/Nanopb/Iter/Find.antt =====
-- `pb_field_iter_find`: what it finds, that it finds it from every field, and that it ends.
use between_us.Prelude.{ℕ, zero, suc, ◌+◌, ◌≤◌, ◌<◌, ◌≡◌, Bool, true, false, not, ◌&&◌, List}
use between_us.Prelude.{◌==◌, length, arith, ◌⊎◌, inl, inr, Bool-cases, ◌∙◌, ap, sym}
use mathlib.Core.Path.{ap₂, subst}
use between_us.Prelude.{◌≢◌}
use between_us.Nanopb.Field.{Field, ltype}
use between_us.Nanopb.Field.Ltype
use between_us.Nanopb.Iter.{Iter, field_at, find_loop, pb_field_iter_next}
use between_us.Nanopb.Iter.{pb_field_iter_find}
use between_us.Nanopb.Iter.Walk.{IsTagged, nth, nth_stands, pb_field_iter_next-nth}
use native.Mathlib.Decide.{ℕ_discrete, dec_lt}

-- The field that the iterator looks for.
abbrev pub is_match : ℕ → Field → Bool
is_match tag f = f.tag == tag && not (ltype f == Ltype.extension)

module _ (fields : List Field) (dest tag origin : ℕ) where
  abbrev matches : ℕ → Bool
  matches j = is_match tag (field_at fields j)

  -- No field from `low` on and below `high` is the one.
  abbrev Clear : ℕ → ℕ → Type 0
  Clear low high = (j : ℕ) → low ≤ j → j < high → matches j ≡ false

  -- Either the iterator stands at a field that matches, or it is back and there is none.
  abbrev pub Found : Bool × Iter → Type 0
  Found r =
      ((j : ℕ) × (j < length fields) × (matches j ≡ true) × (r ≡ (true, nth fields dest j)))
      ⊎ (((j : ℕ) → 0 ≤ j → j < length fields → matches j ≡ false)
          × (r ≡ (false, nth fields dest origin)))

  Clear-suc : (low i : ℕ) → Clear low i → matches i ≡ false → Clear low (suc i)
  Clear-suc low i c m j p q = elim (ℕ_discrete j i) [
    | yes e ↦ ap matches e ∙ m
    | no ne ↦ c j p (omega arith)
  ]

  Found-here :
      (rounds i : ℕ)
      → i < length fields
      → matches i ≡ true
      → Found (find_loop (suc rounds) tag origin (nth fields dest i))
  unfolding find_loop
  Found-here rounds i h m =
      let (same, base, place) = nth_stands fields dest i in inl (i, h, m, rw (same, place, m))

  -- A round that does not match goes on where the iterator then stands, or stops back at `origin`.
  go_on :
      (rounds i j : ℕ)
      → matches i ≡ false
      → (pb_field_iter_next (nth fields dest i)).1 ≡ nth fields dest j
      → j ≢ origin
      → find_loop (suc rounds) tag origin (nth fields dest i)
        ≡ find_loop rounds tag origin (nth fields dest j)
  unfolding find_loop
  go_on rounds i j m e ne = ground (arith, nth_stands fields dest i, nth_stands fields dest j)

  come_back :
      (rounds i j : ℕ)
      → matches i ≡ false
      → (pb_field_iter_next (nth fields dest i)).1 ≡ nth fields dest j
      → j ≡ origin
      → find_loop (suc rounds) tag origin (nth fields dest i) ≡ (false, nth fields dest origin)
  unfolding find_loop
  come_back rounds i j m e back = ground (arith, nth_stands fields dest i, nth_stands fields dest j)

  -- A step that stays below the end of the array.
  step_to_next :
      (i : ℕ)
      → IsTagged fields
      → suc i < length fields
      → (pb_field_iter_next (nth fields dest i)).1 ≡ nth fields dest (suc i)
  step_to_next i t h = ground (arith, pb_field_iter_next-nth fields dest i t (omega arith))

  step_to_first :
      (i : ℕ)
      → IsTagged fields
      → suc i ≡ length fields
      → (pb_field_iter_next (nth fields dest i)).1 ≡ nth fields dest 0
  step_to_first i t h = ground (arith, pb_field_iter_next-nth fields dest i t (omega arith))

  none_matches : Clear origin (length fields) → Clear 0 origin → Clear 0 (length fields)
  none_matches upper lower j p q = elim (dec_lt j origin) [
    | yes h ↦ lower j p h
    | no h ↦ upper j (omega arith) q
  ]

  -- The fields before the one where the search began.
  second_lap :
      (rounds i : ℕ)
      → IsTagged fields
      → origin < length fields
      → i < origin
      → origin ≤ i + rounds
      → Clear origin (length fields)
      → Clear 0 i
      → Found (find_loop rounds tag origin (nth fields dest i))
  second_lap zero i t inside h enough upper lower = absurd (omega arith)
  second_lap (suc rounds) i t inside h enough upper lower = elim (Bool-cases (matches i)) [
    | inl m ↦ Found-here rounds i (omega arith) m
    | inr m ↦
        let lower' = Clear-suc 0 i lower m in
        let step = step_to_next i t (omega arith) in
        elim (ℕ_discrete (suc i) origin) [
          | yes e ↦ inr (
            none_matches upper (λ j p q. lower' j p (omega arith)),
            come_back rounds i (suc i) m step e,
          )
          | no ne ↦
              rw (go_on rounds i (suc i) m step ne)
                (second_lap rounds (suc i) t inside (omega arith) (omega arith) upper lower')
        ]
  ]

  -- The fields from the one where the search began to the last.
  first_lap :
      (rounds i : ℕ)
      → IsTagged fields
      → origin ≤ i
      → i < length fields
      → length fields + origin ≤ i + rounds
      → Clear origin i
      → Found (find_loop rounds tag origin (nth fields dest i))
  first_lap zero i t from h enough clear = absurd (omega arith)
  first_lap (suc rounds) i t from h enough clear = elim (Bool-cases (matches i)) [
    | inl m ↦ Found-here rounds i h m
    | inr m ↦
        let clear' = Clear-suc origin i clear m in
        elim (ℕ_discrete (suc i) (length fields)) [
          | no ne ↦
              rw (go_on rounds i (suc i) m (step_to_next i t (omega arith)) (omega arith))
                (first_lap rounds (suc i) t (omega arith) (omega arith) (omega arith) clear')
          | yes e ↦
              let upper =
                λ (j : ℕ) (p : origin ≤ j) (q : j < length fields). clear' j p (omega arith) in
              let nothing =
                λ (j : ℕ) (p : 0 ≤ j) (q : j < 0). absurd {A = matches j ≡ false} (omega arith) in
              let step = step_to_first i t e in
              elim (ℕ_discrete 0 origin) [
                | yes z ↦ inr (
                  none_matches upper (λ j p q. absurd (omega arith)),
                  come_back rounds i 0 m step z,
                )
                | no ne ↦
                    rw (go_on rounds i 0 m step ne) (
                      second_lap rounds 0 t (omega arith) (omega arith) (omega arith) upper nothing)
              ]
        ]
  ]

find-eq-loop :
    (fields : List Field) (dest tag k : ℕ)
    → let it = nth fields dest k in
      pb_field_iter_find tag it ≡ find_loop (suc (length fields)) tag k it
unfolding pb_field_iter_find
find-eq-loop fields dest tag k =
    let (same, base, place) = nth_stands fields dest k in
    ap₂ (λ (n p : ℕ). find_loop (suc n) tag p (nth fields dest k)) (ap length same) place

-- In a descriptor array whose fields have tags, `pb_field_iter_find` from any field ends at a field
-- with the tag that is no extension, or answers false, where there is none, with the iterator back
-- at the field where it was.
pub pb_field_iter_find-Found :
    (fields : List Field) (dest tag k : ℕ)
    → IsTagged fields
    → k < length fields
    → Found fields dest tag k (pb_field_iter_find tag (nth fields dest k))
pb_field_iter_find-Found fields dest tag k t h =
    subst (Found fields dest tag k) (sym (find-eq-loop fields dest tag k)) (
      first_lap fields dest tag k (suc (length fields)) k t (omega arith) h (omega arith)
        (λ j p q. absurd (omega arith)))
