-- ===== src/Nanopb/Message/Complete.antt =====
-- What `pb_decode_noinit` of pb_decode.c tests behind its loop, for a message of required scalar fields.
use between_us.Prelude.{
  ℕ, zero, suc, ◌+◌, ◌-◌, ◌≤◌, ◌<◌, ◌≡◌, refl, ap, ◌∙◌, Bool, true, false, not, if◌then◌else◌, List,
  [], ◌∷◌, All, Any, none, some, length, ◌==◌, inl, inr, arith,
}
use between_us.Prelude.Outcome.{ok, M}
use between_us.Nanopb.Error.{missing_required_field}
use between_us.Nanopb.Field.{Field}
use between_us.Nanopb.Iter.{Iter, field_at}
use between_us.Nanopb.Iter.Walk.{
  nth, nth_stands, pb_field_iter_next-nth, required_before, required_field_index-nth, field_at-tag,
}
use between_us.Nanopb.Decode.State.{Externals, Decoder, throw}
use between_us.Nanopb.Decode.Seen.{
  Locals, mark_seen, is_incomplete, last_loop, required_count, all_seen,
}
use between_us.Nanopb.Decode.Required.{mark, mark_all, IsMarkable, all_seen-mark_all}
use between_us.Nanopb.Decode.Message.{check_complete}
use between_us.Nanopb.Message.Scalar.{IsScalar}
use between_us.Nanopb.Message.Encode.{All-field_at, IsScalar-IsTagged, current-nth}
use between_us.Nanopb.Message.Loop.{iters_from, iter-mark}
use native.Mathlib.Decide.{ℕ_discrete}

if_not : {A : Type 0} (b : Bool) (x y : A) → (if not b then x else y) ≡ (if b then y else x)
if_not true x y = refl
if_not false x y = refl

no_count : (l : Locals) (d : Decoder) → l.fixed_count_field ≡ none → is_incomplete l d ≡ false
unfolding is_incomplete
no_count l d fixed =
    ap
      (λ o. elim o as (λ x. Bool) [
        | none ↦ false
        | some i ↦ not (d.count == (field_at l.iter.start i).array_size)
      ])
      fixed

-- The test, where no fixed count is open.
pub check_complete-all_seen :
    (ext : Externals) (depth : ℕ) (decode noinit : ℕ → ℕ → M Decoder (Unit {0})) (l : Locals)
    (d : Decoder) (count : ℕ)
    → l.fixed_count_field ≡ none
    → required_count l.iter ≡ count
    → check_complete ext depth decode noinit l d
      ≡ (if all_seen count l then ok tt d else throw missing_required_field d)
unfolding check_complete
check_complete-all_seen ext depth decode noinit l d count fixed counted =
    rw (counted, no_count l d fixed)
      (if_not (all_seen count l) (throw missing_required_field d) (ok tt d))

module _ (fields : List Field) (dest : ℕ) (scalars : All IsScalar fields) where
  -- All fields before a field are required.
  required_before_scalars : (k : ℕ) → k ≤ length fields → required_before fields dest k ≡ k
  unfolding required_before
  required_before_scalars zero below = refl
  required_before_scalars (suc k) below =
      let h = All-field_at IsScalar fields k scalars (omega arith) in
      ground (arith, h.required, required_before_scalars k (omega arith))

  pub index_scalars : (k : ℕ) → k ≤ length fields → (nth fields dest k).required_field_index ≡ k
  index_scalars k below = required_field_index-nth fields dest k ∙ required_before_scalars k below

  pub nth-IsMarkable : (k : ℕ) → k < length fields → IsMarkable (length fields) (nth fields dest k)
  nth-IsMarkable k below =
      let h = All-field_at IsScalar fields k scalars below in
      record {
        required = rw (current-nth fields dest k, h.required) refl;
        below = omega (arith, index_scalars k (omega arith));
      }

  iters-IsMarkable :
      (rounds k : ℕ)
      → k + rounds ≤ length fields
      → All (IsMarkable (length fields)) (iters_from fields dest k rounds)
  unfolding iters_from
  iters-IsMarkable zero k below = tt
  iters-IsMarkable (suc rounds) k below =
      (nth-IsMarkable k (omega arith), iters-IsMarkable rounds (suc k) (omega arith))

  -- Every index has its field among them.
  index-Any :
      (rounds k i : ℕ)
      → k + rounds ≤ length fields
      → k ≤ i
      → i < k + rounds
      → Any (λ it. it.required_field_index ≡ i) (iters_from fields dest k rounds)
  unfolding iters_from
  index-Any zero k i below low high = absurd (omega arith)
  index-Any (suc rounds) k i below low high = elim (ℕ_discrete k i) [
    | yes e ↦ inl (index_scalars k (omega arith) ∙ e)
    | no ne ↦ inr (index-Any rounds (suc k) i (omega arith) (omega arith) (omega arith))
  ]

  -- Where the iterator is behind the loop, and that no fixed count has begun.
  fixed-mark : (it : Iter) (l : Locals) → (mark it l).fixed_count_field ≡ l.fixed_count_field
  unfolding mark mark_seen
  fixed-mark it l = ground arith

  pub fixed-mark_all :
      (its : List Iter) (l : Locals) → (mark_all its l).fixed_count_field ≡ l.fixed_count_field
  unfolding mark_all
  fixed-mark_all [] l = refl
  fixed-mark_all (it ∷ its) l = fixed-mark_all its (mark it l) ∙ fixed-mark it l

  iter-mark_all :
      (rounds k : ℕ) (l : Locals)
      → (mark_all (iters_from fields dest k (suc rounds)) l).iter ≡ nth fields dest (k + rounds)
  unfolding mark_all iters_from
  iter-mark_all zero k l = iter-mark (nth fields dest k) l ∙ ap (nth fields dest) (omega arith)
  iter-mark_all (suc rounds) k l =
      iter-mark_all rounds (suc k) (mark (nth fields dest k) l) ∙ ap (nth fields dest) (omega arith)

  iter_last :
      (n : ℕ) (l : Locals)
      → 1 ≤ n
      → (mark_all (iters_from fields dest 0 n) l).iter ≡ nth fields dest (n - 1)
  iter_last zero l some_field = absurd (omega arith)
  iter_last (suc n) l some_field = iter-mark_all n 0 l ∙ ap (nth fields dest) (omega arith)

  -- The count goes from any field to the last one.
  last_loop-nth :
      (rounds k : ℕ)
      → k < length fields
      → length fields ≤ k + rounds
      → let last = length fields - 1 in
        last_loop rounds (nth fields dest k) ≡ (last, field_at fields last, nth fields dest 0)
  unfolding last_loop
  last_loop-nth zero k below enough = absurd (omega arith)
  last_loop-nth (suc rounds) k below enough =
      let next = pb_field_iter_next-nth fields dest k (IsScalar-IsTagged fields scalars) below in
      elim (ℕ_discrete (suc k) (length fields)) [
        | yes e ↦
            let end : (suc k == length fields) ≡ true = ground (arith, e) in
            let last : k ≡ length fields - 1 = omega (arith, e) in
            rw (next, end, current-nth fields dest k, index_scalars k (omega arith))
              (ap (λ (i : ℕ). (i, field_at fields i, nth fields dest 0)) last)
        | no ne ↦
            let more : (suc k == length fields) ≡ false = ground (arith, ne) in
            rw (next, more) (last_loop-nth rounds (suc k) (omega (arith, ne)) (omega arith))
      ]

  pub required_count-nth :
      (k : ℕ)
      → k < length fields
      → length fields ≤ 64
      → required_count (nth fields dest k) ≡ length fields
  unfolding required_count
  required_count-nth k below few =
      let last = length fields - 1 in
      let h = All-field_at IsScalar fields last scalars (omega arith) in
      let first = field_at-tag fields 0 (IsScalar-IsTagged fields scalars) (omega arith) in
      let some_field : ((field_at fields 0).tag == 0) ≡ false = ground (arith, first) in
      let (same, base, place) = nth_stands fields dest k in
      let enough : length fields ≤ k + suc (length (nth fields dest k).start) =
        rw same (omega arith) in
      rw (last_loop-nth _ k below enough, h.required, current-nth fields dest 0, some_field)
        (omega arith)

  -- All required fields have been seen, and no fixed count is open.
  pub check_complete_scalars :
      (ext : Externals) (depth : ℕ) (decode noinit : ℕ → ℕ → M Decoder (Unit {0})) (l : Locals)
      (d : Decoder)
      → 1 ≤ length fields
      → length fields ≤ 64
      → l.seen_low ≡ 0
      → l.seen_high ≡ 0
      → l.fixed_count_field ≡ none
      → check_complete ext depth decode noinit
          (mark_all (iters_from fields dest 0 (length fields)) l)
          d
        ≡ ok tt d
  check_complete_scalars ext depth decode noinit l d some_field few low high fixed =
      let its = iters_from fields dest 0 (length fields) in
      let marked = iters-IsMarkable (length fields) 0 (omega arith) in
      let seen =
        (all_seen-mark_all (length fields) its l few marked low high).1
          (λ i lt. index-Any (length fields) 0 i (omega arith) (omega arith) (omega arith)) in
      let count =
        ap required_count (iter_last (length fields) l some_field)
        ∙ required_count-nth (length fields - 1) (omega arith) few in
      rw
        (
          check_complete-all_seen ext depth decode noinit (mark_all its l) d (length fields)
              (fixed-mark_all its l ∙ fixed) count,
          seen,
        )
        refl
