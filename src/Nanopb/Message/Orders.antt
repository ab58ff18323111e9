-- ===== src/Nanopb/Message/Orders.antt =====
-- Fields in any order, any number of times: when `pb_decode_noinit` of pb_decode.c finds a required field
-- missing.
use between_us.Prelude.{
  ℕ, zero, suc, ◌≤◌, ◌<◌, ◌≡◌, refl, ap, ◌∙◌, Bool, true, false, ◌&&◌, ◌||◌, List, [], ◌∷◌, ◌++◌,
  All, Any, none, length, ◌==◌, if◌then◌else◌, inl, inr, arith,
}
use native.Mathlib.Decide.{ℕ_discrete}
use between_us.Prelude.Outcome.{ok, M}
use between_us.Nanopb.Error.{missing_required_field}
use between_us.Nanopb.Field.{Field, Memory}
use between_us.Nanopb.Iter.{Iter, field_at}
use between_us.Nanopb.Iter.Walk.{nth}
use between_us.Nanopb.Decode.State.{Externals, Decoder, throw}
use between_us.Nanopb.Decode.Seen.{Locals, required_count, all_seen}
use between_us.Nanopb.Decode.Required.{mark, mark_all, IsMarkable, all_seen-mark_all}
use between_us.Nanopb.Decode.Message.{check_complete}
use between_us.Nanopb.Message.Scalar.{IsScalar, field_bytes, put_value}
use between_us.Nanopb.Message.Loop.{iter-mark}
use between_us.Nanopb.Message.Complete.{
  index_scalars, nth-IsMarkable, fixed-mark_all, required_count-nth, check_complete-all_seen,
}

-- The fields with the indices of a list: their bytes, the iterator at them, and what they leave in memory.
unfoldable pub bytes_of : Memory → List Field → ℕ → List ℕ → List ℕ
bytes_of m fields src [] = []
bytes_of m fields src (k ∷ ks) =
    field_bytes m (field_at fields k) (nth fields src k).p_data ++ bytes_of m fields src ks

unfoldable pub iters_of : List Field → ℕ → List ℕ → List Iter
iters_of fields dest [] = []
iters_of fields dest (k ∷ ks) = nth fields dest k ∷ iters_of fields dest ks

unfoldable pub put_of : Memory → List Field → ℕ → ℕ → List ℕ → Memory → Memory
put_of m fields src dest [] m' = m'
put_of m fields src dest (k ∷ ks) m' =
    put_of m fields src dest ks
      (put_value m (field_at fields k) (nth fields src k).p_data (nth fields dest k).p_data m')

-- Whether an index, and whether all indices below a number, are in a list.
unfoldable pub among : ℕ → List ℕ → Bool
among i [] = false
among i (k ∷ ks) = k == i || among i ks

unfoldable pub all_among : ℕ → List ℕ → Bool
all_among zero ks = true
all_among (suc n) ks = among n ks && all_among n ks

unfoldable last_of : ℕ → List ℕ → ℕ
last_of k [] = k
last_of k (j ∷ js) = last_of j js

module _ (fields : List Field) (dest : ℕ) (scalars : All IsScalar fields) where
  iters_of-IsMarkable :
      (ks : List ℕ)
      → All (λ k. k < length fields) ks
      → All (IsMarkable (length fields)) (iters_of fields dest ks)
  unfolding iters_of
  iters_of-IsMarkable [] h = tt
  iters_of-IsMarkable (k ∷ ks) h =
      (nth-IsMarkable fields dest scalars k h.0, iters_of-IsMarkable ks h.1)

  iter-mark_all_of :
      (ks : List ℕ) (origin : ℕ) (l : Locals)
      → l.iter ≡ nth fields dest origin
      → (mark_all (iters_of fields dest ks) l).iter ≡ nth fields dest (last_of origin ks)
  unfolding mark_all iters_of last_of
  iter-mark_all_of [] origin l h = h
  iter-mark_all_of (k ∷ ks) origin l h =
      iter-mark_all_of ks k (mark (nth fields dest k) l) (iter-mark (nth fields dest k) l)

  last_of_below :
      (ks : List ℕ) (k : ℕ)
      → k < length fields
      → All (λ k. k < length fields) ks
      → last_of k ks < length fields
  unfolding last_of
  last_of_below [] k below h = below
  last_of_below (j ∷ js) k below h = last_of_below js j h.0 h.1

  among→Any :
      (ks : List ℕ) (i : ℕ)
      → All (λ k. k < length fields) ks
      → among i ks ≡ true
      → Any (λ it. it.required_field_index ≡ i) (iters_of fields dest ks)
  unfolding among iters_of
  among→Any [] i h e = cc
  among→Any (k ∷ ks) i h e = elim (ℕ_discrete k i) [
    | yes same ↦ inl (index_scalars fields dest scalars k (omega (arith, h.0)) ∙ same)
    | no other ↦ inr (among→Any ks i h.1 (ground (arith, e, other)))
  ]

  Any→among :
      (ks : List ℕ) (i : ℕ)
      → All (λ k. k < length fields) ks
      → Any (λ it. it.required_field_index ≡ i) (iters_of fields dest ks)
      → among i ks ≡ true
  unfolding among iters_of
  Any→among [] i h a = absurd a
  Any→among (k ∷ ks) i h (inl e) =
      let index = index_scalars fields dest scalars k (omega (arith, h.0)) in
      ground (arith, e, index)
  Any→among (k ∷ ks) i h (inr a) = ground (arith, Any→among ks i h.1 a)

-- The test for all indices.
pub all_among-among :
    (n : ℕ) (ks : List ℕ) (i : ℕ) → all_among n ks ≡ true → i < n → among i ks ≡ true
unfolding all_among
all_among-among zero ks i h lt = absurd (omega arith)
all_among-among (suc n) ks i h lt = elim (ℕ_discrete i n) [
  | yes e ↦ rw e ground (arith, h)
  | no ne ↦ all_among-among n ks i (ground (arith, h)) (omega arith)
]

among-all_among :
    (n : ℕ) (ks : List ℕ) → ((i : ℕ) → i < n → among i ks ≡ true) → all_among n ks ≡ true
unfolding all_among
among-all_among zero ks h = refl
among-all_among (suc n) ks h =
    let here = h n (omega arith) in
    let rest = among-all_among n ks (λ i lt. h i (omega arith)) in ground (arith, here, rest)

both_true : (a b : Bool) → (a ≡ true → b ≡ true) → (b ≡ true → a ≡ true) → a ≡ b
both_true a b f g = ground arith

-- The words of the decoder stand for the indices that have come.
all_seen-all_among :
    (fields : List Field) (dest : ℕ) (ks : List ℕ) (l : Locals)
    → All IsScalar fields
    → All (λ k. k < length fields) ks
    → length fields ≤ 64
    → l.seen_low ≡ 0
    → l.seen_high ≡ 0
    → all_seen (length fields) (mark_all (iters_of fields dest ks) l) ≡ all_among (length fields) ks
all_seen-all_among fields dest ks l scalars below few low high =
    let marked = iters_of-IsMarkable fields dest scalars ks below in
    let (there, back) =
      all_seen-mark_all (length fields) (iters_of fields dest ks) l few marked low high in
    both_true _ _
      (λ h.
        among-all_among (length fields) ks
          (λ i lt. Any→among fields dest scalars ks i below (there h i lt)))
      (λ h. back (λ i lt.
        among→Any fields dest scalars ks i below (all_among-among (length fields) ks i h lt)))

pub check_complete-all_among :
    (ext : Externals) (depth : ℕ) (decode noinit : ℕ → ℕ → M Decoder (Unit {0}))
    (fields : List Field) (dest : ℕ) (ks : List ℕ) (l : Locals) (d : Decoder)
    → All IsScalar fields
    → All (λ k. k < length fields) ks
    → 1 ≤ length fields
    → length fields ≤ 64
    → l.iter ≡ nth fields dest 0
    → l.seen_low ≡ 0
    → l.seen_high ≡ 0
    → l.fixed_count_field ≡ none
    → check_complete ext depth decode noinit (mark_all (iters_of fields dest ks) l) d
      ≡ (if all_among (length fields) ks then ok tt d else throw missing_required_field d)
check_complete-all_among ext depth decode noinit fields dest ks l d scalars below some_field few
      stands low high fixed =
    let its = iters_of fields dest ks in
    let count =
      ap required_count (iter-mark_all_of fields dest scalars ks 0 l stands)
      ∙ required_count-nth fields dest scalars (last_of 0 ks)
          (last_of_below fields dest scalars ks 0 some_field below) few in
    check_complete-all_seen ext depth decode noinit (mark_all its l) d (length fields)
      (fixed-mark_all fields dest scalars its l ∙ fixed) count
    ∙ ap (λ (b : Bool). if b then ok tt d else throw missing_required_field d)
        (all_seen-all_among fields dest ks l scalars below few low high)
