-- ===== src/Nanopb/Message/AnyOrder.antt =====
-- The order of the fields on the wire: what `pb_decode` leaves in a struct where all fields have come.
use between_us.Prelude.{
  ℕ, zero, suc, ◌+◌, ◌≤◌, ◌<◌, ◌≡◌, refl, ap, ◌∙◌, Bool, true, List, [], ◌∷◌, All, length, ◌⊎◌, inl,
  inr, if◌then◌else◌, arith,
}
use mathlib.Core.Path.{ap₂}
use native.Mathlib.Decide.{ℕ_discrete}
use between_us.Prelude.Outcome.{ok}
use between_us.Nanopb.Field.{Field, Memory}
use between_us.Nanopb.Input.{pb_istream_from_buffer}
use between_us.Nanopb.Iter.{field_at}
use between_us.Nanopb.Iter.Walk.{nth}
use between_us.Nanopb.Encode.Grow.{IsMemory}
use between_us.Nanopb.Decode.State.{Externals, Decoder}
use between_us.Nanopb.Decode.Message.{pb_decode}
use between_us.Nanopb.Message.Scalar.{IsScalar, value_of, put_value, word_of, word_of-put_value}
use between_us.Nanopb.Message.Encode.{All-field_at}
use between_us.Nanopb.Message.Decode.{IsUnique}
use between_us.Nanopb.Message.Layout.{IsApart, words, words_from, word_of_store-IsAway}
use between_us.Nanopb.Message.Orders.{bytes_of, put_of, among, all_among, all_among-among}
use between_us.Nanopb.Message.Missing.{pb_decode-bytes_of}

if_true : {A : Type 0} {b : Bool} (x y : A) → b ≡ true → (if b then x else y) ≡ x
if_true x y e = ap (λ (c : Bool). if c then x else y) e

module _ (m : Memory) (fields : List Field) (src dest : ℕ) (is_memory : IsMemory m)
    (scalars : All IsScalar fields) (apart : IsApart fields dest) where
  -- Decoding another field leaves a field as it is.
  word_of-put_value_other :
      (j k : ℕ) (m' : Memory)
      → (j < k) ⊎ (k < j)
      → j < length fields
      → k < length fields
      → let g = field_at fields j in
        let b = (nth fields dest j).p_data in
        word_of
          (put_value m (field_at fields k) (nth fields src k).p_data (nth fields dest k).p_data m')
          g
          b
        ≡ word_of m' g b
  word_of-put_value_other j k m' (inl front) low high =
      let f = field_at fields k in
      let g = All-field_at IsScalar fields j scalars (omega arith) in
      word_of_store-IsAway (nth fields dest k).p_data f.data_size
        (value_of m f (nth fields src k).p_data) _ m' _ g.kind (inl (apart j k front high))
  word_of-put_value_other j k m' (inr behind) low high =
      let f = field_at fields k in
      let g = All-field_at IsScalar fields j scalars (omega arith) in
      word_of_store-IsAway (nth fields dest k).p_data f.data_size
        (value_of m f (nth fields src k).p_data) _ m' _ g.kind (inr (apart k j behind low))

  -- A field holds the word that it has in the first struct.
  abbrev IsHeld : ℕ → Memory → Type 0
  IsHeld j m' =
      word_of m' (field_at fields j) (nth fields dest j).p_data
      ≡ word_of m (field_at fields j) (nth fields src j).p_data

  abbrev put_one : ℕ → Memory → Memory
  put_one k = put_value m (field_at fields k) (nth fields src k).p_data (nth fields dest k).p_data

  put_one-IsHeld : (k : ℕ) (m' : Memory) → k < length fields → IsHeld k (put_one k m')
  put_one-IsHeld k m' below =
      let h = All-field_at IsScalar fields k scalars (omega arith) in
      word_of-put_value m m' (field_at fields k) (nth fields src k).p_data
        (nth fields dest k).p_data h.kind is_memory

  put_of-IsHeld :
      (ks : List ℕ) (j : ℕ) (m' : Memory)
      → All (λ k. k < length fields) ks
      → j < length fields
      → IsHeld j m'
      → IsHeld j (put_of m fields src dest ks m')
  unfolding put_of
  put_of-IsHeld [] j m' below lt held = held
  put_of-IsHeld (k ∷ ks) j m' below lt held = elim (ℕ_discrete k j) [
    | yes e ↦ put_of-IsHeld ks j (put_one k m') below.1 lt (rw (← e) (put_one-IsHeld k m' below.0))
    | no ne ↦
        let other : (j < k) ⊎ (k < j) = ground (arith, ne) in
        put_of-IsHeld ks j (put_one k m') below.1 lt
          (word_of-put_value_other j k m' other lt below.0 ∙ held)
  ]

  among-IsHeld :
      (ks : List ℕ) (j : ℕ) (m' : Memory)
      → All (λ k. k < length fields) ks
      → j < length fields
      → among j ks ≡ true
      → IsHeld j (put_of m fields src dest ks m')
  unfolding put_of among
  among-IsHeld [] j m' below lt h = cc
  among-IsHeld (k ∷ ks) j m' below lt h = elim (ℕ_discrete k j) [
    | yes e ↦ put_of-IsHeld ks j (put_one k m') below.1 lt (rw (← e) (put_one-IsHeld k m' below.0))
    | no ne ↦ among-IsHeld ks j (put_one k m') below.1 lt (ground (arith, h, ne))
  ]

  words_from-put_of :
      (rounds k : ℕ) (ks : List ℕ) (m' : Memory)
      → All (λ k. k < length fields) ks
      → all_among (length fields) ks ≡ true
      → k + rounds ≤ length fields
      → words_from (put_of m fields src dest ks m') fields dest k rounds
        ≡ words_from m fields src k rounds
  unfolding words_from
  words_from-put_of zero k ks m' below h high = refl
  words_from-put_of (suc rounds) k ks m' below h high =
      let here =
        among-IsHeld ks k m' below (omega arith)
          (all_among-among (length fields) ks k h (omega arith)) in
      ap₂ (λ (w : ℕ) (ws : List ℕ). w ∷ ws) here
        (words_from-put_of rounds (suc k) ks m' below h (omega arith))

-- A buffer with fields of a message in any order, each any number of times, all fields of the message
-- among them, each with the value that a memory of bytes has for it in a first struct: `pb_decode`
-- into a second struct succeeds, whatever memory held before, has used up the stream, and each field
-- of the second struct holds the word, or the truth value, that it holds in the first one, the same
-- for every order. The message has from 1 to 64 fields, all required, of scalar types and with different
-- tags, and the fields of the second struct follow one another without overlap.
pub pb_decode-all_among :
    (ext : Externals) (m : Memory) (depth address src dest : ℕ) (ks : List ℕ) (d : Decoder)
    → IsMemory m
    → All IsScalar (ext.descriptor address)
    → IsUnique (ext.descriptor address)
    → 1 ≤ length (ext.descriptor address)
    → length (ext.descriptor address) ≤ 64
    → IsApart (ext.descriptor address) dest
    → All (λ k. k < length (ext.descriptor address)) ks
    → all_among (length (ext.descriptor address)) ks ≡ true
    → let fields = ext.descriptor address in
      let bytes = bytes_of m fields src ks in
      (d' : Decoder) × (pb_decode ext
          (suc depth)
          address
          dest
          (record d { stream = pb_istream_from_buffer bytes (length bytes) })
        ≡ ok tt d')
      × (d'.stream.bytes_left ≡ 0)
      × (words d'.mem fields dest ≡ words m fields src)
unfolding pb_istream_from_buffer
pb_decode-all_among ext m depth address src dest ks d is_memory scalars unique some_field few apart
      below all =
    let fields = ext.descriptor address in
    let run =
      pb_decode-bytes_of ext m depth address src dest ks d is_memory scalars unique some_field few
        below in
    let held =
      words_from-put_of m fields src dest is_memory scalars apart (length fields) 0 ks _ below all
        (omega arith) in
    (_, run ∙ if_true _ _ all, refl, held)
