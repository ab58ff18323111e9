-- ===== src/Nanopb/Message/Layout.antt =====
-- Fields that stand apart in the struct of a message: decoding one leaves the others as they are.
use between_us.Prelude.{
  ℕ, zero, suc, ◌+◌, ◌≤◌, ◌<◌, ◌≡◌, refl, ◌∙◌, List, [], ◌∷◌, All, length, ◌⊎◌, inl, inr, arith,
}
use mathlib.Core.Path.{ap₂}
use native.Mathlib.Decide.{ℕ_discrete}
use between_us.Nanopb.Field.{Field, Memory, load}
use between_us.Nanopb.Iter.{field_at}
use between_us.Nanopb.Iter.Walk.{nth}
use between_us.Nanopb.Encode.Grow.{IsMemory}
use between_us.Nanopb.Decode.State.{store}
use between_us.Nanopb.Message.Scalar.{
  IsScalar, value_of, put_value, word_of, word_of-put_value, IsKind, flag, signed, unsigned,
  zigzagged, four_bytes, eight_bytes,
}
use between_us.Nanopb.Message.Encode.{All-field_at}
use between_us.Nanopb.Message.Loop.{put_from}

-- The fields follow one another without a common byte.
abbrev pub IsApart : List Field → ℕ → Type 0
IsApart fields dest =
    (j k : ℕ)
    → j < k
    → k < length fields
    → (nth fields dest j).p_data + (field_at fields j).data_size ≤ (nth fields dest k).p_data

-- The words that the fields from `k` on hold, `rounds` of them.
unfoldable pub words_from : Memory → List Field → ℕ → ℕ → ℕ → List ℕ
words_from m fields base k zero = []
words_from m fields base k (suc rounds) =
    word_of m (field_at fields k) (nth fields base k).p_data
    ∷ words_from m fields base (suc k) rounds

abbrev pub words : Memory → List Field → ℕ → List ℕ
words m fields base = words_from m fields base 0 (length fields)

-- A word in front of the bytes that are stored, or behind them.
abbrev pub IsAway : ℕ → ℕ → ℕ → ℕ → Type 0
IsAway b n a k = (a + k ≤ b) ⊎ (b + n ≤ a)

store-IsAway : (b n v q : ℕ) (m : Memory) → IsAway b n q 1 → store b n v m q ≡ m q
unfolding store
store-IsAway b n v q m (inl h) = ground (arith, h)
store-IsAway b n v q m (inr h) = ground (arith, h)

load_store-IsAway :
    (b n v a k : ℕ) (m : Memory) → IsAway b n a k → load (store b n v m) a k ≡ load m a k
unfolding load
load_store-IsAway b n v a zero m h = refl
load_store-IsAway b n v a (suc k) m (inl h) = omega (
  arith,
  store-IsAway b n v a m (inl (omega arith)),
  load_store-IsAway b n v (a + 1) k m (inl (omega arith)),
)
load_store-IsAway b n v a (suc k) m (inr h) =
    omega (
      arith,
      store-IsAway b n v a m (inr h),
      load_store-IsAway b n v (a + 1) k m (inr (omega arith)),
    )

byte-IsAway : (b n a size : ℕ) → size ≡ 1 → IsAway b n a size → IsAway b n a 1
byte-IsAway b n a size one (inl h) = inl (omega (arith, one))
byte-IsAway b n a size one (inr h) = inr h

-- A field there.
pub word_of_store-IsAway :
    (b n v a : ℕ) (m : Memory) (f : Field)
    → IsKind f
    → IsAway b n a f.data_size
    → word_of (store b n v m) f a ≡ word_of m f a
word_of_store-IsAway b n v a m f (flag k size) h =
    let byte = store-IsAway b n v a m (byte-IsAway b n a _ size h) in rw (k, byte) refl
word_of_store-IsAway b n v a m f (signed k word) h =
    rw k (load_store-IsAway b n v a f.data_size m h)
word_of_store-IsAway b n v a m f (unsigned k word) h =
    rw k (load_store-IsAway b n v a f.data_size m h)
word_of_store-IsAway b n v a m f (zigzagged k word) h =
    rw k (load_store-IsAway b n v a f.data_size m h)
word_of_store-IsAway b n v a m f (four_bytes k size) h =
    rw k (load_store-IsAway b n v a f.data_size m h)
word_of_store-IsAway b n v a m f (eight_bytes k size) h =
    rw k (load_store-IsAway b n v a f.data_size m h)

module _ (m : Memory) (fields : List Field) (src dest : ℕ) (is_memory : IsMemory m)
    (scalars : All IsScalar fields) (apart : IsApart fields dest) where
  -- A field in front of all those that are decoded.
  word_of-put_from_below :
      (rounds k j : ℕ) (m' : Memory)
      → j < k
      → k + rounds ≤ length fields
      → let a = (nth fields dest j).p_data in
        let f = field_at fields j in
        word_of (put_from m fields src dest k rounds m') f a ≡ word_of m' f a
  unfolding put_from
  word_of-put_from_below zero k j m' h below = refl
  word_of-put_from_below (suc rounds) k j m' h below =
      let b = (nth fields dest k).p_data in
      let f = field_at fields k in
      let v = value_of m f (nth fields src k).p_data in
      let g = All-field_at IsScalar fields j scalars (omega arith) in
      word_of-put_from_below rounds (suc k) j (store b f.data_size v m') (omega arith) (omega arith)
      ∙ word_of_store-IsAway b f.data_size v _ m' _ g.kind (inl (apart j k h (omega arith)))

  word_of-put_from :
      (rounds k j : ℕ) (m' : Memory)
      → k ≤ j
      → j < k + rounds
      → k + rounds ≤ length fields
      → let f = field_at fields j in
        word_of (put_from m fields src dest k rounds m') f (nth fields dest j).p_data
        ≡ word_of m f (nth fields src j).p_data
  unfolding put_from
  word_of-put_from zero k j m' low high below = absurd (omega arith)
  word_of-put_from (suc rounds) k j m' low high below =
      let f = field_at fields k in
      let a = (nth fields src k).p_data in
      let b = (nth fields dest k).p_data in
      let m1 = put_value m f a b m' in
      let h = All-field_at IsScalar fields k scalars (omega arith) in
      elim (ℕ_discrete k j) [
        | yes e ↦
            let here =
              word_of-put_from_below rounds (suc k) k m1 (omega arith) (omega arith)
              ∙ word_of-put_value m m' f a b h.kind is_memory in
            rw (← e) here
        | no ne ↦ word_of-put_from rounds (suc k) j m1 (omega arith) (omega arith) (omega arith)
      ]

  words_from-put_from :
      (rounds k : ℕ) (m' : Memory)
      → k + rounds ≤ length fields
      → words_from (put_from m fields src dest 0 (length fields) m') fields dest k rounds
        ≡ words_from m fields src k rounds
  unfolding words_from
  words_from-put_from zero k m' below = refl
  words_from-put_from (suc rounds) k m' below =
      ap₂ (λ (w : ℕ) (ws : List ℕ). w ∷ ws)
        (word_of-put_from (length fields) 0 k m' (omega arith) (omega arith) (omega arith))
        (words_from-put_from rounds (suc k) m' (omega arith))

  -- All fields, decoded one after the other, are in the second struct what they are in the first one.
  pub words-put_from :
      (m' : Memory)
      → words (put_from m fields src dest 0 (length fields) m') fields dest ≡ words m fields src
  words-put_from m' = words_from-put_from (length fields) 0 m' (omega arith)
