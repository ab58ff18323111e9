-- ===== src/Nanopb/Decode/Required.antt =====
-- The two words in which `pb_decode_noinit` of pb_decode.c marks the required fields stand for the set of
-- their indices.
use between_us.Prelude.{
  ℕ, ◌+◌, ◌-◌, ◌/◌, ◌%◌, ◌^◌, ◌≤◌, ◌<◌, ◌≡◌, ◌↔◌, ◌⊎◌, sym, ap, ◌∙◌, bit_or, min, true, not, ◌&&◌,
  List, [], ◌∷◌, All, Any, inl, inr, ltb, ◌==◌, if◌then◌else◌, arith, if_intro,
}
use between_us.Prelude.Bits.Single.{
  bit, bit-zero, power_positive, power_lt, low_bits, bit-bit_or, bit_or_lt, all_bits, from_all_bits,
}
use native.Mathlib.Decide.{dec_lt}
use between_us.Nanopb.Field.{htype}
use between_us.Nanopb.Field.Htype
use between_us.Nanopb.Iter.{Iter, current}
use between_us.Nanopb.Decode.Seen.{Locals, mark_seen, all_seen}

-- The bit of the required field `i`.
unfoldable pub seen : ℕ → Locals → ℕ
unfolding bit
seen i l = if i / 32 == 0 then bit l.seen_low (i % 32) else bit l.seen_high (i % 32)

-- Bits are set below `count` only.
pub record IsBelow (count : ℕ) (l : Locals) : Type 0 where
  pub low : l.seen_low < 2 ^ min count 32
  pub high : l.seen_high < 2 ^ (count - 32)

-- The iterator stands at a required field below `count`.
pub record IsMarkable (count : ℕ) (it : Iter) : Type 0 where
  pub required : (htype (current it) == Htype.required) ≡ true
  pub below : it.required_field_index < count

unfoldable pub mark : Iter → Locals → Locals
mark it l = mark_seen (record l { iter = it })

seen-mark :
    (count i : ℕ) (it : Iter) (l : Locals)
    → count ≤ 64
    → i < 64
    → IsMarkable count it
    → seen i (mark it l) ≡ (if i == it.required_field_index then 1 else seen i l)
unfolding mark mark_seen seen
seen-mark count i it l c h m =
    let k = it.required_field_index in
    ground (
      arith,
      bit-bit_or l.seen_low (k % 32) (i % 32),
      bit-bit_or l.seen_high (k % 32) (i % 32),
      m.required,
      m.below,
    )

mark-IsBelow :
    (count : ℕ) (it : Iter) (l : Locals)
    → IsMarkable count it
    → count ≤ 64
    → IsBelow count l
    → IsBelow count (mark it l)
unfolding mark mark_seen
mark-IsBelow count it l m c b =
    let k = it.required_field_index in
    let low : k < 32 → bit_or l.seen_low (2 ^ (k % 32)) < 2 ^ min count 32 =
      λ h. bit_or_lt l.seen_low _ _ b.low (power_lt _ _ (omega (arith, m.below))) in
    let high : 32 ≤ k → bit_or l.seen_high (2 ^ (k % 32)) < 2 ^ (count - 32) =
      λ h. bit_or_lt l.seen_high _ _ b.high (power_lt _ _ (omega (arith, m.below))) in
    if_intro (IsBelow count) (not (htype (current it) == Htype.required && ltb k 64))
      (λ other. record { low = b.low; high = b.high })
      λ marked.
        if_intro (IsBelow count) (k / 32 == 0)
          (λ first. record { low = low (ground (arith, first)); high = b.high })
          λ second. record { low = b.low; high = high (ground (arith, second)) }

same_power : (a b : ℕ) → a ≡ b → 2 ^ a ≡ 2 ^ b
same_power a b e = ap (λ (n : ℕ). 2 ^ n) e

-- The test behind the loop compares each word with the one whose bits below the count are set.
words_iff :
    (count : ℕ) (l : Locals)
    → count ≤ 64
    → IsBelow count l
    → (all_seen count l ≡ true)
      ↔ ((l.seen_low ≡ 2 ^ min count 32 - 1) × (l.seen_high ≡ 2 ^ (count - 32) - 1))
unfolding all_seen
words_iff count l c b =
    let rest = low_bits (count % 32) (omega arith) in
    elim (dec_lt count 32) [
      | yes one_word ↦
          let low = same_power (min count 32) (count % 32) (omega arith) in
          let high = same_power (count - 32) 0 (omega arith) in
          ground (arith, rest, low, high, one_word, b.low, b.high)
      | no two_words ↦ elim (dec_lt count 64) [
        | yes not_all ↦
            let low = same_power (min count 32) 32 (omega arith) in
            let high = same_power (count - 32) (count % 32) (omega arith) in
            ground (arith, rest, low, high, two_words, not_all, b.low, b.high)
        | no all ↦
            let low = same_power (min count 32) 32 (omega arith) in
            let high = same_power (count - 32) 32 (omega arith) in
            ground (arith, low, high, all, b.low, b.high)
      ]
    ]

seen_low : (i : ℕ) (l : Locals) → i < 32 → seen i l ≡ bit l.seen_low i
unfolding seen
seen_low i l h = let same : i % 32 ≡ i = omega arith in rw same (ground arith)

seen_high : (i : ℕ) (l : Locals) → i < 32 → seen (32 + i) l ≡ bit l.seen_high i
unfolding seen
seen_high i l h = let same : (32 + i) % 32 ≡ i = omega arith in rw same (ground arith)

all_seen_iff :
    (count : ℕ) (l : Locals)
    → count ≤ 64
    → IsBelow count l
    → (all_seen count l ≡ true) ↔ ((i : ℕ) → i < count → seen i l ≡ 1)
unfolding seen
all_seen_iff count l c b =
    let (words, back) = words_iff count l c b in
    (
      (λ h i lt.
          if_intro (λ (x : ℕ). x ≡ 1) (i / 32 == 0)
            (λ e. all_bits (min count 32) l.seen_low (i % 32) (words h).0 (ground (arith, e)))
            λ e. all_bits (count - 32) l.seen_high (i % 32) (words h).1 (ground (arith, e))),
      λ h.
          let low =
            from_all_bits (min count 32) l.seen_low b.low
              (λ i lt. sym (seen_low i l (omega arith)) ∙ h i (omega arith)) in
          let high =
            from_all_bits (count - 32) l.seen_high b.high
              (λ i lt. sym (seen_high i l (omega arith)) ∙ h (32 + i) (omega arith)) in
          back (low, high),
    )

-- The fields at which the iterator has stood, in order.
unfoldable pub mark_all : List Iter → Locals → Locals
unfolding mark
mark_all [] l = l
mark_all (it ∷ its) l = mark_all its (mark it l)

mark_all-IsBelow :
    (count : ℕ) (its : List Iter) (l : Locals)
    → All (IsMarkable count) its
    → count ≤ 64
    → IsBelow count l
    → IsBelow count (mark_all its l)
unfolding mark_all
mark_all-IsBelow count [] l h c b = b
mark_all-IsBelow count (it ∷ its) l h c b =
    mark_all-IsBelow count its (mark it l) h.1 c (mark-IsBelow count it l h.0 c b)

set_or_kept :
    (k i now before : ℕ)
    → now ≡ (if i == k then 1 else before)
    → (now ≡ 1) ↔ ((k ≡ i) ⊎ (before ≡ 1))
set_or_kept k i now before e = ground (arith, e)

seen_nothing : (i : ℕ) (l : Locals) → l.seen_low ≡ 0 → l.seen_high ≡ 0 → seen i l ≡ 0
unfolding seen
seen_nothing i l low high = rw (low, high, bit-zero (i % 32)) (ground arith)

seen-mark_all :
    (count i : ℕ) (its : List Iter) (l : Locals)
    → count ≤ 64
    → i < 64
    → All (IsMarkable count) its
    → (seen i (mark_all its l) ≡ 1) ↔ (Any (λ it. it.required_field_index ≡ i) its ⊎ (seen i l ≡ 1))
unfolding mark_all
seen-mark_all count i [] l c h m = (λ e. inr e, λ s. elim s [ inl none ↦ absurd none | inr e ↦ e ])
seen-mark_all count i (it ∷ its) l c h m =
    let (there, back) = seen-mark_all count i its (mark it l) c h m.1 in
    let once = seen-mark count i it l c h m.0 in
    let (first, last) = set_or_kept it.required_field_index i _ (seen i l) once in
    (
      (λ e. elim (there e) [
        | inl later ↦ inl (inr later)
        | inr now ↦ elim (first now) [ inl k ↦ inl (inl k) | inr before ↦ inr before ]
      ]),
      λ o. elim o [
        | inl (inl k) ↦ back (inr (last (inl k)))
        | inl (inr later) ↦ back (inl later)
        | inr before ↦ back (inr (last (inr before)))
      ],
    )

-- `pb_decode_noinit` starts with no field seen. After any sequence of required fields with indices below their
-- number, which is at most 64, the test behind the loop succeeds exactly when every required field has
-- been among them, in whatever order and however often.
pub all_seen-mark_all :
    (count : ℕ) (its : List Iter) (l : Locals)
    → count ≤ 64
    → All (IsMarkable count) its
    → l.seen_low ≡ 0
    → l.seen_high ≡ 0
    → (all_seen count (mark_all its l) ≡ true)
      ↔ ((i : ℕ) → i < count → Any (λ it. it.required_field_index ≡ i) its)
all_seen-mark_all count its l c m low high =
    let empty : IsBelow count l = record {
      low = omega (arith, low, power_positive (min count 32));
      high = omega (arith, high, power_positive (count - 32));
    } in
    let (all, back) =
      all_seen_iff count (mark_all its l) c (mark_all-IsBelow count its l m c empty) in
    (
      (λ h i lt. elim ((seen-mark_all count i its l c (omega arith) m).0 (all h i lt)) [
        | inl found ↦ found
        | inr before ↦ absurd (omega (arith, before, seen_nothing i l low high))
      ]),
      λ h. back (λ i lt. (seen-mark_all count i its l c (omega arith) m).1 (inl (h i lt))),
    )
