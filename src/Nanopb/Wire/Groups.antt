-- ===== src/Nanopb/Wire/Groups.antt =====
-- The groups of seven bits of a varint: as they are written, and one step of reading them.
use between_us.Prelude.{ℕ, zero, suc, ◌+◌, ◌*◌, ◌/◌, ◌%◌, ◌^◌, ◌≤◌, ◌<◌, ◌≡◌, refl, ap}
use between_us.Prelude.{◌∙◌, List, [], ◌∷◌, ltb, if◌then◌else◌, length, All, arith}
use between_us.Prelude.{◌≢◌, inl, inr, Bool-cases}
use between_us.Prelude.Bits.{bit_or-disjoint}
use between_us.Nanopb.Input.Varint.{or_group}
use between_us.Nanopb.Output.Scalars.{varint_groups, clear_last, varint_bytes}
use native.Mathlib.Nat.{pow-le-pow_right}
use native.Mathlib.Decide.{dec_lt}
use native.Mathlib.Numerals.{towards_suc}

-- The groups of `v`, for `v` below 128 ^ (k + 1): the lowest first, all but the last marked.
unfoldable pub code : ℕ → ℕ → List ℕ
code zero v = v ∷ []
code (suc k) v = let rest = code k (v / 128) in if ltb v 128 then v ∷ [] else (v % 128 + 128) ∷ rest

groups-zero : (k : ℕ) → varint_groups k 0 ≡ []
unfolding varint_groups
groups-zero zero = refl
groups-zero (suc k) = refl

-- Rounds behind the last group change nothing.
groups_enough : (k n v : ℕ) → v < 128 ^ k → k ≤ n → varint_groups n v ≡ varint_groups k v
unfolding varint_groups
groups_enough zero n v lt h = ap (varint_groups n) (omega arith) ∙ groups-zero n
groups_enough (suc k) zero v lt h = absurd (omega arith)
groups_enough (suc k) (suc n) v lt h =
    ground (arith, groups_enough k n (v / 128) (omega arith) (omega arith))

-- A marked group stands before what `clear_last` leaves of a value that is not 0.
clear_last-groups :
    (k x v : ℕ)
    → v ≢ 0
    → clear_last (x ∷ varint_groups (suc k) v) ≡ x ∷ clear_last (varint_groups (suc k) v)
unfolding varint_groups clear_last
clear_last-groups k x v h = ground arith

clear_last-code :
    (k v : ℕ) → v ≢ 0 → v < 128 ^ suc k → clear_last (varint_groups (suc k) v) ≡ code k v
unfolding varint_groups clear_last code
clear_last-code zero v h lt = ground arith
clear_last-code (suc k) v h lt = elim (Bool-cases (ltb v 128)) [
  | inl small ↦
      let top : v / 128 ≡ 0 = ground arith in
      ground (arith, groups-zero (suc k), top, ap (varint_groups (suc k)) top)
  | inr large ↦
      ground (arith, clear_last-groups k (v % 128 + 128) (v / 128), clear_last-code k (v / 128))
]

-- `pb_encode_varint` hands the groups of a `uint64_t` to `pb_write`.
pub varint_bytes-code : (v : ℕ) → v < 2 ^ 64 → varint_bytes v ≡ code 9 v
unfolding varint_bytes code
varint_bytes-code v h = ground (arith, clear_last-code 9 v, groups_enough 10 64 v)

code-IsByte : (k v : ℕ) → v < 128 ^ suc k → All (λ b. b < 256) (code k v)
unfolding code
code-IsByte zero v h = omega arith
code-IsByte (suc k) v h = ground (arith, code-IsByte k (v / 128) (omega arith))

pub length-code : (k v : ℕ) → (1 ≤ length (code k v)) × (length (code k v) ≤ k + 1)
unfolding code
length-code zero v = omega arith
length-code (suc k) v = ground (arith, length-code k (v / 128))

-- What `pb_encode_varint` writes for a `uint64_t` consists of bytes, at least 1 and at most 10, the size of
-- its buffer, though its loop has no bound but the value.
pub varint_bytes_shape :
    (v : ℕ)
    → v < 2 ^ 64
    → All (λ b. b < 256) (varint_bytes v)
      × (1 ≤ length (varint_bytes v))
      × (length (varint_bytes v) ≤ 10)
varint_bytes_shape v h =
    let (low, high) = length-code 9 v in
    rw (varint_bytes-code v h) (code-IsByte 9 v (omega arith), low, high)

shift_seven : (s : ℕ) → 2 ^ (s + 7) ≡ 128 * 2 ^ s
shift_seven s = simp towards_suc (omega arith)

-- The lowest group of `w` and the others, at their places above bit `s`.
pub split_groups : (w s : ℕ) → w * 2 ^ s ≡ w % 128 * 2 ^ s + w / 128 * 2 ^ (s + 7)
split_groups w s =
    let value : w ≡ w / 128 * 128 + w % 128 = omega arith in
    omega (arith, ap (λ (t : ℕ). t * 2 ^ s) value, ap (λ (t : ℕ). w / 128 * t) (shift_seven s))

-- One step of a decoder: the lowest group of `w` is added above the `s` bits that are there.
pub or_group-add :
    (width result w b s : ℕ)
    → b % 128 ≡ w % 128
    → result < 2 ^ s
    → result + w * 2 ^ s < 2 ^ width
    → or_group width result b s ≡ result + w % 128 * 2 ^ s
or_group-add width result w b s e lt fits =
    let same : b % 128 * 2 ^ s % 2 ^ width ≡ w % 128 * 2 ^ s =
      ap (λ (t : ℕ). t * 2 ^ s % 2 ^ width) e ∙ grind (arith, split_groups w s) in
    rw same (bit_or-disjoint result (w % 128) s lt)

-- The bits that are there after the step lie below the next place.
pub step_bound : (result w s : ℕ) → result < 2 ^ s → result + w % 128 * 2 ^ s < 2 ^ (s + 7)
step_bound result w s lt =
    let room : (w % 128) * 2 ^ s ≤ 127 * 2 ^ s = grind arith in omega (arith, shift_seven s)

-- While groups are left, the next place lies below the width of the result.
pub place_bound : (width result w s : ℕ) → 128 ≤ w → result + w * 2 ^ s < 2 ^ width → s + 7 < width
place_bound width result w s large fits = elim (dec_lt (s + 7) width) [
  | yes h ↦ h
  | no h ↦
      let power : 2 ^ width ≤ 2 ^ (s + 7) = pow-le-pow_right (omega arith) (omega arith) in
      let groups : 128 * 2 ^ s ≤ w * 2 ^ s = grind arith in absurd (omega (arith, shift_seven s))
]
