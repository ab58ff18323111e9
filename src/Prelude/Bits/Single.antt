-- ===== src/Prelude/Bits/Single.antt =====
-- The single bits of a number.
use Prim.Native.Nat.{
  ℕ, zero, suc, ◌+◌, ◌-◌, ◌*◌, ◌/◌, ◌%◌, ◌^◌, ◌≤◌, ◌<◌, max, bit_or, bit_or-bitwise,
}
use mathlib.Core.Path.{◌≡◌, refl, ◌∙◌}
use mathlib.Core.Bool.{Bool, true, ◌&&◌}
use native.Mathlib.Omega.{arith}
use native.Mathlib.Decide.{dec_lt}
use native.Mathlib.Nat.{pow-le-pow_right}
use between_us.Prelude.Tests.{◌==◌, ==_iff, and_true, if◌then◌else◌}
use between_us.Prelude.Bits.{or_digits, pow_double}

-- `a >> i & 1`
unfoldable pub bit : ℕ → ℕ → ℕ
bit a zero = a % 2
bit a (suc i) = bit (a / 2) i

pub bit-zero : (i : ℕ) → bit 0 i ≡ 0
unfolding bit
bit-zero zero = refl
bit-zero (suc i) = bit-zero i

bit-or_digits : (n a b i : ℕ) → a ≤ n → bit (or_digits n a b) i ≡ max (bit a i) (bit b i)
unfolding bit
bit-or_digits zero zero b i h = rw (bit-zero i) (omega arith)
bit-or_digits zero (suc a) b i h = absurd (omega arith)
bit-or_digits (suc n) zero b i h = rw (bit-zero i) (omega arith)
bit-or_digits (suc n) (suc a) b zero h = omega arith
bit-or_digits (suc n) (suc a) b (suc i) h =
    let rest = or_digits n (suc a / 2) (b / 2) in
    let half : (rest * 2 + max (suc a % 2) (b % 2)) / 2 ≡ rest = omega arith in
    rw half (bit-or_digits n (suc a / 2) (b / 2) i (omega arith))

or_digits-lt : (n a b r : ℕ) → a ≤ n → a < 2 ^ r → b < 2 ^ r → or_digits n a b < 2 ^ r
or_digits-lt zero zero b r le lt lt' = lt'
or_digits-lt zero (suc a) b r le lt lt' = absurd (omega arith)
or_digits-lt (suc n) zero b r le lt lt' = lt'
or_digits-lt (suc n) (suc a) b zero le lt lt' = absurd (omega arith)
or_digits-lt (suc n) (suc a) b (suc r) le lt lt' =
    let top = pow_double r in
    let rest = or_digits-lt n (suc a / 2) (b / 2) r (omega arith) (omega arith) (omega arith) in
    omega arith

bit-power : (k i : ℕ) → bit (2 ^ k) i ≡ (if i == k then 1 else 0)
unfolding bit
bit-power zero zero = refl
bit-power zero (suc i) = bit-zero i ∙ ground arith
bit-power (suc k) zero = let top = pow_double k in ground arith
bit-power (suc k) (suc i) =
    let top = pow_double k in
    let half : 2 ^ suc k / 2 ≡ 2 ^ k = omega arith in rw half (bit-power k i ∙ ground arith)

bit_lt : (a i : ℕ) → bit a i < 2
unfolding bit
bit_lt a zero = omega arith
bit_lt a (suc i) = bit_lt (a / 2) i

-- A bit that is set.
pub bit-bit_or : (a k i : ℕ) → bit (bit_or a (2 ^ k)) i ≡ (if i == k then 1 else bit a i)
bit-bit_or a k i =
    let both : bit (bit_or a (2 ^ k)) i ≡ max (bit a i) (bit (2 ^ k) i) =
      rw (bit_or-bitwise a (2 ^ k)) (bit-or_digits a a (2 ^ k) i (omega arith)) in
    both ∙ rw (bit-power k i) (ground (arith, bit_lt a i))

pub bit_or_lt : (a b r : ℕ) → a < 2 ^ r → b < 2 ^ r → bit_or a b < 2 ^ r
bit_or_lt a b r lt lt' = rw (bit_or-bitwise a b) (or_digits-lt a a b r (omega arith) lt lt')

pub power_positive : (r : ℕ) → 1 ≤ 2 ^ r
power_positive zero = omega arith
power_positive (suc r) = omega (arith, power_positive r, pow_double r)

-- The number whose lowest `r` bits are set, and no other.
pub all_bits : (r w i : ℕ) → w ≡ 2 ^ r - 1 → i < r → bit w i ≡ 1
unfolding bit
all_bits zero w i e h = absurd (omega arith)
all_bits (suc r) w zero e h = omega (arith, power_positive r, pow_double r)
all_bits (suc r) w (suc i) e h =
    all_bits r (w / 2) i (omega (arith, power_positive r, pow_double r)) (omega arith)

pub from_all_bits : (r w : ℕ) → w < 2 ^ r → ((i : ℕ) → i < r → bit w i ≡ 1) → w ≡ 2 ^ r - 1
unfolding bit
from_all_bits zero w lt h = omega arith
from_all_bits (suc r) w lt h =
    let top = pow_double r in
    let lowest = h 0 (omega arith) in
    let rest = from_all_bits r (w / 2) (omega arith) λ i lt'. h (suc i) (omega arith) in omega arith

pub power_lt : (k r : ℕ) → k < r → 2 ^ k < 2 ^ r
power_lt k r h =
    let twice : 2 ^ suc k ≤ 2 ^ r = pow-le-pow_right (omega arith) h in
    omega (arith, power_positive k, pow_double k)

abbrev is_low : ℕ → Bool
is_low r = (2 ^ 32 - 1) / 2 ^ (32 - r) == 2 ^ r - 1

all_low : ℕ → Bool
all_low zero = is_low zero
all_low (suc n) = is_low (suc n) && all_low n

all_low-is_low : (n r : ℕ) → all_low n ≡ true → r ≤ n → is_low r ≡ true
unfolding all_low
all_low-is_low zero zero h le = h
all_low-is_low zero (suc r) h le = absurd (omega arith)
all_low-is_low (suc n) r h le =
    let both = and_true (is_low (suc n)) (all_low n) h in
    elim (dec_lt n r) [
      | yes top ↦ let same : r ≡ suc n = omega arith in rw same both.0
      | no below ↦ all_low-is_low n r both.1 (omega arith)
    ]

-- `0xffffffff >> (32 - r)`
pub low_bits : (r : ℕ) → r ≤ 32 → (2 ^ 32 - 1) / 2 ^ (32 - r) ≡ 2 ^ r - 1
unfolding all_low
low_bits r h = (==_iff _ _).0 (all_low-is_low 32 r refl h)
