-- ===== src/Prelude/Bits.antt =====
-- The bitwise or of two numbers whose bits do not overlap is their sum.
pub mod Single
use Prim.Native.Nat.{
  ℕ, zero, suc, ◌+◌, ◌*◌, ◌/◌, ◌^◌, ◌≤◌, ◌<◌, max, bit_or, digits, bit_or-bitwise,
}
use mathlib.Core.Path.{◌≡◌, ◌∙◌}
use native.Mathlib.Omega.{arith}
use native.Mathlib.Nat.{pow-suc}

-- What the native operation stands for, with the number of binary digits left open.
abbrev pub or_digits : ℕ → ℕ → ℕ → ℕ
or_digits n a b = digits (λ c. c) max n a b

pub pow_double : (k : ℕ) → 2 ^ suc k ≡ 2 * 2 ^ k
pow_double k = omega (arith, pow-suc 2 k)

shifted_double : (g k : ℕ) → g * 2 ^ suc k ≡ 2 * (g * 2 ^ k)
shifted_double g k = rw (pow_double k) (omega arith)

or_digits-disjoint : (n a g k : ℕ) → a ≤ n → a < 2 ^ k → or_digits n a (g * 2 ^ k) ≡ a + g * 2 ^ k
or_digits-disjoint zero zero g k le lt = omega arith
or_digits-disjoint zero (suc a) g k le lt = absurd (omega arith)
or_digits-disjoint (suc n) zero g k le lt = omega arith
or_digits-disjoint (suc n) (suc a) g zero le lt = absurd (omega arith)
or_digits-disjoint (suc n) (suc a) g (suc k) le lt =
    let half : suc a / 2 < 2 ^ k = omega (arith, pow_double k) in
    let top : g * 2 ^ suc k / 2 ≡ g * 2 ^ k = omega (arith, shifted_double g k) in
    let ih = or_digits-disjoint n (suc a / 2) g k (omega arith) half in
    rw (top, ih) (omega (arith, shifted_double g k))

-- A group of bits written above those that are already there.
pub bit_or-disjoint : (a g k : ℕ) → a < 2 ^ k → bit_or a (g * 2 ^ k) ≡ a + g * 2 ^ k
bit_or-disjoint a g k lt =
    bit_or-bitwise a (g * 2 ^ k) ∙ or_digits-disjoint a a g k (omega arith) lt
