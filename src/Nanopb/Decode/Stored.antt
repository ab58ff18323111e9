-- ===== src/Nanopb/Decode/Stored.antt =====
-- What the decoders of pb_decode.c leave in memory: the words that `store` and `load` stand for.
use between_us.Prelude.{ℕ, zero, suc, ◌+◌, ◌-◌, ◌*◌, ◌/◌, ◌%◌, ◌^◌, ◌≤◌, ◌<◌, ◌≡◌, sym, ap, ◌∙◌}
use between_us.Prelude.{arith}
use between_us.Nanopb.Field.{Memory, load}
use between_us.Nanopb.Decode.State.{store}
use native.Mathlib.Numerals.{towards_suc}
use native.Mathlib.Nat.{div-div-eq-div-mul, mod-eq-sub-mul-div, mul-div-le}

store_byte : (a n v i : ℕ) (m : Memory) → i < n → store a n v m (a + i) ≡ v / 2 ^ (8 * i) % 256
unfolding store
store_byte a n v i m h =
    let place : a + i - a ≡ i = omega arith in ground (arith, ap (λ k. v / 2 ^ (8 * k)) place)

-- The low byte and the rest of a word.
split_byte : (x p : ℕ) → x % 256 + 256 * (x / 256 % p) ≡ x % (256 * p)
split_byte x p =
    let whole = mod-eq-sub-mul-div x (256 * p) in
    let part = mod-eq-sub-mul-div (x / 256) p in
    let same = div-div-eq-div-mul x 256 p in
    let below = mul-div-le (x / 256) p in grind (arith, whole, part, same, below)

power : (k : ℕ) → 2 ^ (k + 8) ≡ 2 ^ k * 256
power k = simp towards_suc (omega arith)

pub shift_eight : (i : ℕ) → 2 ^ (8 * i) * 256 ≡ 2 ^ (8 * (i + 1))
shift_eight i =
    let place : 8 * i + 8 ≡ 8 * (i + 1) = omega arith in
    sym (power (8 * i)) ∙ ap (λ (k : ℕ). 2 ^ k) place

next_place : (v i : ℕ) → v / 2 ^ (8 * i) / 256 ≡ v / 2 ^ (8 * (i + 1))
next_place v i =
    let place : 2 ^ (8 * i) * 256 ≡ 2 ^ (8 * (i + 1)) = shift_eight i in
    div-div-eq-div-mul v (2 ^ (8 * i)) 256 ∙ ap (λ (p : ℕ). v / p) place

load-store_at :
    (a n v i j : ℕ) (m : Memory)
    → i + j ≤ n
    → load (store a n v m) (a + i) j ≡ v / 2 ^ (8 * i) % 2 ^ (8 * j)
unfolding load
load-store_at a n v i zero m h = omega arith
load-store_at a n v i (suc j) m h =
    let rest = load-store_at a n v (i + 1) j m (omega arith) in
    let bytes = store_byte a n v i m (omega arith) in
    let again = next_place v i in
    let whole = split_byte (v / 2 ^ (8 * i)) (2 ^ (8 * j)) in
    let shift = shift_eight j in
    let flip : 2 ^ (8 * j) * 256 ≡ 256 * 2 ^ (8 * j) = omega arith in
    let ends : 8 * (j + 1) ≡ 8 * suc j = omega arith in
    let there : a + i + 1 ≡ a + (i + 1) = omega arith in
    let high =
      ap (λ (p : ℕ). 256 * load (store a n v m) p j) there ∙ ap (λ (t : ℕ). 256 * t) rest in
    let low = ap (λ (t : ℕ). 256 * (t % 2 ^ (8 * j))) again in
    let modulus =
      ap (λ (t : ℕ). v / 2 ^ (8 * i) % t) (sym flip ∙ shift ∙ ap (λ (k : ℕ). 2 ^ k) ends) in
    omega (arith, bytes, high, low, whole, modulus)

-- A word that was stored is loaded again, cut to its width.
pub load-store : (a n v : ℕ) (m : Memory) → load (store a n v m) a n ≡ v % 2 ^ (8 * n)
load-store a n v m =
    let here : a ≡ a + 0 = omega arith in
    let whole : v / 2 ^ 0 ≡ v = omega arith in
    ap (λ (p : ℕ). load (store a n v m) p n) here
    ∙ load-store_at a n v 0 n m (omega arith)
    ∙ ap (λ (t : ℕ). t % 2 ^ (8 * n)) whole
