-- ===== src/Nanopb/Decode/Allocate.antt =====
-- `allocate_field` of pb_decode.c: its test for overflow, which divides only where it must.
use between_us.Prelude.{
  ℕ, zero, suc, ◌-◌, ◌*◌, ◌/◌, ◌%◌, ◌^◌, ◌≤◌, ◌<◌, ◌≡◌, false, ◌&&◌, ◌||◌, leb, ltb, ◌==◌,
  if◌then◌else◌, arith, inl, inr, Bool-cases,
}
use between_us.Prelude.Outcome.{Outcome, ok}
use between_us.Nanopb.Error.{invalid_size, size_too_large, realloc_failed}
use between_us.Nanopb.Field.{Memory, load_pointer}
use between_us.Nanopb.Decode.State.{Externals, Decoder, throw, store_pointer, allocate_field}
use native.Mathlib.Nat.{div-lt_iff_lt-mul, mul-le-mul}

-- The division decides whether a product passes 64 bits.
exact_test : (a b : ℕ) → 0 < a → ltb ((2 ^ 64 - 1) / a) b ≡ leb (2 ^ 64) (a * b)
exact_test a b pos = ground (arith, div-lt_iff_lt-mul {k = a} {x = 2 ^ 64 - 1} {y = b} pos)

-- Sizes of at most 32 bits have a product of at most 64.
small_product : (a b : ℕ) → a < 2 ^ 32 → b < 2 ^ 32 → leb (2 ^ 64) (a * b) ≡ false
small_product a b ha hb =
    let bound : a * b ≤ (2 ^ 32 - 1) * (2 ^ 32 - 1) =
      mul-le-mul {n₂ = 2 ^ 32 - 1} {m₂ = 2 ^ 32 - 1} (omega arith) (omega arith) in
    ground (arith, bound)

quick_test :
    (a b : ℕ)
    → 0 < a
    → ((leb (2 ^ 32) b || leb (2 ^ 32) a) && ltb ((2 ^ 64 - 1) / a) b) ≡ leb (2 ^ 64) (a * b)
quick_test a b pos = ground (arith, exact_test a b pos, small_product a b)

-- What is made of the answer of `realloc`.
abbrev pub reserved : ℕ → Decoder → ℕ × Memory → Outcome Decoder (Unit {0})
reserved p_data d (p, mem') =
    if p == 0
    then throw realloc_failed (record d { mem = mem' })
    else ok tt (record d { mem = store_pointer p_data p mem' })

-- `allocate_field` refuses a size of 0, and a product of the sizes that passes 64 bits; any other it
-- asks of `realloc` in full, and it stores the pointer unless that is the null pointer.
pub allocate_field_exact :
    (ext : Externals) (p_data data_size array_size : ℕ) (d : Decoder)
    → let total : ℕ = array_size * data_size in
      allocate_field ext p_data data_size array_size d ≡ (
        if data_size == 0 || array_size == 0
        then throw invalid_size d
        else if leb (2 ^ 64) total
        then throw size_too_large d
        else reserved p_data d (ext.realloc (load_pointer d.mem p_data) total d.mem))
unfolding allocate_field
allocate_field_exact ext p_data data_size zero d = ground arith
allocate_field_exact ext p_data data_size (suc array_size) d =
    let total : ℕ = suc array_size * data_size in
    let quick = quick_test (suc array_size) data_size (omega arith) in
    elim (Bool-cases (leb (2 ^ 64) total)) [
      | inl large ↦ rw quick (rw large (ground arith))
      | inr small ↦
          let exact : total % 2 ^ 64 ≡ total = ground (arith, small) in
          rw quick (rw small (rw exact (ground arith)))
    ]
