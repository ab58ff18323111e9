-- ===== src/Nanopb/Wire/Wrap.antt =====
-- `bitpos` of `pb_decode_varint32_eof` is a `uint_fast8_t`. Where that type has 8 bits, it wraps
-- behind 36 bytes 0x80, and the bytes behind those are taken for bits of the value again.
use between_us.Prelude.{ℕ, zero, suc, ◌+◌, ◌*◌, ◌%◌, ◌<◌, ◌≡◌, List, ◌∷◌, ◌++◌, Option, arith}
use between_us.Prelude.{replicate}
use between_us.Prelude.Bits.{bit_or-disjoint}
use between_us.Prelude.Outcome.{ok}
use between_us.Nanopb.Error.{Error}
use between_us.Nanopb.Input.Varint.{varint32_loop, bad_extension}
use between_us.Nanopb.Input.Varint.{pb_decode_varint32_eof, pb_decode_varint32}
use between_us.Nanopb.Wire.RoundTrip.{reading, pb_readbyte-reading}

-- An empty group only moves the place.
empty_round :
    (rounds s : ℕ) (bs : List ℕ) (left : ℕ) (e : Option Error)
    → varint32_loop (suc rounds) s 0 (reading (0x80 ∷ bs) (suc left) e)
      ≡ varint32_loop rounds ((s + 7) % 256) 0 (reading bs left e)
unfolding varint32_loop bad_extension
empty_round rounds s bs left e =
    ground (arith, pb_readbyte-reading 0x80 bs left e, bit_or-disjoint 0 0 s)

empty_rounds :
    (n rounds s : ℕ) (bs : List ℕ) (left : ℕ) (e : Option Error)
    → s < 256
    → varint32_loop (n + rounds) s 0 (reading (replicate n 0x80 ++ bs) (n + left) e)
      ≡ varint32_loop rounds ((s + 7 * n) % 256) 0 (reading bs left e)
empty_rounds zero rounds s bs left e h = ground arith
empty_rounds (suc n) rounds s bs left e h =
    let step = empty_round (n + rounds) s (replicate n 0x80 ++ bs) (n + left) e in
    let place : ((s + 7) % 256 + 7 * n) % 256 ≡ (s + 7 * suc n) % 256 = omega arith in
    let others = empty_rounds n rounds ((s + 7) % 256) bs left e (omega arith) in
    ground (arith, step, others, place)

-- The last byte of a varint at place 3.
group_at_three :
    (rounds g : ℕ) (bs : List ℕ) (left : ℕ) (e : Option Error)
    → g < 128
    → varint32_loop (suc rounds) 3 0 (reading (g ∷ bs) (suc left) e)
      ≡ ok (g * 8) (reading bs left e)
unfolding varint32_loop
group_at_three rounds g bs left e h =
    ground (arith, pb_readbyte-reading g bs left e, bit_or-disjoint 0 g 3)

-- A varint of 37 bytes 0x80 and a last byte `g` stands for `g * 2 ^ 259`. `pb_decode_varint32`
-- accepts it, and its value is `g * 8`, for every `g` below 128 and whatever follows.
pub pb_decode_varint32_wraps :
    (g : ℕ) (rest : List ℕ) (left : ℕ) (e : Option Error)
    → g < 128
    → pb_decode_varint32 (reading (replicate 37 0x80 ++ (g ∷ rest)) (38 + left) e)
      ≡ ok (g * 8) (reading rest left e)
unfolding pb_decode_varint32 pb_decode_varint32_eof
pb_decode_varint32_wraps g rest left e h =
    let tail : List ℕ = replicate 36 0x80 ++ (g ∷ rest) in
    let read = pb_readbyte-reading 0x80 tail (37 + left) e in
    let middle = empty_rounds 36 (suc (suc left)) 7 (g ∷ rest) (suc left) e (omega arith) in
    ground (arith, read, middle, group_at_three (suc left) g rest left e)
