-- ===== src/Nanopb/Wire/RoundTrip.antt =====
-- Varints: what `pb_encode_varint` and `pb_encode_svarint` write is what `pb_decode_varint`,
-- `pb_decode_varint32` and `pb_decode_svarint` read.
use between_us.Prelude.{ℕ, zero, suc, ◌+◌, ◌*◌, ◌/◌, ◌%◌, ◌^◌, ◌<◌, ◌≡◌, refl}
use between_us.Prelude.{Option, List, ◌∷◌, ◌++◌, ltb, length, arith, inl, inr, Bool-cases}
use between_us.Prelude.Outcome.{ok}
use between_us.Nanopb.Error.{Error}
use between_us.Nanopb.Input.{Istream, memory, pb_readbyte, call}
use between_us.Nanopb.Input.Varint.{
  or_group, varint_loop, pb_decode_varint, unzigzag, pb_decode_svarint,
}
use between_us.Nanopb.Output.Scalars.{varint_bytes, zigzag}
use between_us.Nanopb.Wire.Groups.{code, varint_bytes-code, or_group-add, step_bound}
use between_us.Nanopb.Wire.Groups.{place_bound, split_groups}

-- A stream over a buffer, with some of its bytes still to be read.
abbrev pub reading : List ℕ → ℕ → Option Error → Istream
reading bytes left e = record { source = memory bytes; bytes_left = left; errmsg = e }

pub pb_readbyte-reading :
    (b : ℕ) (bs : List ℕ) (left : ℕ) (e : Option Error)
    → pb_readbyte (reading (b ∷ bs) (suc left) e) ≡ ok b (reading bs left e)
unfolding pb_readbyte call
pb_readbyte-reading b bs left e = ground arith

-- The last byte ends the loop, and a marked byte continues it.
last_round :
    (rounds s result w : ℕ) (bs : List ℕ) (left : ℕ) (e : Option Error)
    → w < 128
    → s < 64
    → varint_loop (suc rounds) s result (reading (w ∷ bs) (suc left) e)
      ≡ ok (or_group 64 result w s) (reading bs left e)
unfolding varint_loop
last_round rounds s result w bs left e small place = ground (arith, pb_readbyte-reading w bs left e)

marked_round :
    (rounds s result g : ℕ) (bs : List ℕ) (left : ℕ) (e : Option Error)
    → g < 128
    → s < 64
    → varint_loop (suc rounds) s result (reading ((g + 128) ∷ bs) (suc left) e)
      ≡ varint_loop rounds (s + 7) (or_group 64 result (g + 128) s) (reading bs left e)
unfolding varint_loop
marked_round rounds s result g bs left e small place =
    ground (arith, pb_readbyte-reading (g + 128) bs left e)

varint_loop-code :
    (k rounds s result w : ℕ) (rest : List ℕ) (left : ℕ) (e : Option Error)
    → k < rounds
    → w < 128 ^ suc k
    → s < 64
    → result < 2 ^ s
    → result + w * 2 ^ s < 2 ^ 64
    → varint_loop rounds s result (reading (code k w ++ rest) (length (code k w) + left) e)
      ≡ ok (result + w * 2 ^ s) (reading rest left e)
unfolding code
varint_loop-code k zero s result w rest left e hk hw hs lt fits = absurd (omega arith)
varint_loop-code zero (suc rounds) s result w rest left e hk hw hs lt fits =
    ground
      (arith, last_round rounds s result w rest left e, or_group-add 64 result w w s refl lt fits)
varint_loop-code (suc k) (suc rounds) s result w rest left e hk hw hs lt fits =
    elim (Bool-cases (ltb w 128)) [
      | inl small ↦ rw small (
          ground (
            arith,
            last_round rounds s result w rest left e,
            or_group-add 64 result w w s refl lt fits,
          ))
      | inr large ↦ rw large (
          ground (
            arith,
            marked_round rounds s result (w % 128) (code k (w / 128) ++ rest)
                (length (code k (w / 128)) + left) e,
            or_group-add 64 result w (w % 128 + 128) s (omega arith) lt fits,
            step_bound result w s lt,
            place_bound 64 result w s (ground arith) fits,
            split_groups w s,
            varint_loop-code k rounds (s + 7) (result + w % 128 * 2 ^ s) (w / 128) rest left e,
          ))
    ]

-- `pb_decode_varint` reads back every `uint64_t` that `pb_encode_varint` wrote, and stops behind it.
pub pb_decode_varint-varint_bytes :
    (v : ℕ) (rest : List ℕ) (left : ℕ) (e : Option Error)
    → v < 2 ^ 64
    → pb_decode_varint (reading (varint_bytes v ++ rest) (length (varint_bytes v) + left) e)
      ≡ ok v (reading rest left e)
unfolding pb_decode_varint
pb_decode_varint-varint_bytes v rest left e h =
    rw (varint_bytes-code v h) (ground (arith, varint_loop-code 9 11 0 0 v rest left e))

zigzag-lt : (v : ℕ) → zigzag v < 2 ^ 64
unfolding zigzag
zigzag-lt v = ground arith

pub unzigzag-zigzag : (v : ℕ) → v < 2 ^ 64 → unzigzag (zigzag v) ≡ v
unfolding zigzag unzigzag
unzigzag-zigzag v h = ground arith

-- `pb_decode_svarint` reads back every `int64_t`, as its pattern, that `pb_encode_svarint` wrote.
pub pb_decode_svarint-zigzag :
    (v : ℕ) (rest : List ℕ) (left : ℕ) (e : Option Error)
    → v < 2 ^ 64
    → let bytes = varint_bytes (zigzag v) in
      pb_decode_svarint (reading (bytes ++ rest) (length bytes + left) e)
      ≡ ok v (reading rest left e)
unfolding pb_decode_svarint
pb_decode_svarint-zigzag v rest left e h =
    let read = pb_decode_varint-varint_bytes (zigzag v) rest left e (zigzag-lt v) in
    ground (arith, read, unzigzag-zigzag v h)
