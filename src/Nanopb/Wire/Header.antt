-- ===== src/Nanopb/Wire/Header.antt =====
-- Field headers and other 32-bit varints: `pb_encode_tag` against `pb_decode_tag`.
use between_us.Prelude.{ℕ, zero, suc, ◌+◌, ◌*◌, ◌/◌, ◌%◌, ◌^◌, ◌≤◌, ◌<◌, ◌≡◌, refl, false}
use between_us.Prelude.{Option, List, ◌∷◌, ◌++◌, ltb, length, arith, inl, inr, Bool-cases}
use between_us.Prelude.Outcome.{ok}
use between_us.Nanopb.Error.{Error}
use between_us.Nanopb.Input.Varint.{or_group, varint32_loop}
use between_us.Nanopb.Input.Varint.{pb_decode_varint32_eof, pb_decode_varint32}
use between_us.Nanopb.Input.Fields.{field, pb_decode_tag}
use between_us.Nanopb.Output.Scalars.{varint_bytes, tag_value}
use between_us.Nanopb.Wire.Groups.{code, varint_bytes-code, length-code, or_group-add, step_bound}
use between_us.Nanopb.Wire.Groups.{place_bound, split_groups}
use between_us.Nanopb.Wire.RoundTrip.{reading, pb_readbyte-reading}

module _ (left : ℕ) (e : Option Error) where
  -- A byte behind place 28 has at most four bits of a 32-bit value.
  top_bits : (result w s : ℕ) → s ≡ 28 → result + w * 2 ^ s < 2 ^ 32 → w < 16
  top_bits result w s p fits = let bound = rw p at fits in omega arith

  last_round :
      (rounds s result w : ℕ) (bs : List ℕ)
      → w < 128
      → s < 32
      → result + w * 2 ^ s < 2 ^ 32
      → varint32_loop (suc rounds) s result (reading (w ∷ bs) (suc left) e)
        ≡ ok (or_group 32 result w s) (reading bs left e)
  unfolding varint32_loop
  last_round rounds s result w bs small place fits =
      ground (arith, pb_readbyte-reading w bs left e, λ (p : s ≡ 28). top_bits result w s p fits)

marked_round :
    (rounds s result g : ℕ) (bs : List ℕ) (left : ℕ) (e : Option Error)
    → g < 128
    → s < 32
    → varint32_loop (suc rounds) s result (reading ((g + 128) ∷ bs) (suc left) e)
      ≡ varint32_loop rounds (s + 7) (or_group 32 result (g + 128) s) (reading bs left e)
unfolding varint32_loop
marked_round rounds s result g bs left e small place =
    ground (arith, pb_readbyte-reading (g + 128) bs left e)

varint32_loop-code :
    (k rounds s result w : ℕ) (rest : List ℕ) (left : ℕ) (e : Option Error)
    → length (code k w) ≤ rounds
    → w < 128 ^ suc k
    → s < 32
    → result < 2 ^ s
    → result + w * 2 ^ s < 2 ^ 32
    → varint32_loop rounds s result (reading (code k w ++ rest) (length (code k w) + left) e)
      ≡ ok (result + w * 2 ^ s) (reading rest left e)
unfolding code
varint32_loop-code k zero s result w rest left e hk hw hs lt fits =
    absurd (omega (arith, length-code k w))
varint32_loop-code zero (suc rounds) s result w rest left e hk hw hs lt fits =
    ground
      (arith, last_round left e rounds s result w rest, or_group-add 32 result w w s refl lt fits)
varint32_loop-code (suc k) (suc rounds) s result w rest left e hk hw hs lt fits =
    elim (Bool-cases (ltb w 128)) [
      | inl small ↦ rw small (
          ground (
            arith,
            last_round left e rounds s result w rest,
            or_group-add 32 result w w s refl lt fits,
          ))
      | inr large ↦
          let others = code k (w / 128) in
          rw large (
            ground (
              arith,
              marked_round rounds s result (w % 128) (others ++ rest) (length others + left) e,
              or_group-add 32 result w (w % 128 + 128) s (omega arith) lt fits,
              step_bound result w s lt,
              place_bound 32 result w s (ground arith) fits,
              split_groups w s,
              varint32_loop-code k rounds (s + 7) (result + w % 128 * 2 ^ s) (w / 128) rest left e,
            ))
    ]

-- A 32-bit value is read back with the flag for the end of the stream unset.
varint32_eof-code :
    (v : ℕ) (rest : List ℕ) (left : ℕ) (e : Option Error)
    → v < 2 ^ 32
    → pb_decode_varint32_eof (reading (code 9 v ++ rest) (length (code 9 v) + left) e)
      ≡ (false, ok v (reading rest left e))
unfolding pb_decode_varint32_eof code
varint32_eof-code v rest left e h = elim (Bool-cases (ltb v 128)) [
  | inl small ↦ rw small (ground (arith, pb_readbyte-reading v rest left e))
  | inr large ↦
      let others = code 8 (v / 128) in
      let remaining = length others + left in
      rw large (
        ground (
          arith,
          pb_readbyte-reading (v % 128 + 128) (others ++ rest) remaining e,
          varint32_loop-code 8 (suc remaining) 7 (v % 128) (v / 128) rest left e (omega arith)
              (omega arith),
        ))
]

-- `pb_decode_varint32` reads back every `uint32_t` that `pb_encode_varint` wrote, and stops behind it.
pub pb_decode_varint32-varint_bytes :
    (v : ℕ) (rest : List ℕ) (left : ℕ) (e : Option Error)
    → v < 2 ^ 32
    → pb_decode_varint32 (reading (varint_bytes v ++ rest) (length (varint_bytes v) + left) e)
      ≡ ok v (reading rest left e)
unfolding pb_decode_varint32
pb_decode_varint32-varint_bytes v rest left e h =
    rw (varint_bytes-code v (omega arith)) (ground (arith, varint32_eof-code v rest left e h))

-- `pb_decode_tag` reads back the wire type and the field number that `pb_encode_tag` wrote, for the
-- field numbers from 1 to 2 ^ 29 - 1 that protocol buffers have.
pub pb_decode_tag-tag_value :
    (wiretype number : ℕ) (rest : List ℕ) (left : ℕ) (e : Option Error)
    → wiretype < 8
    → 1 ≤ number
    → number < 2 ^ 29
    → let bytes = varint_bytes (tag_value wiretype number) in
      pb_decode_tag (reading (bytes ++ rest) (length bytes + left) e)
      ≡ field number wiretype (reading rest left e)
unfolding pb_decode_tag tag_value
pb_decode_tag-tag_value wiretype number rest left e hw low high =
    let v : ℕ = number * 8 % 2 ^ 64 + wiretype in
    let read = varint32_eof-code v rest left e (omega arith) in
    rw (varint_bytes-code v (omega arith)) (ground (arith, read))
