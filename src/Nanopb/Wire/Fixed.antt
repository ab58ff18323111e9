-- ===== src/Nanopb/Wire/Fixed.antt =====
-- Words of fixed width, and length-delimited bytes.
use between_us.Prelude.{ℕ, ◌+◌, ◌^◌, ◌<◌, ◌≡◌, List, [], ◌∷◌, ◌++◌, Option, arith}
use between_us.Prelude.{length, take-length_append, drop-length_append}
use between_us.Prelude.Outcome.{ok}
use between_us.Nanopb.Error.{Error}
use between_us.Nanopb.Input.{pb_read, call}
use between_us.Nanopb.Input.Varint.{pb_decode_fixed32, pb_decode_fixed64}
use between_us.Nanopb.Output.Scalars.{fixed32_bytes, fixed64_bytes}
use between_us.Nanopb.Wire.RoundTrip.{reading}

-- A read from a buffer takes exactly the bytes at its front.
pub pb_read-reading :
    (bytes rest : List ℕ) (left : ℕ) (e : Option Error)
    → pb_read (length bytes) (reading (bytes ++ rest) (length bytes + left) e)
      ≡ ok bytes (reading rest left e)
unfolding pb_read call
pb_read-reading [] rest left e = ground arith
pb_read-reading (b ∷ bs) rest left e =
    ground (arith, take-length_append bs rest, drop-length_append bs rest)

-- `pb_decode_fixed32` reads back every `uint32_t` that `pb_encode_fixed32` wrote, in four bytes.
pub pb_decode_fixed32-fixed32_bytes :
    (v : ℕ) (rest : List ℕ) (left : ℕ) (e : Option Error)
    → v < 2 ^ 32
    → pb_decode_fixed32 (reading (fixed32_bytes v ++ rest) (4 + left) e)
      ≡ ok v (reading rest left e)
unfolding pb_decode_fixed32 fixed32_bytes
pb_decode_fixed32-fixed32_bytes v rest left e h =
    ground (arith, pb_read-reading (fixed32_bytes v) rest left e)

-- `pb_decode_fixed64` reads back every `uint64_t` that `pb_encode_fixed64` wrote, in eight bytes.
pub pb_decode_fixed64-fixed64_bytes :
    (v : ℕ) (rest : List ℕ) (left : ℕ) (e : Option Error)
    → v < 2 ^ 64
    → pb_decode_fixed64 (reading (fixed64_bytes v ++ rest) (8 + left) e)
      ≡ ok v (reading rest left e)
unfolding pb_decode_fixed64 fixed64_bytes
pb_decode_fixed64-fixed64_bytes v rest left e h =
    ground (arith, pb_read-reading (fixed64_bytes v) rest left e)
