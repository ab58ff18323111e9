-- ===== src/Nanopb/Field/Atype.antt =====
-- The PB_ATYPE numbers of pb.h, bits 6 and 7: where the data is.
use Prim.Native.Nat.{ℕ}

abbrev pub static : ℕ
static = 0x00

abbrev pub pointer : ℕ
pointer = 0x80

abbrev pub callback : ℕ
callback = 0x40
