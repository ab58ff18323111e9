-- ===== src/Nanopb/Field/Htype.antt =====
-- The PB_HTYPE numbers of pb.h, bits 4 and 5: the rule of the field.
use Prim.Native.Nat.{ℕ}

abbrev pub required : ℕ
required = 0x00

abbrev pub optional : ℕ
optional = 0x10

abbrev pub repeated : ℕ
repeated = 0x20

abbrev pub oneof : ℕ
oneof = 0x30
