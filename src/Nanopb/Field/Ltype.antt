-- ===== src/Nanopb/Field/Ltype.antt =====
-- The PB_LTYPE numbers of pb.h, bits 0 to 3: the encoding.
use Prim.Native.Nat.{ℕ}

abbrev pub bool : ℕ
bool = 0x00

abbrev pub varint : ℕ
varint = 0x01

abbrev pub uvarint : ℕ
uvarint = 0x02

abbrev pub svarint : ℕ
svarint = 0x03

abbrev pub fixed32 : ℕ
fixed32 = 0x04

abbrev pub fixed64 : ℕ
fixed64 = 0x05

abbrev pub last_packable : ℕ
last_packable = 0x05

abbrev pub bytes : ℕ
bytes = 0x06

abbrev pub string : ℕ
string = 0x07

abbrev pub submessage : ℕ
submessage = 0x08

abbrev pub extension : ℕ
extension = 0x09

abbrev pub fixed_length_bytes : ℕ
fixed_length_bytes = 0x0A
