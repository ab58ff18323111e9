-- ===== src/Nanopb/Field.antt =====
-- Field descriptors, types and memory (BetweenUS/Pods/nanopb/pb.h). The pods are built with
-- PB_FIELD_32BIT, PB_NO_PACKED_STRUCTS and PB_ENABLE_MALLOC, for 64-bit little-endian platforms:
-- `pb_size_t` has 32 bits, `bool` one byte and a pointer eight.
pub mod Ltype
pub mod Htype
pub mod Atype
use between_us.Prelude.{ℕ, zero, suc, ◌+◌, ◌-◌, ◌*◌, ◌/◌, ◌%◌, ◌^◌, List, [], ◌∷◌}

-- `struct pb_field_s`. `size_offset` is the pattern of the signed offset, extended to the 64 bits of
-- a pointer. `ptr` is an address: of a descriptor array for a submessage, else of a default value.
pub record Field : Type 0 where
  pub tag : ℕ
  pub type : ℕ
  pub data_offset : ℕ
  pub size_offset : ℕ
  pub data_size : ℕ
  pub array_size : ℕ
  pub ptr : ℕ

-- PB_LAST_FIELD, which ends every descriptor array.
abbrev pub last_field : Field
last_field = record {
  tag = 0;
  type = 0;
  data_offset = 0;
  size_offset = 0;
  data_size = 0;
  array_size = 0;
  ptr = 0;
}

-- PB_LTYPE, PB_HTYPE and PB_ATYPE: the bits 0 to 3, 4 and 5, 6 and 7 of the type.
abbrev pub ltype : Field → ℕ
ltype f = f.type % 16

abbrev pub htype : Field → ℕ
htype f = f.type / 16 % 4 * 16

abbrev pub atype : Field → ℕ
atype f = f.type / 64 % 4 * 64

-- PB_SIZE_MAX
abbrev pub pb_size_max : ℕ
pb_size_max = 2 ^ 32 - 1

-- sizeof(void*)
abbrev pub pointer_size : ℕ
pointer_size = 8

-- Memory, a byte at each address, and the address 0 of the null pointer.
abbrev pub Memory : Type 0
Memory = ℕ → ℕ

abbrev pub address : ℕ → ℕ
address a = a % 2 ^ 64

-- The little-endian word of `n` bytes at an address.
unfoldable pub load : Memory → ℕ → ℕ → ℕ
load m a zero = 0
load m a (suc n) = m a + 256 * load m (a + 1) n

abbrev pub load_size : Memory → ℕ → ℕ
load_size m a = load m a 4

abbrev pub load_pointer : Memory → ℕ → ℕ
load_pointer m a = load m a pointer_size

-- The `n` bytes from an address on.
unfoldable pub load_bytes : Memory → ℕ → ℕ → List ℕ
load_bytes m a zero = []
load_bytes m a (suc n) = m a ∷ load_bytes m (a + 1) n
