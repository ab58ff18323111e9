-- ===== src/Nanopb/Iter/Struct.antt =====
-- The descriptors that the macros of pb.h make of the members of a message struct.
pub mod Place
use between_us.Prelude.{
  ℕ, ◌+◌, ◌-◌, ◌*◌, ◌/◌, ◌%◌, ◌^◌, ◌≤◌, ◌<◌, ◌≡◌, Bool, true, false, List, [], ◌∷◌, if◌then◌else◌,
}
use between_us.Nanopb.Field.{Field, pb_size_max, pointer_size}
use between_us.Nanopb.Field.Htype
use between_us.Nanopb.Field.Atype

-- The arguments of PB_FIELD. `fixed_count` stands for PB_REPEATED_FIXED_COUNT, and `oneof` for PB_ONEOF_FIELD
-- and PB_ANONYMOUS_ONEOF_FIELD.
pub data Rules : Type 0 where
  required : Rules
  optional : Rules
  singular : Rules
  repeated : Rules
  fixed_count : Rules
  oneof : Rules

pub data Allocation : Type 0 where
  static : Allocation
  pointer : Allocation
  callback : Allocation

pub data Placement : Type 0 where
  first : Placement
  other : Placement
  union : Placement

-- A member of the struct: where it begins, its size, the size of an entry of it (or of what it points
-- to), and where its `has_`, `_count` or `which_` member begins, if it has one.
pub record Member : Type 0 where
  pub tag : ℕ
  pub ltype : ℕ
  pub rules : Rules
  pub allocation : Allocation
  pub placement : Placement
  pub offset : ℕ
  pub size : ℕ
  pub entry_size : ℕ
  pub beside : ℕ
  pub ptr : ℕ

abbrev pub htype_of : Rules → ℕ
htype_of required = Htype.required
htype_of optional = Htype.optional
htype_of singular = Htype.optional
htype_of repeated = Htype.repeated
htype_of fixed_count = Htype.repeated
htype_of oneof = Htype.oneof

abbrev pub atype_of : Allocation → ℕ
atype_of static = Atype.static
atype_of pointer = Atype.pointer
atype_of callback = Atype.callback

-- PB_DATAOFFSET_FIRST, PB_DATAOFFSET_OTHER and PB_DATAOFFSET_UNION, of a member and the one before, as a
-- `pb_size_t`.
unfoldable pub pb_dataoffset : Placement → Member → Member → ℕ
pb_dataoffset first m1 m2 = m1.offset % 2 ^ 32
pb_dataoffset other m1 m2 = (m1.offset + 2 ^ 64 - m2.offset - m2.size) % 2 ^ 32
pb_dataoffset union m1 m2 = pb_size_max

-- Whether the macro for a field (PB_ONEOF_STATIC and PB_ONEOF_POINTER too) stores the distance to the
-- member beside it.
abbrev pub has_delta : Allocation → Rules → Bool
has_delta static optional = true
has_delta static repeated = true
has_delta static oneof = true
has_delta pointer repeated = true
has_delta pointer oneof = true
has_delta a r = false

-- Whether the member is an array in the struct.
abbrev pub is_array : Allocation → Rules → Bool
is_array static repeated = true
is_array static fixed_count = true
is_array a r = false

abbrev pub is_pointer : Allocation → Bool
is_pointer pointer = true
is_pointer a = false

-- Where the flag, the count or the choice for a member is, or else the member itself.
abbrev pub size_place : Member → ℕ
size_place m = if has_delta m.allocation m.rules then m.beside else m.offset

-- `pb_delta`, which is negative where the other member stands in front.
abbrev pb_delta : ℕ → ℕ → ℕ
pb_delta m1 m2 = (m1 + 2 ^ 64 - m2) % 2 ^ 64

-- PB_REQUIRED_STATIC and its siblings: the descriptor of a member, behind another one.
unfoldable pub pb_field : Member → Member → Field
unfolding pb_dataoffset
pb_field prev m = record {
  tag = m.tag;
  type = atype_of m.allocation + htype_of m.rules + m.ltype;
  data_offset = pb_dataoffset m.placement m prev;
  size_offset = if has_delta m.allocation m.rules then pb_delta m.beside m.offset else 0;
  data_size =
      if is_array m.allocation m.rules
      then m.entry_size
      else if is_pointer m.allocation
      then m.entry_size
      else m.size;
  array_size = if is_array m.allocation m.rules then m.size / m.entry_size else 0;
  ptr = m.ptr;
}

-- The descriptors of the members behind one, and of a whole message.
unfoldable pub descriptors_behind : Member → List Member → List Field
descriptors_behind prev [] = []
descriptors_behind prev (m ∷ ms) = pb_field prev m ∷ descriptors_behind m ms

unfoldable pub descriptors : List Member → List Field
descriptors [] = []
descriptors (m ∷ ms) = pb_field m m ∷ descriptors_behind m ms

-- What C makes of a member in a struct of less than 2 ^ 31 bytes: an array consists of its entries, and a
-- pointer has its size.
pub record IsMember (m : Member) : Type 0 where
  pub type : m.ltype < 16
  pub array :
      is_array m.allocation m.rules ≡ true
      → (1 ≤ m.entry_size) × (m.size ≡ m.size / m.entry_size * m.entry_size)
  pub pointer : is_pointer m.allocation ≡ true → m.size ≡ pointer_size
  pub within : m.offset + m.size < 2 ^ 31
  pub beside_within : m.beside < 2 ^ 31

-- A member stands behind the one before it, or with it in a union.
pub data IsBehind (prev m : Member) : Type 0 where
  apart : m.placement ≡ other → prev.offset + prev.size ≤ m.offset → IsBehind prev m
  together :
      m.placement ≡ union
      → prev.rules ≡ oneof
      → m.rules ≡ oneof
      → m.offset ≡ prev.offset
      → size_place m ≡ size_place prev
      → IsBehind prev m

unfoldable pub IsTail : Member → List Member → Type 0
IsTail prev [] = Unit {0}
IsTail prev (m ∷ ms) = IsMember m × IsBehind prev m × IsTail m ms

unfoldable pub IsStruct : List Member → Type 0
IsStruct [] = Unit {0}
IsStruct (m ∷ ms) = (m.placement ≡ first) × IsMember m × IsTail m ms
