-- ===== src/Nanopb/Iter/Struct/Place.antt =====
-- The iterator of pb_common.c at the members of a struct that the macros of pb.h have described.
use between_us.Prelude.{
  ℕ, zero, suc, ◌+◌, ◌-◌, ◌*◌, ◌/◌, ◌%◌, ◌≤◌, ◌<◌, ◌≡◌, ◌≢◌, refl, sym, ap, ◌∙◌, true, false, List,
  [], ◌∷◌, length, if◌then◌else◌, arith,
}
use between_us.Nanopb.Field.{Field, address}
use between_us.Nanopb.Iter.{field_at, begin, room, in_union}
use between_us.Nanopb.Iter.Walk.{nth, offset, p_data-nth}
use between_us.Nanopb.Iter.Struct.{
  Rules, oneof, Allocation, first, other, union, Member, htype_of, atype_of, pb_dataoffset,
  size_place, pb_field, descriptors_behind, descriptors, IsMember, IsBehind, apart, together,
  IsTail, IsStruct,
}

htype-type :
    (a : Allocation) (r : Rules) (l : ℕ)
    → l < 16
    → (atype_of a + htype_of r + l) / 16 % 4 * 16 ≡ htype_of r
htype-type a r l h = ground arith

atype-type :
    (a : Allocation) (r : Rules) (l : ℕ)
    → l < 16
    → (atype_of a + htype_of r + l) / 64 % 4 * 64 ≡ atype_of a
atype-type a r l h = ground arith

-- The iterator passes over as many bytes as the member has.
room-pb_field : (prev m : Member) → IsMember m → room (pb_field prev m) ≡ m.size
unfolding pb_field
room-pb_field prev m h =
    rw
      (
        htype-type m.allocation m.rules m.ltype h.type,
        atype-type m.allocation m.rules m.ltype h.type,
      )
      (ground (arith, h.array, h.pointer))

in_union-together :
    (pp prev m : Member)
    → IsMember prev
    → IsMember m
    → m.placement ≡ union
    → prev.rules ≡ oneof
    → m.rules ≡ oneof
    → in_union (pb_field pp prev) (pb_field prev m) ≡ true
unfolding pb_field pb_dataoffset
in_union-together pp prev m hp h e a b =
    rw
      (
        htype-type prev.allocation prev.rules prev.ltype hp.type,
        htype-type m.allocation m.rules m.ltype h.type,
        e,
        a,
        b,
      )
      refl

data_offset-apart :
    (prev m : Member)
    → IsMember m
    → m.placement ≡ other
    → prev.offset + prev.size ≤ m.offset
    → (pb_field prev m).data_offset ≡ m.offset - prev.offset - prev.size
unfolding pb_field pb_dataoffset
data_offset-apart prev m h e le = rw e (omega (arith, h.within, le))

data_offset-first :
    (prev m : Member) → IsMember m → m.placement ≡ first → (pb_field prev m).data_offset ≡ m.offset
unfolding pb_field pb_dataoffset
data_offset-first prev m h e = rw e (omega (arith, h.within))

in_union-apart :
    (f : Field) (prev m : Member)
    → IsMember m
    → m.placement ≡ other
    → prev.offset + prev.size ≤ m.offset
    → in_union f (pb_field prev m) ≡ false
in_union-apart f prev m h e le = ground (arith, data_offset-apart prev m h e le, h.within)

-- From the member to the one beside it.
size_offset-pb_field :
    (prev m : Member) (dest : ℕ)
    → IsMember m
    → address (address (dest + m.offset) + (pb_field prev m).size_offset)
      ≡ address (dest + size_place m)
unfolding pb_field
size_offset-pb_field prev m dest h =
    let there = h.within in let beside = h.beside_within in ground (arith, there, beside)

-- The member at an index, of a first one and those behind it.
unfoldable pub member_at : Member → List Member → ℕ → Member
member_at m ms zero = m
member_at m [] (suc k) = m
member_at m (n ∷ ns) (suc k) = member_at n ns k

field_at-descriptors_behind :
    (m : Member) (ms : List Member) (k : ℕ)
    → k < length ms
    → field_at (descriptors_behind m ms) k ≡ pb_field (member_at m ms k) (member_at m ms (suc k))
unfolding descriptors_behind member_at
field_at-descriptors_behind m [] k lt = absurd (omega arith)
field_at-descriptors_behind m (n ∷ ns) zero lt = refl
field_at-descriptors_behind m (n ∷ ns) (suc k) lt = field_at-descriptors_behind n ns k (omega arith)

-- Two members that follow one another.
record IsPair (prev m : Member) : Type 0 where
  front : IsMember prev
  back : IsMember m
  behind : IsBehind prev m

IsTail-IsPair :
    (m : Member) (ms : List Member) (k : ℕ)
    → IsMember m
    → IsTail m ms
    → k < length ms
    → IsPair (member_at m ms k) (member_at m ms (suc k))
unfolding IsTail member_at
IsTail-IsPair m [] k h t lt = absurd (omega arith)
IsTail-IsPair m (n ∷ ns) zero h t lt = record { front = h; back = t.0; behind = t.1 }
IsTail-IsPair m (n ∷ ns) (suc k) h t lt = IsTail-IsPair n ns k t.0 t.2 (omega arith)

-- A step of the iterator from one to the other.
data_step :
    (pp prev m : Member)
    → IsPair prev m
    → (if in_union (pb_field pp prev) (pb_field prev m)
        then prev.offset
        else prev.offset + room (pb_field pp prev) + (pb_field prev m).data_offset)
      ≡ m.offset
data_step pp prev m h = elim (h.behind) [
  | apart e le ↦
      let gap = data_offset-apart prev m h.back e le in
      let within = h.back.within in
      rw (room-pb_field pp prev h.front, gap) (ground (arith, le, within))
  | together e a b same beside ↦ rw (in_union-together pp prev m h.front h.back e a b) (sym same)
]

size_step :
    (pp prev m : Member) (dest : ℕ)
    → IsPair prev m
    → (if in_union (pb_field pp prev) (pb_field prev m)
        then address (dest + size_place prev)
        else address (address (dest + m.offset) + (pb_field prev m).size_offset))
      ≡ address (dest + size_place m)
size_step pp prev m dest h = elim (h.behind) [
  | apart e le ↦
      rw (in_union-apart (pb_field pp prev) prev m h.back e le)
        (size_offset-pb_field prev m dest h.back)
  | together e a b same beside ↦
      rw (in_union-together pp prev m h.front h.back e a b)
        (ap (λ (q : ℕ). address (dest + q)) (sym beside))
]

-- The other pointer of the iterator.
p_size-begin :
    (fields : List Field) (dest : ℕ)
    → dest ≢ 0
    → (nth fields dest 0).p_size
      ≡ address ((nth fields dest 0).p_data + (field_at fields 0).size_offset)
unfolding nth begin
p_size-begin fields dest h = ground (arith, h)

p_size-advance :
    (fields : List Field) (dest k : ℕ)
    → (nth fields dest (suc k)).p_size ≡ (
        if in_union (field_at fields k) (field_at fields (suc k))
        then (nth fields dest k).p_size
        else address ((nth fields dest (suc k)).p_data + (field_at fields (suc k)).size_offset))
unfolding nth
p_size-advance fields dest k = ground arith

module _ (m : Member) (ms : List Member) (dest : ℕ) (struct : IsStruct (m ∷ ms)) where
  pair : (k : ℕ) → k < length ms → IsPair (member_at m ms k) (member_at m ms (suc k))
  unfolding IsStruct
  pair k lt = IsTail-IsPair m ms k struct.1 struct.2 lt

  struct_first : IsMember m
  unfolding IsStruct
  struct_first = struct.1

  -- The descriptor of a member, behind some member.
  front_of : ℕ → Member
  front_of zero = m
  front_of (suc k) = member_at m ms k

  field_at-descriptors :
      (k : ℕ)
      → k ≤ length ms
      → field_at (descriptors (m ∷ ms)) k ≡ pb_field (front_of k) (member_at m ms k)
  unfolding descriptors front_of member_at
  field_at-descriptors zero lt = refl
  field_at-descriptors (suc k) lt = field_at-descriptors_behind m ms k (omega arith)

  -- The layout that the iterator goes by is that of the struct.
  offset-descriptors :
      (k : ℕ) → k ≤ length ms → offset (descriptors (m ∷ ms)) dest k ≡ (member_at m ms k).offset
  unfolding offset IsStruct front_of member_at
  offset-descriptors zero lt =
      ap (λ (f : Field). f.data_offset) (field_at-descriptors zero lt)
      ∙ data_offset-first m m struct.1 struct.0
  offset-descriptors (suc k) lt =
      rw
        (
          field_at-descriptors k (omega arith),
          field_at-descriptors (suc k) lt,
          offset-descriptors k (omega arith),
        )
        (data_step (front_of k) (member_at m ms k) (member_at m ms (suc k)) (pair k (omega arith)))

  p_data-descriptors :
      (k : ℕ)
      → k ≤ length ms
      → dest ≢ 0
      → (nth (descriptors (m ∷ ms)) dest k).p_data ≡ address (dest + (member_at m ms k).offset)
  p_data-descriptors k lt h =
      p_data-nth (descriptors (m ∷ ms)) dest k h
      ∙ ap (λ (o : ℕ). address (dest + o)) (offset-descriptors k lt)

  p_size-descriptors :
      (k : ℕ)
      → k ≤ length ms
      → dest ≢ 0
      → (nth (descriptors (m ∷ ms)) dest k).p_size ≡ address (dest + size_place (member_at m ms k))
  unfolding front_of member_at
  p_size-descriptors zero lt h =
      p_size-begin (descriptors (m ∷ ms)) dest h
      ∙ rw (p_data-descriptors zero lt h, field_at-descriptors zero lt)
          (size_offset-pb_field m m dest (struct_first))
  p_size-descriptors (suc k) lt h =
      p_size-advance (descriptors (m ∷ ms)) dest k
      ∙ rw
          (
            p_data-descriptors (suc k) lt h,
            p_size-descriptors k (omega arith) h,
            field_at-descriptors k (omega arith),
            field_at-descriptors (suc k) lt,
          )
          (size_step (front_of k) (member_at m ms k) (member_at m ms (suc k)) dest
            (pair k (omega arith)))

-- A message struct of less than 2 ^ 31 bytes, whose members of every rule and allocation, arrays, pointers and
-- unions among them, follow one another with whatever gaps, and the descriptors that the macros of pb.h
-- compute from the places and sizes of these members. When the iterator is at a field, its data pointer
-- is the place of that member in the struct, and its size pointer that of the flag, the count or the
-- choice which stands beside the member, or of the member itself where there is none.
pub nth-descriptors :
    (m : Member) (ms : List Member) (dest k : ℕ)
    → IsStruct (m ∷ ms)
    → dest ≢ 0
    → k ≤ length ms
    → let it = nth (descriptors (m ∷ ms)) dest k in
      (it.p_data ≡ address (dest + (member_at m ms k).offset))
      × (it.p_size ≡ address (dest + size_place (member_at m ms k)))
nth-descriptors m ms dest k struct h lt =
    (p_data-descriptors m ms dest struct k lt h, p_size-descriptors m ms dest struct k lt h)
