-- ===== src/Nanopb/Examples/Fields.antt =====
-- The iterator and the message encoder of BetweenUS/Pods/nanopb on small descriptors.
use between_us.Prelude.{ℕ, zero, suc, ◌+◌, ◌≡◌, refl, false, List, [], ◌∷◌}
use between_us.Prelude.{none, arith}
use between_us.Prelude.Outcome.{ok, pure, final}
use between_us.Nanopb.Output.{Ostream, buffer, sizing_stream, pb_write, pb_ostream_from_buffer}
use between_us.Nanopb.Output.Scalars.{varint_bytes, pb_encode_varint, pb_encode_tag, tag_value}
use between_us.Nanopb.Output.Laws.{IsBounded, Extends, Growing-pure}
use between_us.Nanopb.Field.{Field, Memory, address}
use between_us.Nanopb.Iter.{pb_field_iter_begin, pb_field_iter_next, pb_field_iter_find}
use between_us.Nanopb.Iter.Walk.{
  IsTagged, nth, offset, required_before, pb_field_iter_next-nth, required_field_index-nth,
}
use between_us.Nanopb.Iter.Struct.{
  first, other, union, static, pointer, repeated, optional, oneof, Member, descriptors, IsMember,
  apart, together, IsTail, IsStruct,
}
use between_us.Nanopb.Iter.Struct.Place.{member_at, nth-descriptors}
use between_us.Nanopb.Iter.Find.{Found, pb_field_iter_find-Found}
use between_us.Nanopb.Encode.Value.{pb_encode_tag_for_field, pb_enc_bool, encode_value}
use between_us.Nanopb.Encode.Grow.{IsMemory}
use between_us.Nanopb.Encode.Message.{
  Externals, encode_by_rule, encode_basic_field, encode_field, encode_current, fields_loop,
  encode_message, pb_encode,
}
use between_us.Nanopb.Output.Counts.{Counting-pure}
use between_us.Nanopb.Encode.Message.{pb_get_encoded_size}
use between_us.Nanopb.Encode.Message.Counts.{IsSteady}
use between_us.Nanopb.Encode.Message.Size.{pb_get_encoded_size-pb_encode}
use between_us.Nanopb.Encode.Message.Grow.{IsSized, IsExternal, IsSmall, pb_encode-Extends}

-- `required bool a = 1; required uint32 b = 2; optional string c = 5;` in a struct.
abbrev bool_field : Field
bool_field = record {
  tag = 1;
  type = 0x00;
  data_offset = 0;
  size_offset = 0;
  data_size = 1;
  array_size = 0;
  ptr = 0;
}

abbrev word_field : Field
word_field = record {
  tag = 2;
  type = 0x02;
  data_offset = 3;
  size_offset = 0;
  data_size = 4;
  array_size = 0;
  ptr = 0;
}

abbrev text_field : Field
text_field = record {
  tag = 5;
  type = 0x97;
  data_offset = 0;
  size_offset = 0;
  data_size = 1;
  array_size = 0;
  ptr = 0;
}

abbrev three_fields : List Field
three_fields = bool_field ∷ word_field ∷ text_field ∷ []

three_fields-IsTagged : IsTagged three_fields
three_fields-IsTagged = omega arith

pb_field_iter_next-nth_example :
    pb_field_iter_next (nth three_fields 64 2) ≡ (false, nth three_fields 64 0)
pb_field_iter_next-nth_example =
    pb_field_iter_next-nth three_fields 64 2 three_fields-IsTagged (omega arith)

-- A count with an array of five words, a flag with a word, and a choice with a union of a double and a
-- pointer.
abbrev words_member : Member
words_member = record {
  tag = 1;
  ltype = 2;
  rules = repeated;
  allocation = static;
  placement = first;
  offset = 4;
  size = 20;
  entry_size = 4;
  beside = 0;
  ptr = 0;
}

abbrev word_member : Member
word_member = record words_member {
  tag = 2;
  rules = optional;
  placement = other;
  offset = 28;
  size = 4;
  beside = 24;
}

abbrev double_member : Member
double_member = record words_member {
  tag = 3;
  ltype = 4;
  rules = oneof;
  placement = other;
  offset = 40;
  size = 8;
  entry_size = 8;
  beside = 32;
}

abbrev text_member : Member
text_member = record double_member {
  tag = 4;
  ltype = 6;
  allocation = pointer;
  placement = union;
  entry_size = 1;
}

abbrev four_members : List Member
four_members = words_member ∷ word_member ∷ double_member ∷ text_member ∷ []

words_member-IsMember : IsMember words_member
words_member-IsMember = record {
  type = omega arith;
  array = λ e. omega arith;
  pointer = λ e. cc;
  within = omega arith;
  beside_within = omega arith;
}

word_member-IsMember : IsMember word_member
word_member-IsMember = record {
  type = omega arith;
  array = λ e. cc;
  pointer = λ e. cc;
  within = omega arith;
  beside_within = omega arith;
}

double_member-IsMember : IsMember double_member
double_member-IsMember = record {
  type = omega arith;
  array = λ e. cc;
  pointer = λ e. cc;
  within = omega arith;
  beside_within = omega arith;
}

text_member-IsMember : IsMember text_member
text_member-IsMember = record {
  type = omega arith;
  array = λ e. cc;
  pointer = λ e. refl;
  within = omega arith;
  beside_within = omega arith;
}

text_member-IsTail : IsTail double_member (text_member ∷ [])
unfolding IsTail
text_member-IsTail = (text_member-IsMember, together refl refl refl refl refl, tt)

double_member-IsTail : IsTail word_member (double_member ∷ text_member ∷ [])
unfolding IsTail
double_member-IsTail = (double_member-IsMember, apart refl (omega arith), text_member-IsTail)

word_member-IsTail : IsTail words_member (word_member ∷ double_member ∷ text_member ∷ [])
unfolding IsTail
word_member-IsTail = (word_member-IsMember, apart refl (omega arith), double_member-IsTail)

four_members-IsStruct : IsStruct four_members
unfolding IsStruct IsTail
four_members-IsStruct = (refl, words_member-IsMember, word_member-IsTail)

nth-descriptors_example :
    let it = nth (descriptors four_members) 64 3 in
    (it.p_data ≡ address (64 + 40)) × (it.p_size ≡ address (64 + 32))
unfolding member_at
nth-descriptors_example =
    nth-descriptors words_member (word_member ∷ double_member ∷ text_member ∷ []) 64 3
      four_members-IsStruct (omega arith) (omega arith)

required_field_index-nth_example :
    (nth three_fields 64 2).required_field_index ≡ required_before three_fields 64 2
required_field_index-nth_example = required_field_index-nth three_fields 64 2

offset_of_text : (offset three_fields 64 2 ≡ 8) × (required_before three_fields 64 2 ≡ 2)
unfolding offset required_before
offset_of_text = (refl, refl)

pb_field_iter_find-Found_example :
    Found three_fields 64 1 2 (pb_field_iter_find 1 (nth three_fields 64 2))
pb_field_iter_find-Found_example =
    pb_field_iter_find-Found three_fields 64 1 2 three_fields-IsTagged (omega arith)

-- A message of one `required bool`, and no function of the caller.
abbrev one_bool : Externals
one_bool = record {
  descriptor = λ a. bool_field ∷ [];
  encode_callback = λ function m f a. pure tt;
  encode_extension = λ function m a. pure tt;
}

abbrev ones : Memory
ones = λ a. 1

ones-IsMemory : IsMemory ones
ones-IsMemory a = omega arith

one_bool-IsSized : IsSized (bool_field ∷ [])
one_bool-IsSized zero = omega arith
one_bool-IsSized (suc i) = omega arith

one_bool-IsExternal : IsExternal one_bool ones
one_bool-IsExternal = record {
  sized = λ a. one_bool-IsSized;
  callback = λ function a f. Growing-pure tt;
  extension = λ function a. Growing-pure tt;
}

abbrev room_for_eight : Ostream
room_for_eight = record { sink = buffer []; max_size = 8; bytes_written = 0; errmsg = none }

-- The tag 1 with the wire type of a varint, and the value.
pb_encode-one_bool :
    pb_encode one_bool ones 1 0 64 room_for_eight
    ≡ ok tt (record room_for_eight { sink = buffer (0x08 ∷ 0x01 ∷ []); bytes_written = 2 })
unfolding pb_encode encode_message fields_loop pb_field_iter_begin pb_field_iter_next encode_current
    encode_field encode_basic_field encode_by_rule pb_encode_tag_for_field encode_value pb_enc_bool
    pb_encode_varint pb_encode_tag pb_write varint_bytes tag_value between_us.Nanopb.Output.call
pb_encode-one_bool = refl

one_bool-IsSmall : IsSmall one_bool ones
unfolding pb_encode encode_message fields_loop pb_field_iter_begin pb_field_iter_next encode_current
    encode_field encode_basic_field encode_by_rule pb_encode_tag_for_field encode_value pb_enc_bool
    pb_encode_varint pb_encode_tag pb_write varint_bytes tag_value between_us.Nanopb.Output.call
one_bool-IsSmall zero fields src t e = cc
one_bool-IsSmall (suc depth) fields src t e = ground arith

room_for_eight-IsBounded : IsBounded room_for_eight
room_for_eight-IsBounded = omega arith

pb_encode-Extends_example :
    (bytes : List ℕ) × Extends room_for_eight []
      (final (pb_encode one_bool ones 1 0 64 room_for_eight))
      bytes
pb_encode-Extends_example =
    pb_encode-Extends one_bool ones 1 0 64 room_for_eight [] ones-IsMemory one_bool-IsExternal
      one_bool-IsSmall refl room_for_eight-IsBounded

one_bool-IsSteady : IsSteady one_bool ones
one_bool-IsSteady = record {
  sized = λ a. one_bool-IsSized;
  callback = λ function a f. Counting-pure;
  extension = λ function a. Counting-pure;
}

pb_get_encoded_size-pb_encode_example :
    (t : Ostream) × (pb_get_encoded_size one_bool ones 1 0 64 ≡ ok t.bytes_written t)
    × (2 ≡ room_for_eight.bytes_written + t.bytes_written)
pb_get_encoded_size-pb_encode_example =
    pb_get_encoded_size-pb_encode one_bool ones 1 0 64 room_for_eight
      (record room_for_eight { sink = buffer (0x08 ∷ 0x01 ∷ []); bytes_written = 2 }) []
      ones-IsMemory one_bool-IsSteady one_bool-IsSmall refl room_for_eight-IsBounded
      pb_encode-one_bool
