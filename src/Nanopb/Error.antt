-- ===== src/Nanopb/Error.antt =====
-- The messages that PB_RETURN_ERROR stores in a stream (BetweenUS/Pods/nanopb/pb.h).
use between_us.Prelude.{Option, none, some}

pub data Error : Type 0 where
  end_of_stream io_error varint_overflow invalid_wire_type parent_too_short : Error
  array_overflow invalid_field_type no_such_callback callback_failed : Error
  wrong_fixed_count missing_required_field integer_too_large invalid_data_size : Error
  bytes_overflow size_too_large string_overflow invalid_field_descriptor : Error
  incorrect_fixed_length invalid_union_tag iterator_error : Error
  invalid_size realloc_failed too_many_array_entries : Error
  stream_full array_max_size_exceeded callback_error submsg_size_changed : Error
  bytes_size_exceeded : Error

-- PB_SET_ERROR keeps the message that is there already.
abbrev pub first_error : Option Error → Error → Option Error
first_error none e = some e
first_error (some old) e = some old
