-- ===== src/Stream/Errors.antt =====
-- The messages that PB_RETURN_ERROR stores in `errmsg`, one constructor for each string literal of
-- pb_encode.c and pb_decode.c.
use ios_college_work.Common.{ℕ, Option, none, some}

pub data Error : Type 0 where
  end_of_stream io_error varint_overflow invalid_wire_type : Error
  parent_stream_too_short array_overflow invalid_field_type no_malloc_support : Error
  callback_failed missing_required_field invalid_data_size integer_too_large : Error
  bytes_overflow size_too_large string_overflow invalid_field_descriptor : Error
  incorrect_fixed_length stream_full array_max_size_exceeded callback_error : Error
  submsg_size_changed bytes_size_exceeded : Error
  by_callback : ℕ → Error

-- PB_SET_ERROR: the first message stays.
abbrev pub set_error : Error → Option Error → Option Error
set_error msg none = some msg
set_error msg (some first) = some first
