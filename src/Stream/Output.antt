-- ===== src/Stream/Output.antt =====
-- Output streams (pb_encode.c and struct pb_ostream_s of pb_encode.h).
use ios_college_work.Common.{
  ℕ, ◌+◌, ◌-◌, ◌%◌, ◌^◌, Bool, true, false, Option, none, List, [], ◌++◌, ltb, ◌||◌, if◌then◌else◌,
  length, take, Run, Cmd, ok, err, fault,
}
use ios_college_work.Stream.Errors.{Error, stream_full, io_error, set_error}

-- What a custom callback sees of the stream, and may change. For a memory buffer `state` is what has
-- been stored from the start of the array up to the pointer, and `room` is what the array has left
-- behind the pointer.
pub record Sink : Type 0 where
  pub state : List ℕ
  pub room : ℕ
  pub max_size : ℕ
  pub bytes_written : ℕ
  pub errmsg : Option Error

-- `sizing` is the NULL pointer of PB_OSTREAM_SIZING.
pub data WriteFn : Type 0 where
  sizing buf_write : WriteFn
  custom : (Sink → List ℕ → Bool × Sink) → WriteFn

pub record OStream : Type 0 where
  pub callback : WriteFn
  pub state : List ℕ
  pub room : ℕ
  pub max_size : ℕ
  pub bytes_written : ℕ
  pub errmsg : Option Error

abbrev pub sink_of : OStream → Sink
sink_of s = record {
  state = s.state;
  room = s.room;
  max_size = s.max_size;
  bytes_written = s.bytes_written;
  errmsg = s.errmsg;
}

abbrev pub ostream : WriteFn → Sink → OStream
ostream f k = record {
  callback = f;
  state = k.state;
  room = k.room;
  max_size = k.max_size;
  bytes_written = k.bytes_written;
  errmsg = k.errmsg;
}

abbrev pub fail : {A : Type 0} → Error → Cmd OStream A
fail msg s = err (record s { errmsg = set_error msg s.errmsg })

-- `room` is the size of the array at `buf`, which the caller answers for.
unfoldable pub pb_ostream_from_buffer : (room bufsize : ℕ) → OStream
pb_ostream_from_buffer room bufsize = record {
  callback = buf_write;
  state = [];
  room = room;
  max_size = bufsize;
  bytes_written = 0;
  errmsg = none;
}

-- PB_OSTREAM_SIZING
abbrev pub pb_ostream_sizing : OStream
pb_ostream_sizing = record {
  callback = sizing;
  state = [];
  room = 0;
  max_size = 0;
  bytes_written = 0;
  errmsg = none;
}

-- `stream->bytes_written += count`, a `size_t`.
abbrev pub count_written : ℕ → OStream → OStream
count_written count s = record s { bytes_written = (s.bytes_written + count) % 2 ^ 64 }

-- `buf_write`: storing past the end of the array, or reading past the end of `buf`, is a fault.
store_buffered : List ℕ → ℕ → Cmd OStream (Unit {0})
store_buffered buf count s =
    if ltb s.room count || ltb (length buf) count
    then fault
    else ok tt (
        count_written count (record s { state = s.state ++ take count buf; room = s.room - count }))

accept_write : WriteFn → ℕ → Bool × Sink → Run OStream (Unit {0})
accept_write f count (true, k) = ok tt (count_written count (ostream f k))
accept_write f count (false, k) =
    let left = ostream f k in err (record left { errmsg = set_error io_error left.errmsg })

call_write : WriteFn → List ℕ → ℕ → Cmd OStream (Unit {0})
unfolding store_buffered accept_write
call_write sizing buf count s = ok tt (count_written count s)
call_write buf_write buf count s = store_buffered buf count s
call_write (custom f) buf count s =
    if ltb (length buf) count
    then fault
    else accept_write (custom f) count (f (sink_of s) (take count buf))

is_sizing : WriteFn → Bool
is_sizing sizing = true
is_sizing buf_write = false
is_sizing (custom _) = false

-- `buf` are the bytes from the pointer of that name on; none for NULL.
unfoldable pub pb_write : List ℕ → ℕ → Cmd OStream (Unit {0})
unfolding call_write is_sizing
pb_write buf count s =
    if is_sizing s.callback
    then call_write s.callback buf count s
    else if ltb s.max_size ((s.bytes_written + count) % 2 ^ 64)
    then fail stream_full s
    else call_write s.callback buf count s
