-- ===== src/Stream/Input.antt =====
-- Input streams (pb_decode.c and struct pb_istream_s of pb_decode.h), built with error messages and
-- with custom streams.
use ios_college_work.Common.{
  ℕ, zero, suc, ◌+◌, ◌-◌, ◌%◌, ◌^◌, Bool, Option, none, List, [], ◌∷◌, ltb, ◌==◌, if◌then◌else◌,
  length, take, drop, Run, Cmd, ok, err, fault, stuck, ◌>>=◌,
}
use ios_college_work.Stream.Errors.{Error, end_of_stream, io_error, set_error}

-- What a custom callback sees of the stream, and may change. `state` stands for what the pointer of
-- that name leads to: for a memory buffer, the bytes from the pointer to the end of the array.
pub record Source : Type 0 where
  pub state : List ℕ
  pub bytes_left : ℕ
  pub errmsg : Option Error

-- What a callback returns, the bytes that it has stored in `buf`, and the stream as it leaves it.
pub record Reply : Type 0 where
  pub success : Bool
  pub stored : List ℕ
  pub source : Source

pub data ReadFn : Type 0 where
  buf_read : ReadFn
  custom : (Source → ℕ → Reply) → ReadFn

pub record IStream : Type 0 where
  pub callback : ReadFn
  pub state : List ℕ
  pub bytes_left : ℕ
  pub errmsg : Option Error

abbrev pub istream : ReadFn → Source → IStream
istream f src = record {
  callback = f;
  state = src.state;
  bytes_left = src.bytes_left;
  errmsg = src.errmsg;
}

abbrev pub source_of : IStream → Source
source_of s = record { state = s.state; bytes_left = s.bytes_left; errmsg = s.errmsg }

-- `PB_RETURN_ERROR(stream, msg)`
abbrev pub fail : {A : Type 0} → Error → Cmd IStream A
fail msg s = err (record s { errmsg = set_error msg s.errmsg })

unfoldable pub pb_istream_from_buffer : List ℕ → ℕ → IStream
pb_istream_from_buffer buf bufsize = record {
  callback = buf_read;
  state = buf;
  bytes_left = bufsize;
  errmsg = none;
}

-- `buf_read`, then `bytes_left -= count`, which the caller has checked. Reading past the end of the
-- array is a fault.
take_buffered : ℕ → Cmd IStream (List ℕ)
take_buffered count s =
    if ltb (length s.state) count
    then fault
    else ok (take count s.state)
        (record s { state = drop count s.state; bytes_left = s.bytes_left - count })

-- A callback that says that it has succeeded has stored `count` bytes: otherwise the caller goes on
-- with an uninitialised array, a fault. `bytes_left` is a `size_t`, and the callback may have changed it.
accept_reply : ReadFn → ℕ → Reply → Run IStream (List ℕ)
accept_reply f count r =
    let left = istream f r.source in
    if r.success
    then if length r.stored == count
      then ok r.stored
          (record left { bytes_left = (left.bytes_left + 2 ^ 64 - count % 2 ^ 64) % 2 ^ 64 })
      else fault
    else err (record left { errmsg = set_error io_error left.errmsg })

-- The call through `stream->callback` with its error, and the subtraction.
call_read : ReadFn → ℕ → Cmd IStream (List ℕ)
unfolding take_buffered accept_reply
call_read buf_read count s = take_buffered count s
call_read (custom f) count s = accept_reply (custom f) count (f (source_of s) count)

-- `pb_read` with a `buf` that is not NULL: yields the bytes stored there.
unfoldable pub pb_read : ℕ → Cmd IStream (List ℕ)
unfolding call_read
pb_read count s =
    if ltb s.bytes_left count then fail end_of_stream s else call_read s.callback count s

-- The loop that skips input in pieces of 16 bytes.
skip_pieces : (fuel count : ℕ) → Cmd IStream (Unit {0})
skip_pieces zero count s = stuck
skip_pieces (suc fuel) count s =
    let more = skip_pieces fuel (count - 16) in
    if ltb 16 count then (pb_read 16 >>= (λ _. more)) s else (pb_read count >>= (λ _. ok tt)) s

skip_read : ReadFn → ℕ → Cmd IStream (Unit {0})
unfolding skip_pieces pb_read
skip_read buf_read count s = (pb_read count >>= (λ _. ok tt)) s
skip_read (custom f) count s = skip_pieces (suc count) count s

-- `pb_read` with NULL for `buf`.
unfoldable pub pb_read_null : ℕ → Cmd IStream (Unit {0})
unfolding skip_read
pb_read_null count s = skip_read s.callback count s

first_byte : List ℕ → Cmd IStream ℕ
first_byte [] s = fault
first_byte (b ∷ _) s = ok b s

unfoldable pub pb_readbyte : Cmd IStream ℕ
unfolding call_read first_byte
pb_readbyte s =
    if s.bytes_left == 0 then fail end_of_stream s else (call_read s.callback 1 >>= first_byte) s
