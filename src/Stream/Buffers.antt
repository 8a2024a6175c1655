-- ===== src/Stream/Buffers.antt =====
-- Streams over memory buffers: what `pb_read`, `pb_readbyte` and `pb_write` do on them.
use ios_college_work.Common.{
  ℕ, suc, ◌+◌, ◌-◌, ◌^◌, ◌≤◌, ◌<◌, ◌≡◌, refl, Option, List, ◌∷◌, ◌++◌, length, arith, ok, err,
  take-append, drop-append, take-all, length-append,
}
use ios_college_work.Stream.Errors.{Error, end_of_stream, stream_full, set_error}
use ios_college_work.Stream.Input.{IStream, buf_read, pb_read, pb_read_null, pb_readbyte}
use ios_college_work.Stream.Output.{OStream, buf_write, pb_write}

-- An input stream over the bytes `xs`, of which it may read `n`.
abbrev pub input : List ℕ → ℕ → Option Error → IStream
input xs n e = record { callback = buf_read; state = xs; bytes_left = n; errmsg = e }

-- An output stream that has stored `xs` in its array, with `room` more bytes behind them.
abbrev pub output : List ℕ → (room max_size bytes_written : ℕ) → Option Error → OStream
output xs room max_size n e = record {
  callback = buf_write;
  state = xs;
  room = room;
  max_size = max_size;
  bytes_written = n;
  errmsg = e;
}

pub pb_readbyte-input :
    (b : ℕ) (xs : List ℕ) (n : ℕ) (e : Option Error)
    → pb_readbyte (input (b ∷ xs) (suc n) e) ≡ ok b (input xs n e)
unfolding pb_readbyte
pb_readbyte-input b xs n e = ground arith

pub pb_readbyte-empty :
    (xs : List ℕ) (e : Option Error)
    → pb_readbyte (input xs 0 e) ≡ err (input xs 0 (set_error end_of_stream e))
unfolding pb_readbyte
pb_readbyte-empty xs e = refl

-- Exactly the bytes `bs` are read.
pub pb_read-input :
    (bs rest : List ℕ) (n : ℕ) (e : Option Error)
    → pb_read (length bs) (input (bs ++ rest) (length bs + n) e) ≡ ok bs (input rest n e)
unfolding pb_read
pb_read-input bs rest n e =
    ground (arith, length-append bs rest, take-append bs rest, drop-append bs rest)

pub pb_read_null-input :
    (bs rest : List ℕ) (n : ℕ) (e : Option Error)
    → pb_read_null (length bs) (input (bs ++ rest) (length bs + n) e) ≡ ok tt (input rest n e)
unfolding pb_read_null
pb_read_null-input bs rest n e = rw (pb_read-input bs rest n e)

pub pb_read-short :
    (xs : List ℕ) (count n : ℕ) (e : Option Error)
    → n < count
    → pb_read count (input xs n e) ≡ err (input xs n (set_error end_of_stream e))
unfolding pb_read
pb_read-short xs count n e h = ground arith

-- A write that fits `max_size`, over an array that has the room.
pub pb_write-output :
    (bs xs : List ℕ) (room max_size n : ℕ) (e : Option Error)
    → n + length bs ≤ max_size
    → max_size < 2 ^ 64
    → length bs ≤ room
    → pb_write bs (length bs) (output xs room max_size n e)
      ≡ ok tt (output (xs ++ bs) (room - length bs) max_size (n + length bs) e)
unfolding pb_write
pb_write-output bs xs room max_size n e fits bound space = ground (arith, take-all bs)

pub pb_write-full :
    (bs xs : List ℕ) (room max_size n : ℕ) (e : Option Error)
    → max_size < n + length bs
    → n + length bs < 2 ^ 64
    → pb_write bs (length bs) (output xs room max_size n e)
      ≡ err (output xs room max_size n (set_error stream_full e))
unfolding pb_write
pb_write-full bs xs room max_size n e full bound = ground arith
