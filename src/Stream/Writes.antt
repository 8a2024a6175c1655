-- ===== src/Stream/Writes.antt =====
-- The contract of an encoder: it writes one byte string, whatever the stream. Streams are taken before
-- their first error, with no message.
use ios_college_work.Common.{
  ℕ, ◌+◌, ◌-◌, ◌^◌, ◌≤◌, ◌<◌, ◌≡◌, refl, sym, ap, ◌∙◌, Option, none, some, List, [], ◌++◌, length,
  length-append, arith, Run, Cmd, ok, err, ◌>>◌,
}
use mathlib.Core.List.{append-nil, append_assoc}
use native.Mathlib.Decide.{dec_le}
use ios_college_work.Stream.Errors.{Error, stream_full}
use ios_college_work.Stream.Output.{OStream, sizing, pb_write}
use ios_college_work.Stream.Buffers.{output, pb_write-output, pb_write-full}

-- A stream that only counts.
abbrev pub sizer : List ℕ → (room max_size bytes_written : ℕ) → Option Error → OStream
sizer xs room max_size n e = record {
  callback = sizing;
  state = xs;
  room = room;
  max_size = max_size;
  bytes_written = n;
  errmsg = e;
}

-- The stream is within `max_size`, which its array can hold.
pub record HasRoom (room max_size n : ℕ) : Type 0 where
  pub within : n ≤ max_size
  pub holds : max_size ≤ n + room
  pub bound : max_size < 2 ^ 64

-- An error return of an encoder on a buffer: the message says why, and the stream is still in bounds.
pub record Full (max_size : ℕ) (r : Run OStream (Unit {0})) : Type 0 where
  pub left : OStream
  pub returns : r ≡ err left
  pub message : left.errmsg ≡ some stream_full
  pub in_bounds : left.bytes_written ≤ max_size

-- `c` appends `bs` if they fit, counts them on a sizing stream, and fails with "stream full" otherwise.
pub record Writes (c : Cmd OStream (Unit {0})) (bs : List ℕ) : Type 0 where
  pub stores :
      (xs : List ℕ) (room max_size n : ℕ)
      → HasRoom room max_size n
      → n + length bs ≤ max_size
      → c (output xs room max_size n none)
        ≡ ok tt (output (xs ++ bs) (room - length bs) max_size (n + length bs) none)
  pub counts :
      (xs : List ℕ) (room max_size n : ℕ)
      → n + length bs < 2 ^ 64
      → c (sizer xs room max_size n none) ≡ ok tt (sizer xs room max_size (n + length bs) none)
  pub full :
      (xs : List ℕ) (room max_size n : ℕ)
      → HasRoom room max_size n
      → max_size < n + length bs
      → n + length bs < 2 ^ 64
      → Full max_size (c (output xs room max_size n none))

pub pb_write-Writes : (bs : List ℕ) → Writes (pb_write bs (length bs)) bs
pb_write-Writes bs = record {
  stores = λ xs room max_size n h fits.
      pb_write-output bs xs room max_size n none fits h.bound (omega (arith, h.holds, fits));
  counts = λ xs room max_size n h. unfold pb_write in ground arith;
  full = λ xs room max_size n h over bound. record {
    left = output xs room max_size n (some stream_full);
    returns = pb_write-full bs xs room max_size n none over bound;
    message = refl;
    in_bounds = h.within;
  };
}

pub Writes-nothing : Writes (ok tt) []
Writes-nothing = record {
  stores = λ xs room max_size n h fits. ground (arith, append-nil xs);
  counts = λ xs room max_size n h. ground arith;
  full = λ xs room max_size n h over bound. absurd (omega (arith, h.within, over));
}

-- A command with the same runs keeps the same contract.
pub Writes-eq :
    {c d : Cmd OStream (Unit {0})} {bs : List ℕ}
    → ((s : OStream) → d s ≡ c s)
    → Writes c bs
    → Writes d bs
Writes-eq same w = record {
  stores = λ xs room max_size n h fits. same _ ∙ w.stores xs room max_size n h fits;
  counts = λ xs room max_size n h. same _ ∙ w.counts xs room max_size n h;
  full = λ xs room max_size n h over bound.
      let f = w.full xs room max_size n h over bound in
      record {
        left = f.left;
        returns = same _ ∙ f.returns;
        message = f.message;
        in_bounds = f.in_bounds;
      };
}

module _ {c d : Cmd OStream (Unit {0})} {bs cs : List ℕ} (first : Writes c bs)
    (second : Writes d cs) where
  sum_length : (n : ℕ) → n + length (bs ++ cs) ≡ n + length bs + length cs
  sum_length n = omega (arith, length-append bs cs)

  then-stores :
      (xs : List ℕ) (room max_size n : ℕ)
      → HasRoom room max_size n
      → n + length (bs ++ cs) ≤ max_size
      → (c >> d) (output xs room max_size n none)
        ≡ ok tt (
            output
              (xs ++ (bs ++ cs))
              (room - length (bs ++ cs))
              max_size
              (n + length (bs ++ cs))
              none)
  then-stores xs room max_size n h fits =
      rw (first.stores xs room max_size n h (omega (arith, sum_length n))) (
        second.stores (xs ++ bs) (room - length bs) max_size (n + length bs)
          (omega (arith, sum_length n)) (omega (arith, sum_length n))
        ∙ ground (arith, append_assoc xs bs cs, length-append bs cs))

  then-Full :
      (xs : List ℕ) (room max_size n : ℕ)
      → HasRoom room max_size n
      → max_size < n + length (bs ++ cs)
      → n + length (bs ++ cs) < 2 ^ 64
      → Full max_size ((c >> d) (output xs room max_size n none))
  then-Full xs room max_size n h over bound = elim (dec_le (n + length bs) max_size) [
    | yes fits ↦ rw (first.stores xs room max_size n h fits) (
        second.full (xs ++ bs) (room - length bs) max_size (n + length bs)
          (omega (arith, h.holds, h.bound, fits)) (omega (arith, sum_length n, over))
          (omega (arith, sum_length n, bound)))
    | no tight ↦
        let f =
          first.full xs room max_size n h (omega (arith, tight))
            (omega (arith, sum_length n, bound)) in
        record {
          left = f.left;
          returns = rw f.returns;
          message = f.message;
          in_bounds = f.in_bounds;
        }
  ]

  -- One encoder after another.
  pub Writes-then : Writes (c >> d) (bs ++ cs)
  Writes-then = record {
    stores = then-stores;
    counts = λ xs room max_size n h.
        rw (first.counts xs room max_size n (omega (arith, sum_length n, h))) (
          second.counts xs room max_size (n + length bs) (omega (arith, sum_length n, h))
          ∙ ap (λ (k : ℕ). ok tt (sizer xs room max_size k none)) (sym (sum_length n)));
    full = then-Full;
  }
