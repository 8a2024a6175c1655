-- ===== src/Message/Encode/Contract/Submessage.antt =====
-- `pb_encode_submessage`: a length, and what the submessage writes.
use ios_college_work.Common.{
  ℕ, ◌^◌, ◌<◌, ◌≡◌, refl, ap, ◌∙◌, none, some, List, [], ◌++◌, length, length-append, arith, Cmd,
  ok, ◌>>◌,
}
use native.Mathlib.Decide.{dec_lt}
use ios_college_work.Stream.Errors.{stream_full}
use ios_college_work.Stream.Output.{OStream, pb_write, pb_ostream_sizing}
use ios_college_work.Stream.Buffers.{output}
use ios_college_work.Stream.Writes.{sizer, Writes, Writes-eq, Writes-then}
use ios_college_work.Wire.Encode.{pb_encode_varint}
use ios_college_work.Wire.Varint.{varint}
use ios_college_work.Wire.Scalars.Varint.{pb_encode_varint-Writes}
use ios_college_work.Message.Encode.Items.{sized_tail, pb_encode_submessage}

module _ {run : Cmd OStream (Unit {0})} {bs : List ℕ} (w : Writes run bs) where
  -- The second half, with the size that the first has counted.
  tail-Writes : Writes (sized_tail run (length bs)) bs
  tail-Writes = record {
    stores = λ xs room max_size n h fits.
        unfold sized_tail in
        ground (
          arith,
          h.holds,
          h.bound,
          w.stores xs room (length bs) 0 (omega (arith, h.holds, h.bound, fits)) (omega arith),
        );
    counts = λ xs room max_size n h. unfold sized_tail pb_write in ground arith;
    full = λ xs room max_size n h over bound. record {
      left = output xs room max_size n (some stream_full);
      returns = unfold sized_tail in ground arith;
      message = refl;
      in_bounds = h.within;
    };
  }

  counted : length bs < 2 ^ 64 → run pb_ostream_sizing ≡ ok tt (sizer [] 0 0 (length bs) none)
  counted h =
      w.counts [] 0 0 0 (omega (arith, h))
      ∙ ap (λ (k : ℕ). ok tt (sizer [] 0 0 k none)) (omega arith)

  small-Writes : length bs < 2 ^ 64 → Writes (pb_encode_submessage run) (varint (length bs) ++ bs)
  small-Writes h =
      Writes-eq two_halves (Writes-then (pb_encode_varint-Writes (length bs) h) tail-Writes)
    where
      two_halves :
          (s : OStream)
          → pb_encode_submessage run s
            ≡ (pb_encode_varint (length bs) >> sized_tail run (length bs)) s
      two_halves s = unfold pb_encode_submessage in rw (counted h)

  -- If the encoder of a submessage writes the bytes `bs` on every stream, then `pb_encode_submessage`, which runs it on a
  -- sizing stream first and then on a substream that holds it to the size found, writes the length of `bs` as a varint and `bs`
  -- on every stream, with "stream full" on a smaller one, and counts both on a sizing stream.
  pub submessage-Writes : Writes (pb_encode_submessage run) (varint (length bs) ++ bs)
  submessage-Writes = elim (dec_lt (length bs) (2 ^ 64)) [
    | yes h ↦ small-Writes h
    | no h ↦ record {
      stores = λ xs room max_size n room' fits.
          absurd (omega (arith, h, fits, room'.bound, length-append (varint (length bs)) bs));
      counts = λ xs room max_size n fits.
          absurd (omega (arith, h, fits, length-append (varint (length bs)) bs));
      full = λ xs room max_size n room' over fits.
          absurd (omega (arith, h, fits, length-append (varint (length bs)) bs));
    }
  ]
