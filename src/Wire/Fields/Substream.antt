-- ===== src/Wire/Fields/Substream.antt =====
-- `pb_make_string_substream` and `pb_close_string_substream`.
use ios_college_work.Common.{
  ℕ, ◌+◌, ◌^◌, ◌<◌, ◌≡◌, refl, ap, ◌∙◌, Option, List, [], ◌∷◌, ◌++◌, length, arith, ok, err,
}
use ios_college_work.Stream.Errors.{Error, set_error, parent_stream_too_short}
use ios_college_work.Stream.Input.{pb_read_null}
use ios_college_work.Stream.Buffers.{input}
use ios_college_work.Stream.Reads.{pb_read_null-Reads}
use ios_college_work.Wire.Decode.{pb_make_string_substream, pb_close_string_substream}
use ios_college_work.Wire.Varint.{varint}
use ios_college_work.Wire.Scalars.Varint.{pb_decode_varint32-Reads}

-- Behind a length the substream may read just the bytes that it counts; the parent keeps what stands
-- behind them.
pub pb_make_string_substream-ok :
    (size n : ℕ) (xs : List ℕ) (e : Option Error)
    → size < 2 ^ 32
    → pb_make_string_substream (input (varint size ++ xs) (length (varint size) + (size + n)) e)
      ≡ ok (input xs size e) (input xs n e)
unfolding pb_make_string_substream
pb_make_string_substream-ok size n xs e h =
    rw (pb_decode_varint32-Reads size h xs (size + n) e) (ground arith)

-- On a buffer that goes on with a length below 2 ^ 32 that is more than what the parent may read behind it,
-- `pb_make_string_substream` fails with "parent stream too short".
pub pb_make_string_substream-short :
    (size n : ℕ) (xs : List ℕ) (e : Option Error)
    → size < 2 ^ 32
    → n < size
    → pb_make_string_substream (input (varint size ++ xs) (length (varint size) + n) e)
      ≡ err (input xs n (set_error parent_stream_too_short e))
unfolding pb_make_string_substream
pb_make_string_substream-short size n xs e h short =
    rw (pb_decode_varint32-Reads size h xs n e) (ground arith)

read_left :
    (left rest : List ℕ) (e : Option Error)
    → pb_read_null (length left) (input (left ++ rest) (length left) e) ≡ ok tt (input rest 0 e)
read_left left rest e =
    ap (λ (k : ℕ). pb_read_null (length left) (input (left ++ rest) k e)) (omega arith)
    ∙ pb_read_null-Reads left rest 0 e

-- Closing takes what the substream has left, so that the parent goes on behind the string.
pub pb_close_string_substream-ok :
    (left xs rest : List ℕ) (n : ℕ) (e e' : Option Error)
    → pb_close_string_substream (input (left ++ rest) (length left) e') (input xs n e)
      ≡ ok tt (input rest n e')
unfolding pb_close_string_substream
pb_close_string_substream-ok [] xs rest n e e' = refl
pb_close_string_substream-ok (b ∷ bs) xs rest n e e' = ground (arith, read_left (b ∷ bs) rest e')

-- On a buffer that goes on with a length below 2 ^ 32 and that many bytes, `pb_make_string_substream`
-- yields a substream that may read just these, and leaves the parent the bytes behind them; however many of
-- them have been read, `pb_close_string_substream` leaves the parent right behind them.
pub substream-roundtrip :
    (front back rest : List ℕ) (n : ℕ) (e e' : Option Error)
    → length (front ++ back) < 2 ^ 32
    → (pb_make_string_substream (
          input
            (varint (length (front ++ back)) ++ ((front ++ back) ++ rest))
            (length (varint (length (front ++ back))) + (length (front ++ back) + n))
            e)
        ≡ ok
            (input ((front ++ back) ++ rest) (length (front ++ back)) e)
            (input ((front ++ back) ++ rest) n e))
      × (pb_close_string_substream
            (input (back ++ rest) (length back) e')
            (input ((front ++ back) ++ rest) n e)
          ≡ ok tt (input rest n e'))
substream-roundtrip front back rest n e e' h = (
  pb_make_string_substream-ok (length (front ++ back)) n ((front ++ back) ++ rest) e h,
  pb_close_string_substream-ok back ((front ++ back) ++ rest) rest n e e',
)
