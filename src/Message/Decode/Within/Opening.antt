-- ===== src/Message/Decode/Within/Opening.antt =====
-- What `pb_make_string_substream` makes of a buffer.
use ios_college_work.Common.{
  ℕ, ◌+◌, ◌-◌, ◌≤◌, ◌≡◌, ap, inl, inr, Bool-cases, ltb, if◌then◌else◌, Option, List, length, drop,
  arith, Run, ok, err, fault, stuck, and_then,
}
use ios_college_work.Stream.Errors.{Error, set_error, parent_stream_too_short}
use ios_college_work.Stream.Input.{IStream}
use ios_college_work.Stream.Buffers.{input}
use ios_college_work.Stream.Safe.{Left, Safe}
use ios_college_work.Wire.Decode.{pb_decode_varint32, pb_make_string_substream}
use ios_college_work.Wire.Safe.{pb_decode_varint32-Safe}

-- What `pb_make_string_substream` makes on a buffer.
pub record Made (xs : List ℕ) (n : ℕ) (sub parent : IStream) : Type 0 where
  pub taken : ℕ
  pub size : ℕ
  pub rest : ℕ
  pub errmsg : Option Error
  pub bound : taken + size + rest ≡ n
  pub sub_same : sub ≡ input (drop taken xs) size errmsg
  pub parent_same : parent ≡ input (drop taken xs) rest errmsg

abbrev pub Makes : List ℕ → ℕ → Run IStream IStream → Type 0
Makes xs n (ok sub parent) = Made xs n sub parent
Makes xs n (err s) = Left xs n s
Makes xs n fault = ⊥
Makes xs n stuck = ⊥

module _ (xs : List ℕ) (n : ℕ) where
  sized-Makes :
      (r : Run IStream ℕ)
      → Safe xs n r
      → Makes xs n (
          and_then r (λ size s.
            if ltb s.bytes_left size
            then err (record s { errmsg = set_error parent_stream_too_short s.errmsg })
            else ok
                (record s { bytes_left = size })
                (record s { bytes_left = s.bytes_left - size })))
  sized-Makes (ok size s) l = elim (Bool-cases (ltb s.bytes_left size)) [
    | inl short ↦ rw short (record {
      taken = l.taken;
      bound = l.bound;
      errmsg = set_error parent_stream_too_short s.errmsg;
      same =
          ap (λ (t : IStream). record t { errmsg = set_error parent_stream_too_short s.errmsg })
            l.same;
    })
    | inr enough ↦ rw enough (record {
      taken = l.taken;
      size = size;
      rest = s.bytes_left - size;
      errmsg = l.errmsg;
      bound = ground (arith, l.bound, ap (λ (t : IStream). t.bytes_left) l.same);
      sub_same = ap (λ (t : IStream). record t { bytes_left = size }) l.same;
      parent_same = ap (λ (t : IStream). record t { bytes_left = s.bytes_left - size }) l.same;
    })
  ]
  sized-Makes (err s) l = l
  sized-Makes fault l = l
  sized-Makes stuck l = l

  pub pb_make_string_substream-Makes :
      (e : Option Error) → n ≤ length xs → Makes xs n (pb_make_string_substream (input xs n e))
  unfolding pb_make_string_substream
  pb_make_string_substream-Makes e fits =
      sized-Makes (pb_decode_varint32 (input xs n e)) (pb_decode_varint32-Safe xs n e fits)
