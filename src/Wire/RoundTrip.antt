-- ===== src/Wire/RoundTrip.antt =====
-- What the encoders of pb_encode.c write is what the decoders of pb_decode.c read back.
use ios_college_work.Common.{
  ℕ, ◌+◌, ◌-◌, ◌^◌, ◌≤◌, ◌<◌, ◌≡◌, Option, none, List, ◌++◌, length, arith, ok,
}
use ios_college_work.Stream.Errors.{Error}
use ios_college_work.Stream.Buffers.{input, output}
use ios_college_work.Stream.Writes.{HasRoom}
use ios_college_work.Wire.Encode.{
  pb_encode_varint, zigzagged, pb_encode_svarint, fixed32_bytes, fixed64_bytes, pb_encode_fixed32,
  pb_encode_fixed64, pb_encode_tag,
}
use ios_college_work.Wire.Decode.{
  pb_decode_varint, pb_decode_varint32, pb_decode_svarint, pb_decode_fixed32, pb_decode_fixed64,
  pb_decode_tag, pb_skip_field,
}
use ios_college_work.Wire.Varint.{varint}
use ios_college_work.Wire.Scalars.Varint.{
  pb_encode_varint-Writes, pb_decode_varint-Reads, pb_decode_varint32-Reads,
}
use ios_college_work.Wire.Scalars.Zigzag.{pb_encode_svarint-Writes, pb_decode_svarint-Reads}
use ios_college_work.Wire.Scalars.Fixed.{
  pb_encode_fixed32-Writes, pb_encode_fixed64-Writes, pb_decode_fixed32-Reads,
  pb_decode_fixed64-Reads,
}
use ios_college_work.Wire.Fields.Tag.{
  IsTag, tag_bytes, header, pb_encode_tag-Writes, pb_decode_tag-Reads,
}
use ios_college_work.Wire.Fields.Skip.{
  Payload, IsPayload, encode_payload, payload_bytes, wire_type, encode_payload-Writes,
  pb_skip_field-Reads,
}

module _ (xs : List ℕ) (room max_size written : ℕ) (h : HasRoom room max_size written) where
  module _ (rest : List ℕ) (n : ℕ) (e : Option Error) where
    -- On a memory buffer with room for it, `pb_encode_varint` appends the base 128 groups of any 64-bit `v`;
    -- in front of any other bytes, `pb_decode_varint` takes exactly these bytes and yields `v`.
    pub varint-roundtrip :
        (v : ℕ)
        → v < 2 ^ 64
        → written + length (varint v) ≤ max_size
        → (pb_encode_varint v (output xs room max_size written none)
            ≡ ok tt (
                output
                  (xs ++ varint v)
                  (room - length (varint v))
                  max_size
                  (written + length (varint v))
                  none))
          × (pb_decode_varint (input (varint v ++ rest) (length (varint v) + n) e)
              ≡ ok v (input rest n e))
    varint-roundtrip v small fits = (
      (pb_encode_varint-Writes v small).stores xs room max_size written h fits,
      pb_decode_varint-Reads v small rest n e,
    )

    -- For a `v` below 2 ^ 32, the bytes that `pb_encode_varint` appends are also what `pb_decode_varint32`
    -- takes to yield `v`.
    pub varint32-roundtrip :
        (v : ℕ)
        → v < 2 ^ 32
        → written + length (varint v) ≤ max_size
        → (pb_encode_varint v (output xs room max_size written none)
            ≡ ok tt (
                output
                  (xs ++ varint v)
                  (room - length (varint v))
                  max_size
                  (written + length (varint v))
                  none))
          × (pb_decode_varint32 (input (varint v ++ rest) (length (varint v) + n) e)
              ≡ ok v (input rest n e))
    varint32-roundtrip v small fits = (
      (pb_encode_varint-Writes v (omega (arith, small))).stores xs room max_size written h fits,
      pb_decode_varint32-Reads v small rest n e,
    )

    -- On a memory buffer with room for it, `pb_encode_svarint` appends the varint of the zigzagged bit pattern
    -- `v` of any `int64_t`; `pb_decode_svarint` takes exactly these bytes and yields `v`.
    pub svarint-roundtrip :
        (v : ℕ)
        → v < 2 ^ 64
        → written + length (varint (zigzagged v)) ≤ max_size
        → (pb_encode_svarint v (output xs room max_size written none)
            ≡ ok tt (
                output
                  (xs ++ varint (zigzagged v))
                  (room - length (varint (zigzagged v)))
                  max_size
                  (written + length (varint (zigzagged v)))
                  none))
          × (pb_decode_svarint
                (input (varint (zigzagged v) ++ rest) (length (varint (zigzagged v)) + n) e)
              ≡ ok v (input rest n e))
    svarint-roundtrip v small fits = (
      (pb_encode_svarint-Writes v small).stores xs room max_size written h fits,
      pb_decode_svarint-Reads v small rest n e,
    )

    -- On a memory buffer with room for four bytes, `pb_encode_fixed32` appends the bytes of `v`, the lowest
    -- first; `pb_decode_fixed32` takes exactly these bytes and yields `v`.
    pub fixed32-roundtrip :
        (v : ℕ)
        → v < 2 ^ 32
        → written + length (fixed32_bytes v) ≤ max_size
        → (pb_encode_fixed32 v (output xs room max_size written none)
            ≡ ok tt (
                output
                  (xs ++ fixed32_bytes v)
                  (room - length (fixed32_bytes v))
                  max_size
                  (written + length (fixed32_bytes v))
                  none))
          × (pb_decode_fixed32 (input (fixed32_bytes v ++ rest) (length (fixed32_bytes v) + n) e)
              ≡ ok v (input rest n e))
    fixed32-roundtrip v small fits = (
      (pb_encode_fixed32-Writes v).stores xs room max_size written h fits,
      pb_decode_fixed32-Reads v small rest n e,
    )

    -- On a memory buffer with room for eight bytes, `pb_encode_fixed64` appends the bytes of `v`, the lowest
    -- first; `pb_decode_fixed64` takes exactly these bytes and yields `v`.
    pub fixed64-roundtrip :
        (v : ℕ)
        → v < 2 ^ 64
        → written + length (fixed64_bytes v) ≤ max_size
        → (pb_encode_fixed64 v (output xs room max_size written none)
            ≡ ok tt (
                output
                  (xs ++ fixed64_bytes v)
                  (room - length (fixed64_bytes v))
                  max_size
                  (written + length (fixed64_bytes v))
                  none))
          × (pb_decode_fixed64 (input (fixed64_bytes v ++ rest) (length (fixed64_bytes v) + n) e)
              ≡ ok v (input rest n e))
    fixed64-roundtrip v small fits = (
      (pb_encode_fixed64-Writes v).stores xs room max_size written h fits,
      pb_decode_fixed64-Reads v small rest n e,
    )

    -- On a memory buffer with room for it, `pb_encode_tag` appends the header of a wire type below 8 and a
    -- field number below 2 ^ 29; `pb_decode_tag` takes it and yields both, where the number is not zero.
    pub tag-roundtrip :
        (w f : ℕ)
        → IsTag w f
        → 0 < f
        → written + length (tag_bytes w f) ≤ max_size
        → (pb_encode_tag w f (output xs room max_size written none)
            ≡ ok tt (
                output
                  (xs ++ tag_bytes w f)
                  (room - length (tag_bytes w f))
                  max_size
                  (written + length (tag_bytes w f))
                  none))
          × (pb_decode_tag (input (tag_bytes w f ++ rest) (length (tag_bytes w f) + n) e)
              ≡ ok (header w f) (input rest n e))
    tag-roundtrip w f t pos fits = (
      (pb_encode_tag-Writes w f t).stores xs room max_size written h fits,
      pb_decode_tag-Reads w f t pos rest n e,
    )

    -- What the encoders write behind a tag, on a memory buffer with room for it, is for each wire type what
    -- `pb_skip_field` skips: exactly these bytes, whatever stands behind them.
    pub skip-roundtrip :
        (p : Payload)
        → IsPayload p
        → written + length (payload_bytes p) ≤ max_size
        → (encode_payload p (output xs room max_size written none)
            ≡ ok tt (
                output
                  (xs ++ payload_bytes p)
                  (room - length (payload_bytes p))
                  max_size
                  (written + length (payload_bytes p))
                  none))
          × (pb_skip_field
                (wire_type p)
                (input (payload_bytes p ++ rest) (length (payload_bytes p) + n) e)
              ≡ ok tt (input rest n e))
    skip-roundtrip p ok_p fits = (
      (encode_payload-Writes p ok_p).stores xs room max_size written h fits,
      pb_skip_field-Reads p ok_p rest n e,
    )
