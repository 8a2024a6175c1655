-- ===== src/Wire/Fields/Tag.antt =====
-- `pb_encode_tag` and `pb_decode_tag`.
use ios_college_work.Common.{
  ℕ, ◌+◌, ◌*◌, ◌%◌, ◌^◌, ◌<◌, ◌≡◌, ap, ◌∙◌, bit_or, true, false, Option, List, [], ◌∷◌, arith, ok,
}
use ios_college_work.Common.Bits.{bit_and-mask, shift-bit_or}
use ios_college_work.Stream.Errors.{Error, set_error, end_of_stream}
use ios_college_work.Stream.Buffers.{input, pb_readbyte-empty}
use ios_college_work.Stream.Writes.{Writes}
use ios_college_work.Stream.Reads.{Reads}
use ios_college_work.Wire.Encode.{pb_encode_tag}
use ios_college_work.Wire.Decode.{Header, no_tag, pb_decode_varint32, pb_decode_tag}
use ios_college_work.Wire.Varint.{groups, varint}
use ios_college_work.Wire.Scalars.Varint.{pb_encode_varint-Writes, pb_decode_varint32-Reads}

-- The bytes of a tag.
abbrev pub tag_bytes : (wiretype field_number : ℕ) → List ℕ
tag_bytes wiretype field_number = varint (wiretype + field_number * 8)

-- Field numbers have 29 bits.
pub record IsTag (wiretype field_number : ℕ) : Type 0 where
  pub wire : wiretype < 8
  pub small : field_number < 2 ^ 29

pub pb_encode_tag-Writes : (w f : ℕ) → IsTag w f → Writes (pb_encode_tag w f) (tag_bytes w f)
unfolding pb_encode_tag
pb_encode_tag-Writes w f t =
    rw value (pb_encode_varint-Writes (w + f * 8) (omega (arith, t.wire, t.small)))
  where
    value : bit_or (f * 2 ^ 3 % 2 ^ 64) w ≡ w + f * 8
    value = ap (λ (x : ℕ). bit_or x w) (omega (arith, t.small)) ∙ shift-bit_or 3 f w t.wire

abbrev pub header : (wiretype field_number : ℕ) → Header
header w f = record { success = true; wire_type = w; tag = f; eof = false }

pub pb_decode_tag-Reads :
    (w f : ℕ) → IsTag w f → 0 < f → Reads pb_decode_tag (tag_bytes w f) (header w f)
unfolding pb_decode_tag
pb_decode_tag-Reads w f t pos rest n e =
    rw (pb_decode_varint32-Reads (w + f * 8) (omega (arith, t.wire, t.small)) rest n e)
      (ground (arith, bit_and-mask 3 (w + f * 8), t.wire))

-- At the end of the input `eof` is set.
pub pb_decode_tag-end :
    (xs : List ℕ) (e : Option Error)
    → pb_decode_tag (input xs 0 e) ≡ ok (no_tag true) (input xs 0 (set_error end_of_stream e))
unfolding pb_decode_tag pb_decode_varint32
pb_decode_tag-end xs e = rw (pb_readbyte-empty xs e)

-- A zero byte ends a message as well, and is taken.
pub pb_decode_tag-zero : Reads pb_decode_tag (0 ∷ []) (no_tag true)
unfolding pb_decode_tag
pb_decode_tag-zero rest n e = rw (zero_read rest n e)
  where
    zero_read : Reads pb_decode_varint32 (0 ∷ []) 0
    zero_read = unfold groups in pb_decode_varint32-Reads 0 (omega arith)
