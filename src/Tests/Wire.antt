-- ===== src/Tests/Wire.antt =====
-- Varints, tags and payloads of a small message.
use ios_college_work.Common.{◌-◌, ◌^◌, ◌≡◌, refl, none, some, [], ◌∷◌, ◌++◌, arith, ok, err}
use ios_college_work.Stream.Buffers.{input, output}
use ios_college_work.Stream.Writes.{HasRoom}
use ios_college_work.Stream.Safe.{Safe}
use ios_college_work.Stream.Errors.{parent_stream_too_short}
use ios_college_work.Wire.Encode.{
  pb_encode_varint, zigzagged, pb_encode_svarint, fixed32_bytes, fixed64_bytes, pb_encode_fixed32,
  pb_encode_fixed64, pb_encode_tag,
}
use ios_college_work.Wire.Decode.{
  pb_decode_varint, pb_decode_varint32, pb_decode_svarint, pb_decode_fixed32, pb_decode_fixed64,
  pb_decode_tag, pb_skip_field, pb_make_string_substream, pb_close_string_substream,
}
use ios_college_work.Wire.Varint.{groups, varint}
use ios_college_work.Wire.Scalars.Zigzag.{zigzagged_lem}
use ios_college_work.Wire.Fields.Tag.{IsTag, header}
use ios_college_work.Wire.Fields.Skip.{encode_payload, string_value}
use ios_college_work.Wire.Fields.Substream.{substream-roundtrip, pb_make_string_substream-short}
use ios_college_work.Wire.Safe.{pb_decode_varint-Safe, pb_skip_field-Safe}
use ios_college_work.Wire.RoundTrip.{
  varint-roundtrip, varint32-roundtrip, svarint-roundtrip, fixed32-roundtrip, fixed64-roundtrip,
  tag-roundtrip, skip-roundtrip,
}

-- A buffer of sixteen bytes with one of them written.
wide : HasRoom 15 16 1
wide = record { within = omega arith; holds = omega arith; bound = omega arith }

varint_300 : varint 300 ≡ 0xac ∷ 0x02 ∷ []
unfolding groups
varint_300 = refl

varint-roundtrip_example :
    (pb_encode_varint 300 (output (7 ∷ []) 15 16 1 none)
      ≡ ok tt (output (7 ∷ varint 300) 13 16 3 none))
    × (pb_decode_varint (input (varint 300 ++ (9 ∷ [])) 3 none) ≡ ok 300 (input (9 ∷ []) 1 none))
unfolding groups
varint-roundtrip_example =
    varint-roundtrip (7 ∷ []) 15 16 1 wide (9 ∷ []) 1 none 300 (omega arith) (omega arith)

varint32-roundtrip_example :
    (pb_encode_varint 300 (output (7 ∷ []) 15 16 1 none)
      ≡ ok tt (output (7 ∷ varint 300) 13 16 3 none))
    × (pb_decode_varint32 (input (varint 300 ++ (9 ∷ [])) 3 none) ≡ ok 300 (input (9 ∷ []) 1 none))
unfolding groups
varint32-roundtrip_example =
    varint32-roundtrip (7 ∷ []) 15 16 1 wide (9 ∷ []) 1 none 300 (omega arith) (omega arith)

-- The number -150.
svarint-roundtrip_example :
    (pb_encode_svarint (2 ^ 64 - 150) (output (7 ∷ []) 15 16 1 none)
      ≡ ok tt (output (7 ∷ varint 299) 13 16 3 none))
    × (pb_decode_svarint (input (varint 299 ++ (9 ∷ [])) 3 none)
        ≡ ok (2 ^ 64 - 150) (input (9 ∷ []) 1 none))
unfolding groups zigzagged
svarint-roundtrip_example =
    svarint-roundtrip (7 ∷ []) 15 16 1 wide (9 ∷ []) 1 none (2 ^ 64 - 150) (omega arith)
      (omega arith)

zigzagged_lem_example : (zigzagged 75 ≡ 150) × (zigzagged (2 ^ 64 - 76) ≡ 151)
zigzagged_lem_example = zigzagged_lem 75 (omega arith)

fixed32-roundtrip_example :
    (pb_encode_fixed32 0x01020304 (output (7 ∷ []) 15 16 1 none)
      ≡ ok tt (output (7 ∷ 4 ∷ 3 ∷ 2 ∷ 1 ∷ []) 11 16 5 none))
    × (pb_decode_fixed32 (input (4 ∷ 3 ∷ 2 ∷ 1 ∷ 9 ∷ []) 5 none)
        ≡ ok 0x01020304 (input (9 ∷ []) 1 none))
unfolding fixed32_bytes
fixed32-roundtrip_example =
    fixed32-roundtrip (7 ∷ []) 15 16 1 wide (9 ∷ []) 1 none 0x01020304 (omega arith) (omega arith)

fixed64-roundtrip_example :
    (pb_encode_fixed64 513 (output (7 ∷ []) 15 16 1 none)
      ≡ ok tt (output (7 ∷ 1 ∷ 2 ∷ 0 ∷ 0 ∷ 0 ∷ 0 ∷ 0 ∷ 0 ∷ []) 7 16 9 none))
    × (pb_decode_fixed64 (input (1 ∷ 2 ∷ 0 ∷ 0 ∷ 0 ∷ 0 ∷ 0 ∷ 0 ∷ 9 ∷ []) 9 none)
        ≡ ok 513 (input (9 ∷ []) 1 none))
unfolding fixed64_bytes
fixed64-roundtrip_example =
    fixed64-roundtrip (7 ∷ []) 15 16 1 wide (9 ∷ []) 1 none 513 (omega arith) (omega arith)

-- Field 3 of wire type 2.
three : IsTag 2 3
three = record { wire = omega arith; small = omega arith }

tag-roundtrip_example :
    (pb_encode_tag 2 3 (output (7 ∷ []) 15 16 1 none) ≡ ok tt (output (7 ∷ 26 ∷ []) 14 16 2 none))
    × (pb_decode_tag (input (26 ∷ 9 ∷ []) 2 none) ≡ ok (header 2 3) (input (9 ∷ []) 1 none))
unfolding groups
tag-roundtrip_example =
    tag-roundtrip (7 ∷ []) 15 16 1 wide (9 ∷ []) 1 none 2 3 three (omega arith) (omega arith)

skip-roundtrip_example :
    (encode_payload (string_value (5 ∷ 6 ∷ [])) (output (7 ∷ []) 15 16 1 none)
      ≡ ok tt (output (7 ∷ 2 ∷ 5 ∷ 6 ∷ []) 12 16 4 none))
    × (pb_skip_field 2 (input (2 ∷ 5 ∷ 6 ∷ 9 ∷ []) 4 none) ≡ ok tt (input (9 ∷ []) 1 none))
unfolding groups
skip-roundtrip_example =
    skip-roundtrip (7 ∷ []) 15 16 1 wide (9 ∷ []) 1 none (string_value (5 ∷ 6 ∷ [])) (omega arith)
      (omega arith)

-- A varint that does not end.
pb_decode_varint-Safe_example :
    Safe (0x80 ∷ 0x80 ∷ []) 2 (pb_decode_varint (input (0x80 ∷ 0x80 ∷ []) 2 none))
pb_decode_varint-Safe_example = pb_decode_varint-Safe (0x80 ∷ 0x80 ∷ []) 2 none (omega arith)

-- A string that is shorter than its length says.
pb_skip_field-Safe_example :
    Safe (200 ∷ 1 ∷ 5 ∷ []) 3 (pb_skip_field 2 (input (200 ∷ 1 ∷ 5 ∷ []) 3 none))
pb_skip_field-Safe_example = pb_skip_field-Safe 2 (200 ∷ 1 ∷ 5 ∷ []) 3 none (omega arith)

substream-roundtrip_example :
    (pb_make_string_substream (input (3 ∷ 5 ∷ 6 ∷ 7 ∷ 9 ∷ []) 5 none)
      ≡ ok (input (5 ∷ 6 ∷ 7 ∷ 9 ∷ []) 3 none) (input (5 ∷ 6 ∷ 7 ∷ 9 ∷ []) 1 none))
    × (pb_close_string_substream (input (6 ∷ 7 ∷ 9 ∷ []) 2 none) (input (5 ∷ 6 ∷ 7 ∷ 9 ∷ []) 1 none)
        ≡ ok tt (input (9 ∷ []) 1 none))
unfolding groups
substream-roundtrip_example =
    substream-roundtrip (5 ∷ []) (6 ∷ 7 ∷ []) (9 ∷ []) 1 none none (omega arith)

pb_make_string_substream-short_example :
    pb_make_string_substream (input (3 ∷ 5 ∷ 6 ∷ []) 3 none)
    ≡ err (input (5 ∷ 6 ∷ []) 2 (some parent_stream_too_short))
unfolding groups
pb_make_string_substream-short_example =
    pb_make_string_substream-short 3 2 (5 ∷ 6 ∷ []) none (omega arith) (omega arith)
