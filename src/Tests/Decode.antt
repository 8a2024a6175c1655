-- ===== src/Tests/Decode.antt =====
-- Fields of 2, 4 and 8 bytes at the address 16, decoded from and encoded into small buffers.
use ios_college_work.Common.{if◌then◌else◌, ◌==◌, ℕ, ◌-◌, ◌^◌, ◌≡◌, refl, none, [], ◌∷◌, arith, ok}
use ios_college_work.Stream.Buffers.{input, output}
use ios_college_work.Stream.Writes.{HasRoom}
use ios_college_work.Wire.Varint.{groups}
use ios_college_work.Wire.Encode.{zigzagged, fixed64_bytes}
use ios_college_work.Message.Memory.{Mem, load, sign_extend}
use ios_college_work.Message.Field.{Field}
use ios_college_work.Message.Encode.Items.{
  is_word_size, pb_enc_varint, pb_enc_uvarint, pb_enc_svarint, pb_enc_bytes, pb_enc_fixed64,
}
use ios_college_work.Message.Encode.Contract.Items.{IsMem}
use ios_college_work.Message.Decode.Machine.{machine, store}
use ios_college_work.Message.Decode.Items.{
  pb_dec_varint, pb_dec_uvarint, pb_dec_svarint, pb_dec_fixed64, pb_dec_bytes, pb_dec_string,
}
use ios_college_work.Message.Decode.RoundTrip.{
  uvarint_item-roundtrip, varint_item-roundtrip, svarint_item-roundtrip,
}
use ios_college_work.Message.Decode.Bytes.{array_size_at, array_at, copied, bytes_item-roundtrip}
use ios_college_work.Message.Decode.Fixed.{fixed64_item-roundtrip}
use ios_college_work.Message.Decode.Contained.{Contained}
use ios_college_work.Message.Decode.Contained.Items.{
  pb_dec_bytes-Contained, pb_dec_string-Contained,
}

abbrev of_size : ℕ → Field
of_size size = record {
  tag = 1;
  type = 1;
  data_offset = 0;
  size_offset = 0;
  data_size = size;
  array_size = 0;
  ptr = 0;
}

abbrev ones : Mem
ones p = 255

abbrev zeros : Mem
zeros p = 0

ones-IsMem : IsMem ones
ones-IsMem p = omega arith

empty : HasRoom 16 16 0
empty = record { within = omega arith; holds = omega arith; bound = omega arith }

uvarint_item-roundtrip_example :
    (pb_enc_uvarint ones (of_size 2) 16 (output [] 16 16 0 none)
      ≡ ok tt (output (255 ∷ 255 ∷ 3 ∷ []) 13 16 3 none))
    × (pb_dec_uvarint (of_size 2) 16 (machine (input (255 ∷ 255 ∷ 3 ∷ 9 ∷ []) 4 none) zeros)
        ≡ ok tt (machine (input (9 ∷ []) 1 none) (store zeros 16 2 65535)))
    × (load (store zeros 16 2 65535) 16 2 ≡ 65535)
unfolding groups
uvarint_item-roundtrip_example =
    uvarint_item-roundtrip [] 16 16 0 empty ones-IsMem zeros (9 ∷ []) 1 none (of_size 2) 16 16
      (unfold is_word_size in refl) (omega arith)

-- The number -1 in four bytes, which takes ten bytes as a varint.
varint_item-roundtrip_example :
    (pb_enc_varint ones (of_size 4) 16 (output [] 16 16 0 none)
      ≡ ok tt (output (255 ∷ 255 ∷ 255 ∷ 255 ∷ 255 ∷ 255 ∷ 255 ∷ 255 ∷ 255 ∷ 1 ∷ []) 6 16 10 none))
    × (pb_dec_varint (of_size 4) 16 (
          machine
            (input (255 ∷ 255 ∷ 255 ∷ 255 ∷ 255 ∷ 255 ∷ 255 ∷ 255 ∷ 255 ∷ 1 ∷ 9 ∷ []) 11 none)
            zeros)
        ≡ ok tt (machine (input (9 ∷ []) 1 none) (store zeros 16 4 (2 ^ 64 - 1))))
    × (load (store zeros 16 4 (2 ^ 64 - 1)) 16 4 ≡ 2 ^ 32 - 1)
unfolding groups sign_extend
varint_item-roundtrip_example =
    varint_item-roundtrip [] 16 16 0 empty ones-IsMem zeros (9 ∷ []) 1 none (of_size 4) 16 16
      (unfold is_word_size in refl) (omega arith)

svarint_item-roundtrip_example :
    (pb_enc_svarint ones (of_size 4) 16 (output [] 16 16 0 none)
      ≡ ok tt (output (1 ∷ []) 15 16 1 none))
    × (pb_dec_svarint (of_size 4) 16 (machine (input (1 ∷ 9 ∷ []) 2 none) zeros)
        ≡ ok tt (machine (input (9 ∷ []) 1 none) (store zeros 16 4 (2 ^ 64 - 1))))
    × (load (store zeros 16 4 (2 ^ 64 - 1)) 16 4 ≡ 2 ^ 32 - 1)
unfolding groups sign_extend zigzagged
svarint_item-roundtrip_example =
    svarint_item-roundtrip [] 16 16 0 empty ones-IsMem zeros (9 ∷ []) 1 none (of_size 4) 16 16
      (unfold is_word_size in refl) (omega arith)

pb_dec_bytes-Contained_example :
    Contained 16 6
      (2 ∷ 5 ∷ 6 ∷ [])
      3
      zeros
      (pb_dec_bytes (of_size 6) 16 (machine (input (2 ∷ 5 ∷ 6 ∷ []) 3 none) zeros))
pb_dec_bytes-Contained_example =
    pb_dec_bytes-Contained (of_size 6) 16 (2 ∷ 5 ∷ 6 ∷ []) 3 none zeros (omega arith)

pb_dec_string-Contained_example :
    Contained 16 3
      (2 ∷ 65 ∷ 66 ∷ [])
      3
      zeros
      (pb_dec_string (of_size 3) 16 (machine (input (2 ∷ 65 ∷ 66 ∷ []) 3 none) zeros))
pb_dec_string-Contained_example =
    pb_dec_string-Contained (of_size 3) 16 (2 ∷ 65 ∷ 66 ∷ []) 3 none zeros (omega arith)

-- A bytes array of size 2 at the address 16.
abbrev pair : Mem
pair p = if p == 16 then 2 else if p == 20 then 5 else if p == 21 then 6 else 0

pair-IsMem : IsMem pair
pair-IsMem p = ground arith

bytes_item-roundtrip_example :
    (pb_enc_bytes pair (of_size 6) 16 (output [] 16 16 0 none)
      ≡ ok tt (output (2 ∷ 5 ∷ 6 ∷ []) 13 16 3 none))
    × (pb_dec_bytes (of_size 6) 32 (machine (input (2 ∷ 5 ∷ 6 ∷ 9 ∷ []) 4 none) zeros)
        ≡ ok tt (machine (input (9 ∷ []) 1 none) (copied pair 16 zeros 32)))
    × (array_size_at (copied pair 16 zeros 32) 32 ≡ 2)
    × (array_at (copied pair 16 zeros 32) 32 ≡ 5 ∷ 6 ∷ [])
unfolding groups
bytes_item-roundtrip_example =
    bytes_item-roundtrip [] 16 16 0 empty pair-IsMem zeros (9 ∷ []) 1 none (of_size 6) 16 32 refl
      (omega arith) (omega arith) (omega arith)

fixed64_item-roundtrip_example :
    (pb_enc_fixed64 pair (of_size 8) 16 (output [] 16 16 0 none)
      ≡ ok tt (output (2 ∷ 0 ∷ 0 ∷ 0 ∷ 5 ∷ 6 ∷ 0 ∷ 0 ∷ []) 8 16 8 none))
    × (pb_dec_fixed64
          (of_size 8)
          32
          (machine (input (2 ∷ 0 ∷ 0 ∷ 0 ∷ 5 ∷ 6 ∷ 0 ∷ 0 ∷ 9 ∷ []) 9 none) zeros)
        ≡ ok tt (machine (input (9 ∷ []) 1 none) (store zeros 32 8 (load pair 16 8))))
    × (load (store zeros 32 8 (load pair 16 8)) 32 8 ≡ load pair 16 8)
unfolding fixed64_bytes
fixed64_item-roundtrip_example =
    fixed64_item-roundtrip [] 16 16 0 empty pair-IsMem zeros (9 ∷ []) 1 none (of_size 8) 16 32
      (omega arith)
