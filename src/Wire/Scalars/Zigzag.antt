-- ===== src/Wire/Scalars/Zigzag.antt =====
-- `pb_encode_svarint` and `pb_decode_svarint`. An `int64_t` is its bit pattern.
use ios_college_work.Common.{ℕ, ◌+◌, ◌-◌, ◌*◌, ◌%◌, ◌^◌, ◌<◌, ◌≡◌, arith}
use ios_college_work.Common.Bits.{bit_and-mask}
use ios_college_work.Stream.Writes.{Writes}
use ios_college_work.Stream.Reads.{Reads}
use ios_college_work.Wire.Encode.{zigzagged, pb_encode_svarint}
use ios_college_work.Wire.Decode.{unzigzag, pb_decode_svarint}
use ios_college_work.Wire.Varint.{varint}
use ios_college_work.Wire.Scalars.Varint.{pb_encode_varint-Writes, pb_decode_varint-Reads}

pub zigzagged-lt : (v : ℕ) → v < 2 ^ 64 → zigzagged v < 2 ^ 64
unfolding zigzagged
zigzagged-lt v h = ground arith

-- For m below 2 ^ 63, `pb_encode_svarint` turns the number m into 2 m, and -(m + 1) into 2 m + 1.
pub zigzagged_lem :
    (m : ℕ) → m < 2 ^ 63 → (zigzagged m ≡ 2 * m) × (zigzagged (2 ^ 64 - (m + 1)) ≡ 2 * m + 1)
unfolding zigzagged
zigzagged_lem m h = (ground arith, ground arith)

pub unzigzag-zigzagged : (v : ℕ) → v < 2 ^ 64 → unzigzag (zigzagged v) ≡ v
unfolding unzigzag zigzagged
unzigzag-zigzagged v h =
    ground (arith, bit_and-mask 1 (2 ^ 64 - 1 - v * 2 % 2 ^ 64), bit_and-mask 1 (v * 2 % 2 ^ 64))

pub pb_encode_svarint-Writes :
    (v : ℕ) → v < 2 ^ 64 → Writes (pb_encode_svarint v) (varint (zigzagged v))
unfolding pb_encode_svarint
pb_encode_svarint-Writes v h = pb_encode_varint-Writes (zigzagged v) (zigzagged-lt v h)

pub pb_decode_svarint-Reads :
    (v : ℕ) → v < 2 ^ 64 → Reads pb_decode_svarint (varint (zigzagged v)) v
unfolding pb_decode_svarint
pb_decode_svarint-Reads v h rest n e =
    rw (pb_decode_varint-Reads (zigzagged v) (zigzagged-lt v h) rest n e, unzigzag-zigzagged v h)
