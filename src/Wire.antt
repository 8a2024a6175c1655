-- ===== src/Wire.antt =====
-- The wire format: the codec functions of pb_encode.c and pb_decode.c that work on a stream alone.
pub mod Encode
pub mod Decode
pub mod Varint
pub mod Scalars
pub mod Fields
pub mod Safe
pub mod RoundTrip
