-- ===== src/Stream.antt =====
-- The streams of nanopb: `pb_istream_t` and `pb_ostream_t` with the functions that move bytes through
-- them. The children hold the definitions; Stream/Errors has the messages of `PB_RETURN_ERROR`.
pub mod Errors
pub mod Input
pub mod Output
pub mod Buffers
pub mod Writes
pub mod Reads
pub mod Safe
