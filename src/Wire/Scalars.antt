-- ===== src/Wire/Scalars.antt =====
-- What each helper function writes, and that its counterpart reads it back: varints, zigzag varints and
-- fixed-size words.
pub mod Varint
pub mod Zigzag
pub mod Fixed
