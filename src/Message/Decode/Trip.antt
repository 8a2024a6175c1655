-- ===== src/Message/Decode/Trip.antt =====
-- What `pb_encode` has written, `pb_decode_noinit` reads back.
pub mod Walk
pub mod Takes
pub mod Static
pub mod Count
pub mod Rounds
pub mod Loop
pub mod Feed
pub mod Whole
pub mod Unknown
pub mod Numbers
pub mod Arrays
pub mod Strings
pub mod Nested
pub mod Plan
pub mod Items
pub mod Entry
pub mod Place
pub mod Messages
pub mod Defaults
pub mod Final
pub mod Size
pub mod Extended
