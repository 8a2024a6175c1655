-- ===== src/Message/Decode.antt =====
-- The decoder of fields (pb_decode.c).
pub mod Machine
pub mod Env
pub mod Defaults
pub mod Items
pub mod Nest
pub mod Static
pub mod Callbacks
pub mod Fields
pub mod Extensions
pub mod Messages
pub mod RoundTrip
pub mod Bytes
pub mod Fixed
pub mod Contained
pub mod Layout
pub mod Required
pub mod Unknown
pub mod Within
pub mod Trip
