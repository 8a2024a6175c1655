-- ===== src/Tests.antt =====
-- The results at concrete inputs.
pub mod Wire
pub mod Message
pub mod Decode
pub mod Layouts
pub mod Messages
pub mod Person
pub mod Trip
