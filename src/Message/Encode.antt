-- ===== src/Message/Encode.antt =====
-- pb_encode.c above the wire format: a message in memory becomes bytes on a stream.
pub mod Env
pub mod Items
pub mod Default
pub mod Fields
pub mod Messages
pub mod Contract
