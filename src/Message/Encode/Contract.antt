-- ===== src/Message/Encode/Contract.antt =====
-- What the encoder writes for submessages, arrays, single fields and callback fields, in terms of what the
-- encoders of their items write.
pub mod Submessage
pub mod Items
pub mod Singular
pub mod Array
pub mod Callback
