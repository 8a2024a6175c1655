-- ===== src/Message.antt =====
-- Messages: C structures in memory, described by tables of fields.
pub mod Memory
pub mod Field
pub mod Iter
pub mod Encode
pub mod Decode
