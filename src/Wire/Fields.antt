-- ===== src/Wire/Fields.antt =====
-- Fields on the wire: a tag, and a payload whose form the wire type tells.
pub mod Tag
pub mod Skip
pub mod Substream
