-- ===== src/Content.antt =====
-- crates/copywraith-core/src/content.rs: hashes, HTML and RTF to plain text, masks, image formats.
pub mod Hash
pub mod Html
pub mod Rtf
pub mod Mask
pub mod Image
