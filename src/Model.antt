-- ===== src/Model.antt =====
-- crates/copywraith-core/src/models.rs: content types, clipboard flavors and entries.
pub mod Flavors
pub mod Entry
