-- ===== src/Sensitive.antt =====
-- crates/copywraith-core/src/sensitive.rs: which clipboard text looks like a secret.
pub mod Luhn
pub mod Tokens
pub mod Detect
