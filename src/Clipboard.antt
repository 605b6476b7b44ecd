-- ===== src/Clipboard.antt =====
-- src-tauri/src/native_clipboard.rs: file paths and the URIs that stand for them.
pub mod Paths
