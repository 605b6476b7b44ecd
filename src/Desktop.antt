-- ===== src/Desktop.antt =====
-- src-tauri/src/linux: the desktop integration of the client.
pub mod Shortcuts
