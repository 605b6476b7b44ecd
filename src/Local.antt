-- ===== src/Local.antt =====
-- src-tauri/src: the desktop and mobile client.
pub mod Table
pub mod Settings
pub mod Storage
pub mod Insert
pub mod Agree
pub mod Protocol
