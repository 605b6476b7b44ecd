-- ===== src/Sync.antt =====
-- src-tauri/src/sync.rs: pushing local entries to the server and pulling remote ones.
pub mod Key
pub mod Endpoint
pub mod Transfer
pub mod Push
pub mod Fetch
pub mod Paging
pub mod Pull
pub mod Ingest
