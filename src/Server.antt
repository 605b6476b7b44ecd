-- ===== src/Server.antt =====
-- server/src: the sync server.
pub mod Crypto
pub mod Records
pub mod Store
pub mod Listing
pub mod Query
pub mod Api
