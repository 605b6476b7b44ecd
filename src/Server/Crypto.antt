-- ===== src/Server/Crypto.antt =====
-- server/src/crypto.rs. `Vault` is `CryptoState` with its auth.json, `Cipher` the text and blob
-- formats. Argon2, HKDF, AES-GCM, SHA-256 and base64 are `Primitives`.
pub mod Primitives
pub mod Cipher
pub mod Vault
