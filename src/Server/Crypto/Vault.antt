-- ===== src/Server/Crypto/Vault.antt =====
-- `CryptoState` of server/src/crypto.rs: set up, unlock, change and lock. The random salt, key and
-- nonce, and whether auth.json could be written, are arguments. The file is taken to read back as
-- the configuration that was written (serde_json), or not at all.
pub mod Unlock
pub mod Consistent
pub mod Change
use copywraith.Common.{
  ℕ, Bool, true, false, not, Option, none, some, ◌==◌, if◌then◌else◌, length, is_some,
}
use copywraith.Common.Text.{Text, Bytes, codes, as_bytes}
use copywraith.Common.Outcome.{Outcome, ok, err, ◌>>=◌, ok_or}
use copywraith.Server.Crypto.Primitives.{Primitives, constant_time_eq}

pub data VaultError : Type 0 where
  already_configured not_configured old_password_incorrect : VaultError
  bad_base64 argon2_failed hkdf_failed bad_nonce seal_failed unseal_failed : VaultError
  wrong_dek_length dek_unavailable write_failed invalid_config : VaultError

pub record AuthConfig : Type 0 where
  pub version : ℕ
  pub argon2_salt : Text
  pub auth_key : Text
  pub encrypted_dek : Text
  pub dek_nonce : Text

-- {data_dir}/auth.json
pub data AuthFile : Type 0 where
  missing : AuthFile
  holds : AuthConfig → AuthFile
  corrupt : AuthFile

pub record CryptoState : Type 0 where
  pub auth_file : AuthFile
  pub auth_config : Option AuthConfig
  pub dek : Option Bytes
  pub password_hash_cache : Option Bytes

abbrev loaded : AuthFile → Option AuthConfig → CryptoState
loaded file config = record {
  auth_file = file;
  auth_config = config;
  dek = none;
  password_hash_cache = none;
}

-- A configuration that does not parse stops the start, so that no set-up can replace it.
unfoldable pub load : AuthFile → Outcome VaultError CryptoState
load missing = ok (loaded missing none)
load (holds config) = ok (loaded (holds config) (some config))
load corrupt = err invalid_config

unfoldable pub is_initialized : CryptoState → Bool
is_initialized s = is_some s.auth_config

unfoldable pub is_unlocked : CryptoState → Bool
is_unlocked s = is_some s.dek

unfoldable pub get_dek : CryptoState → Option Bytes
get_dek s = s.dek

unfoldable pub lock : CryptoState → CryptoState
lock s = record s { dek = none; password_hash_cache = none }

abbrev pub auth_info : Bytes
auth_info = codes "copywraith-auth"

abbrev pub kek_info : Bytes
kek_info = codes "copywraith-kek"

module _ (p : Primitives) where
  open p use {argon2, hkdf, seal, unseal, sha256, base64_encode, base64_decode}

  -- The configuration that wraps `dek` under a password.
  unfoldable pub wrap_dek : Text → Bytes → Bytes → Bytes → Outcome VaultError AuthConfig
  wrap_dek password salt nonce dek = do
    master_key ← ok_or argon2_failed (argon2 (as_bytes password) salt)
    auth_key ← ok_or hkdf_failed (hkdf master_key auth_info)
    kek ← ok_or hkdf_failed (hkdf master_key kek_info)
    encrypted_dek ← ok_or seal_failed (seal kek nonce dek)
    ok (record {
      version = 1;
      argon2_salt = base64_encode salt;
      auth_key = base64_encode auth_key;
      encrypted_dek = base64_encode encrypted_dek;
      dek_nonce = base64_encode nonce;
    })

  -- auth.json is replaced first, then the memory.
  save_config :
      Bool → AuthConfig → Bytes → Text → CryptoState → Outcome VaultError (Unit {0}) × CryptoState
  save_config write_ok config dek password s =
      if write_ok
      then (
        ok tt,
        record {
          auth_file = holds config;
          auth_config = some config;
          dek = some dek;
          password_hash_cache = some (sha256 (as_bytes password));
        },
      )
      else (err write_failed, s)

  save_wrapped :
      Bool
      → Outcome VaultError AuthConfig
      → Bytes
      → Text
      → CryptoState
      → Outcome VaultError (Unit {0}) × CryptoState
  unfolding save_config
  save_wrapped write_ok (err e) dek password s = (err e, s)
  save_wrapped write_ok (ok config) dek password s = save_config write_ok config dek password s

  unfoldable pub setup_password :
      Bool
      → Bytes
      → Bytes
      → Bytes
      → Text
      → CryptoState
      → Outcome VaultError (Unit {0}) × CryptoState
  unfolding save_wrapped wrap_dek
  setup_password write_ok salt nonce dek password s =
      if is_some s.auth_config
      then (err already_configured, s)
      else save_wrapped write_ok (wrap_dek password salt nonce dek) dek password s

  -- The key as unwrapped from the configuration, once the password is verified.
  unwrap_dek : AuthConfig → Bytes → Outcome VaultError Bytes
  unwrap_dek config master_key = do
    kek ← ok_or hkdf_failed (hkdf master_key kek_info)
    encrypted_dek ← ok_or bad_base64 (base64_decode config.encrypted_dek)
    nonce ← ok_or bad_base64 (base64_decode config.dek_nonce)
    dek ←
        (if length nonce == 12
          then ok_or unseal_failed (unseal kek nonce encrypted_dek)
          else err bad_nonce)
    if length dek == 32 then ok dek else err wrong_dek_length

  verified : Bool → Outcome VaultError Bytes → Outcome VaultError (Option Bytes)
  verified false unwrapped = ok none
  verified true unwrapped = do dek ← unwrapped; ok (some dek)

  -- The slow path: `none` for a password that does not verify.
  unfoldable pub verify_slow : Text → AuthConfig → Outcome VaultError (Option Bytes)
  unfolding unwrap_dek constant_time_eq verified
  verify_slow password config = do
    salt ← ok_or bad_base64 (base64_decode config.argon2_salt)
    stored_auth_key ← ok_or bad_base64 (base64_decode config.auth_key)
    master_key ← ok_or argon2_failed (argon2 (as_bytes password) salt)
    auth_key ← ok_or hkdf_failed (hkdf master_key auth_info)
    verified (constant_time_eq auth_key stored_auth_key) (unwrap_dek config master_key)

  pub conclude :
      Text → Outcome VaultError (Option Bytes) → CryptoState → Outcome VaultError Bool × CryptoState
  conclude password (err e) s = (err e, s)
  conclude password (ok none) s = (ok false, s)
  conclude password (ok (some dek)) s = (
    ok true,
    record s { dek = some dek; password_hash_cache = some (sha256 (as_bytes password)) },
  )

  -- The fast path compares with the digest of the password that was verified last.
  unfoldable pub cache_matches : Text → Option Bytes → Bool
  unfolding constant_time_eq
  cache_matches password none = false
  cache_matches password (some cached) = constant_time_eq (sha256 (as_bytes password)) cached

  unfoldable pub verify_and_unlock : Text → CryptoState → Outcome VaultError Bool × CryptoState
  unfolding conclude verify_slow cache_matches
  verify_and_unlock password s = elim s.auth_config [
    | none ↦ (err not_configured, s)
    | some config ↦
        if cache_matches password s.password_hash_cache
        then (ok true, s)
        else conclude password (verify_slow password config) s
  ]

  rewrap :
      Bool
      → Bytes
      → Bytes
      → Text
      → Option Bytes
      → CryptoState
      → Outcome VaultError (Unit {0}) × CryptoState
  unfolding save_wrapped
  rewrap write_ok salt nonce password none s = (err dek_unavailable, s)
  rewrap write_ok salt nonce password (some dek) s =
      save_wrapped write_ok (wrap_dek password salt nonce dek) dek password s

  pub after_verify :
      Bool
      → Bytes
      → Bytes
      → Text
      → CryptoState
      → Outcome VaultError Bool × CryptoState
      → Outcome VaultError (Unit {0}) × CryptoState
  unfolding rewrap
  after_verify write_ok salt nonce password before (err e, s) = (err e, s)
  after_verify write_ok salt nonce password before (ok false, s) = (
    err old_password_incorrect,
    record s { dek = before.dek; password_hash_cache = before.password_hash_cache },
  )
  after_verify write_ok salt nonce password before (ok true, s) =
      rewrap write_ok salt nonce password s.dek s

  -- The caches are taken away first, so that the old password goes through the slow path.
  unfoldable pub change_password :
      Bool → Bytes → Bytes → Text → Text → CryptoState → Outcome VaultError (Unit {0}) × CryptoState
  unfolding after_verify verify_and_unlock lock
  change_password write_ok salt nonce old_password new_password s =
      after_verify write_ok salt nonce new_password s (verify_and_unlock old_password (lock s))
