-- ===== src/Server/Crypto/Vault/Unlock.antt =====
-- What set-up wraps, the password unwraps.
use copywraith.Common.{inr, inl, Bool-cases, Option, ◌≡◌, refl, sym, true, none, some, length}
use copywraith.Common.Outcome.{err, Outcome, ok, >>=-eq-ok, ok_or-eq-ok, ok-injective}
use copywraith.Server.Crypto.Vault.{
  cache_matches, VaultError, AuthFile, conclude, AuthConfig, holds, CryptoState, load, lock,
  wrap_dek, setup_password, verify_slow, verify_and_unlock, auth_info, kek_info,
}
use copywraith.Common.Text.{Text, Bytes, as_bytes}
use copywraith.Server.Crypto.Primitives.{Primitives, Lawful}
use copywraith.Server.Crypto.Primitives.Compare.{constant_time_eq_same}

module _ (p : Primitives) (lawful : Lawful p) where
  -- The steps of `wrap_dek`, where it succeeds.
  record Wrapped (password : Text) (salt nonce dek : Bytes) (config : AuthConfig) : Type 0 where
    master : Bytes
    auth : Bytes
    kek : Bytes
    sealed : Bytes
    derived : p.argon2 (as_bytes password) salt ≡ some master
    authenticates : p.hkdf master auth_info ≡ some auth
    encrypts : p.hkdf master kek_info ≡ some kek
    seals : p.seal kek nonce dek ≡ some sealed
    is_config : config ≡ record {
      version = 1;
      argon2_salt = p.base64_encode salt;
      auth_key = p.base64_encode auth;
      encrypted_dek = p.base64_encode sealed;
      dek_nonce = p.base64_encode nonce;
    }

  wrap_dek-Wrapped :
      (password : Text) (salt nonce dek : Bytes) (config : AuthConfig)
      → wrap_dek p password salt nonce dek ≡ ok config
      → Wrapped password salt nonce dek config
  unfolding wrap_dek
  wrap_dek-Wrapped password salt nonce dek config h =
      let (master, e1, h1) = >>=-eq-ok _ _ h in
      let (auth, e2, h2) = >>=-eq-ok _ _ h1 in
      let (kek, e3, h3) = >>=-eq-ok _ _ h2 in
      let (sealed, e4, h4) = >>=-eq-ok _ _ h3 in
      record {
        master = master;
        auth = auth;
        kek = kek;
        sealed = sealed;
        derived = ok_or-eq-ok _ _ e1;
        authenticates = ok_or-eq-ok _ _ e2;
        encrypts = ok_or-eq-ok _ _ e3;
        seals = ok_or-eq-ok _ _ e4;
        is_config = sym (ok-injective h4);
      }

  -- The key unwraps from the pieces that were sealed.
  verify_slow-Wrapped :
      (password : Text) (salt nonce dek : Bytes) (config : AuthConfig)
      → length nonce ≡ 12
      → length dek ≡ 32
      → Wrapped password salt nonce dek config
      → verify_slow p password config ≡ ok (some dek)
  unfolding verify_slow
  verify_slow-Wrapped password salt nonce dek config nonce12 dek32 w =
      rw
        (
          w.is_config,
          verify_slow,
          lawful.decode-encode salt,
          lawful.decode-encode w.auth,
          w.derived,
          w.authenticates,
          constant_time_eq_same w.auth,
          w.encrypts,
          lawful.decode-encode w.sealed,
          lawful.decode-encode nonce,
          nonce12,
          lawful.unseal-seal w.kek nonce dek w.sealed w.seals,
          dek32,
        )
        refl

  -- The configuration that wraps a key of 32 bytes under a password, with a nonce of twelve, gives
  -- that key back to the password.
  pub verify_slow-wrap_dek :
      (password : Text) (salt nonce dek : Bytes) (config : AuthConfig)
      → length nonce ≡ 12
      → length dek ≡ 32
      → wrap_dek p password salt nonce dek ≡ ok config
      → verify_slow p password config ≡ ok (some dek)
  verify_slow-wrap_dek password salt nonce dek config nonce12 dek32 h =
      verify_slow-Wrapped password salt nonce dek config nonce12 dek32
        (wrap_dek-Wrapped password salt nonce dek config h)

  -- A set-up of a vault with no configuration, whose wrapping of a key of 32 bytes with a nonce of
  -- twelve succeeds and whose file is written, leaves the vault unlocked with that key. A restart
  -- from its file gives the same state locked, and the password unlocks that to the state that the
  -- set-up left.
  pub setup_password-unlocks :
      (password : Text) (salt nonce dek : Bytes) (config : AuthConfig) (s : CryptoState)
      → s.auth_config ≡ none
      → length nonce ≡ 12
      → length dek ≡ 32
      → wrap_dek p password salt nonce dek ≡ ok config
      → (t : CryptoState) × (setup_password p true salt nonce dek password s ≡ (ok tt, t))
        × (t.dek ≡ some dek)
        × (load t.auth_file ≡ ok (lock t))
        × (verify_and_unlock p password (lock t) ≡ (ok true, t))
  unfolding setup_password load lock verify_and_unlock
  setup_password-unlocks password salt nonce dek config s fresh nonce12 dek32 h = (
    record {
      auth_file = holds config;
      auth_config = some config;
      dek = some dek;
      password_hash_cache = some (p.sha256 (as_bytes password));
    },
    rw (fresh, setup_password, h) refl,
    refl,
    refl,
    rw (verify_slow-wrap_dek password salt nonce dek config nonce12 dek32 h) refl,
  )

module _ (p : Primitives) where
  conclude-config :
      (password : Text) (found : Outcome VaultError (Option Bytes)) (c : CryptoState)
      → (conclude p password found c).1.auth_config ≡ c.auth_config
  unfolding conclude
  conclude-config password (err e) c = refl
  conclude-config password (ok none) c = refl
  conclude-config password (ok (some dek)) c = refl

  verified_config :
      (password : Text) (file : AuthFile) (config : Option AuthConfig) (dek cache : Option Bytes)
      → (verify_and_unlock p password (record {
        auth_file = file;
        auth_config = config;
        dek = dek;
        password_hash_cache = cache;
      })).1.auth_config
        ≡ config
  unfolding verify_and_unlock
  verified_config password file none dek cache = refl
  verified_config password file (some d) dek cache =
      elim (Bool-cases (cache_matches p password cache)) [
        | inl y ↦ rw y refl
        | inr n ↦ rw n (conclude-config password (verify_slow p password d) _)
      ]

  -- Verification does not touch the configuration.
  pub verify_and_unlock-config :
      (password : Text) (c : CryptoState)
      → (verify_and_unlock p password c).1.auth_config ≡ c.auth_config
  verify_and_unlock-config password c =
      verified_config password c.auth_file c.auth_config c.dek c.password_hash_cache
