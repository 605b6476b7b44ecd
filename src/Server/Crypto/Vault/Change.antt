-- ===== src/Server/Crypto/Vault/Change.antt =====
-- What a change of the password does to the data key.
use copywraith.Common.{◌≡◌, refl, ◌∙◌, Bool, true, none, some, length}
use copywraith.Common.Text.{Text, Bytes, as_bytes}
use copywraith.Common.Outcome.{ok, err}
use copywraith.Server.Crypto.Primitives.{Primitives, Lawful}
use copywraith.Server.Crypto.Vault.{
  AuthConfig, holds, CryptoState, lock, wrap_dek, conclude, verify_slow, change_password,
  save_wrapped, rewrap, after_verify, old_password_incorrect,
}
use copywraith.Server.Crypto.Vault.Unlock.{verify_slow-wrap_dek}
use copywraith.Server.Crypto.Vault.Consistent.{change_password-steps}

module _ (p : Primitives) where
  -- A refused old password leaves the whole state as it was.
  pub change_password-refused :
      (write_ok : Bool) (salt nonce : Bytes) (old new : Text) (s : CryptoState)
      (config : AuthConfig)
      → s.auth_config ≡ some config
      → verify_slow p old config ≡ ok none
      → change_password p write_ok salt nonce old new s ≡ (err old_password_incorrect, s)
  unfolding after_verify conclude lock
  change_password-refused write_ok salt nonce old new s config h refused =
      change_password-steps p write_ok salt nonce old new s config h ∙ rw refused refl

  -- Where the old password unwraps a key of 32 bytes, the new wrapping succeeds with a nonce of
  -- twelve, and the file is written, a change of the password succeeds and keeps that key: the state
  -- holds it, and the new password unwraps it from the configuration that is now on disk.
  pub change_password-keeps_dek :
      (lawful : Lawful p) (salt nonce dek : Bytes) (old new : Text) (s : CryptoState)
      (config replaced : AuthConfig)
      → s.auth_config ≡ some config
      → verify_slow p old config ≡ ok (some dek)
      → length nonce ≡ 12
      → length dek ≡ 32
      → wrap_dek p new salt nonce dek ≡ ok replaced
      → (t : CryptoState) × (change_password p true salt nonce old new s ≡ (ok tt, t))
        × (t.dek ≡ some dek)
        × (t.auth_file ≡ holds replaced)
        × (verify_slow p new replaced ≡ ok (some dek))
  unfolding after_verify conclude rewrap save_wrapped
  change_password-keeps_dek lawful salt nonce dek old new s config replaced h verifies nonce12 dek32
        wraps =
      (
        record {
          auth_file = holds replaced;
          auth_config = some replaced;
          dek = some dek;
          password_hash_cache = some (p.sha256 (as_bytes new));
        },
        change_password-steps p true salt nonce old new s config h ∙ rw (verifies, wraps) refl,
        refl,
        refl,
        verify_slow-wrap_dek p lawful new salt nonce dek replaced nonce12 dek32 wraps,
      )
