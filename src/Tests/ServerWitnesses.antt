-- ===== src/Tests/ServerWitnesses.antt =====
-- The theorems about server/src/crypto.rs with primitives that can be run.
use copywraith.Tests.Plain.{tag, fresh, plain-Lawful, dek32, set_up, nonce12, config, plain}
use copywraith.Common.{◌≡◌, refl, true, some, [], ◌∷◌, ◌++◌, ◌↔◌}
use copywraith.Common.Text.{Text, Bytes, codes, as_bytes}
use copywraith.Common.Outcome.{ok, err}
use copywraith.Common.Utf8.{from_utf8}
use copywraith.Common.Utf8.Laws.{from_utf8-as_bytes}
use copywraith.Server.Crypto.Primitives.{constant_time_eq}
use copywraith.Server.Crypto.Primitives.Compare.{constant_time_eq_iff}
use copywraith.Server.Crypto.Cipher.{
  encrypt_text, decrypt_text, encrypt_blob, decrypt_blob, is_encrypted_text, is_encrypted_blob,
}
use copywraith.Server.Crypto.Cipher.RoundTrip.{decrypt_text-encrypt_text, decrypt_blob-encrypt_blob}
use copywraith.Server.Crypto.Vault.{
  AuthConfig, holds, CryptoState, load, lock, wrap_dek, setup_password, verify_slow,
  verify_and_unlock, change_password, old_password_incorrect,
}
use copywraith.Server.Crypto.Vault.Unlock.{setup_password-unlocks}
use copywraith.Server.Crypto.Vault.Change.{change_password-refused, change_password-keeps_dek}

from_utf8-as_bytes_example : from_utf8 (as_bytes (codes "añ€")) ≡ some (codes "añ€")
from_utf8-as_bytes_example = from_utf8-as_bytes (codes "añ€") (refl, (refl, (refl, tt)))

constant_time_eq_iff_example :
    (constant_time_eq (1 ∷ 2 ∷ []) (1 ∷ 3 ∷ []) ≡ true)
    ↔ (◌≡◌ {A = Bytes} (1 ∷ 2 ∷ []) (1 ∷ 3 ∷ []))
constant_time_eq_iff_example = constant_time_eq_iff (1 ∷ 2 ∷ []) (1 ∷ 3 ∷ [])

decrypt_text-encrypt_text_example :
    (stored : Text) × (encrypt_text plain nonce12 dek32 (codes "héllo") ≡ ok stored)
    × (is_encrypted_text stored ≡ true)
    × (decrypt_text plain dek32 stored ≡ ok (codes "héllo"))
unfolding as_bytes
decrypt_text-encrypt_text_example =
    decrypt_text-encrypt_text plain plain-Lawful dek32 nonce12 (as_bytes (codes "héllo") ++ tag)
      (codes "héllo") refl (refl, (refl, (refl, (refl, (refl, tt))))) refl

decrypt_blob-encrypt_blob_example :
    (stored : Bytes) × (encrypt_blob plain nonce12 dek32 (1 ∷ 2 ∷ []) ≡ ok stored)
    × (is_encrypted_blob stored ≡ true)
    × (decrypt_blob plain dek32 stored ≡ ok (1 ∷ 2 ∷ []))
decrypt_blob-encrypt_blob_example =
    decrypt_blob-encrypt_blob plain plain-Lawful dek32 nonce12 (1 ∷ 2 ∷ tag) (1 ∷ 2 ∷ []) refl refl

setup_password-unlocks_example :
    (t : CryptoState) × (setup_password plain true (3 ∷ []) nonce12 dek32 (codes "pw") fresh
      ≡ (ok tt, t))
    × (t.dek ≡ some dek32)
    × (load t.auth_file ≡ ok (lock t))
    × (verify_and_unlock plain (codes "pw") (lock t) ≡ (ok true, t))
unfolding wrap_dek as_bytes
setup_password-unlocks_example =
    setup_password-unlocks plain plain-Lawful (codes "pw") (3 ∷ []) nonce12 dek32 config fresh refl
      refl refl refl

change_password-refused_example :
    change_password plain true (4 ∷ []) nonce12 (codes "no") (codes "new") set_up
    ≡ (err old_password_incorrect, set_up)
unfolding verify_slow as_bytes
change_password-refused_example =
    change_password-refused plain true (4 ∷ []) nonce12 (codes "no") (codes "new") set_up config
      refl refl

abbrev replaced : AuthConfig
replaced = record config { argon2_salt = 4 ∷ []; auth_key = codes "new" }

change_password-keeps_dek_example :
    (t : CryptoState) × (change_password plain true
        (4 ∷ [])
        nonce12
        (codes "pw")
        (codes "new")
        set_up
      ≡ (ok tt, t))
    × (t.dek ≡ some dek32)
    × (t.auth_file ≡ holds replaced)
    × (verify_slow plain (codes "new") replaced ≡ ok (some dek32))
unfolding verify_slow wrap_dek as_bytes
change_password-keeps_dek_example =
    change_password-keeps_dek plain plain-Lawful (4 ∷ []) nonce12 dek32 (codes "pw") (codes "new")
      set_up config replaced refl refl refl refl refl
