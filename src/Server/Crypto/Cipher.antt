-- ===== src/Server/Crypto/Cipher.antt =====
-- `encrypt_text`, `decrypt_text`, `encrypt_blob`, `decrypt_blob` and the two format tests of
-- server/src/crypto.rs. The random nonce of an encryption is an argument.
pub mod RoundTrip
use copywraith.Common.{
  ℕ, ◌+◌, Bool, not, ◌&&◌, Option, none, some, ◌++◌, ltb, leb, ◌==◌, if◌then◌else◌, length, take,
  drop,
}
use copywraith.Common.Text.{Text, Bytes, codes, same, as_bytes, starts_with, strip_prefix}
use copywraith.Common.Utf8.{from_utf8}
use copywraith.Common.Outcome.{Outcome, ok, err, ◌>>=◌, ok_or}
use copywraith.Server.Crypto.Primitives.{Primitives}

pub data CipherError : Type 0 where
  bad_base64 too_short bad_nonce seal_failed unseal_failed invalid_utf8 : CipherError

abbrev pub nonce_len : ℕ
nonce_len = 12

abbrev pub tag_len : ℕ
tag_len = 16

abbrev pub enc_text_prefix : Text
enc_text_prefix = codes "ENC:1:"

abbrev pub enc_blob_magic : Bytes
enc_blob_magic = codes "ENCB"

unfoldable pub is_encrypted_text : Text → Bool
unfolding starts_with
is_encrypted_text stored = starts_with stored enc_text_prefix

unfoldable pub is_encrypted_blob : Bytes → Bool
unfolding same
is_encrypted_blob bytes = leb 4 (length bytes) && same (take 4 bytes) enc_blob_magic

module _ (p : Primitives) where
  open p use {seal, unseal, base64_encode, base64_decode}

  unfoldable pub encrypt_text : Bytes → Bytes → Text → Outcome CipherError Text
  encrypt_text nonce dek plaintext = do
    ciphertext ← ok_or seal_failed (seal dek nonce (as_bytes plaintext))
    ok (enc_text_prefix ++ base64_encode (nonce ++ ciphertext))

  -- `nonce || ciphertext`, checked for its length and opened.
  unfoldable pub open_combined : Bytes → Bytes → Outcome CipherError Bytes
  open_combined dek combined =
      if ltb (length combined) (nonce_len + tag_len)
      then err too_short
      else ok_or unseal_failed (unseal dek (take nonce_len combined) (drop nonce_len combined))

  unfoldable pub decrypt_payload : Bytes → Text → Outcome CipherError Text
  unfolding open_combined
  decrypt_payload dek payload = do
    combined ← ok_or bad_base64 (base64_decode payload)
    plaintext ← open_combined dek combined
    ok_or invalid_utf8 (from_utf8 plaintext)

  -- Text without the prefix is passed through.
  unfoldable pub decrypt_text : Bytes → Text → Outcome CipherError Text
  unfolding decrypt_payload strip_prefix
  decrypt_text dek stored = elim (strip_prefix enc_text_prefix stored) [
    | none ↦ ok stored
    | some payload ↦ decrypt_payload dek payload
  ]

  unfoldable pub encrypt_blob : Bytes → Bytes → Bytes → Outcome CipherError Bytes
  encrypt_blob nonce dek bytes = do
    ciphertext ← ok_or seal_failed (seal dek nonce bytes)
    ok (enc_blob_magic ++ (nonce ++ ciphertext))

  unfoldable pub decrypt_blob : Bytes → Bytes → Outcome CipherError Bytes
  unfolding is_encrypted_blob open_combined
  decrypt_blob dek bytes =
      if not (is_encrypted_blob bytes) then ok bytes else open_combined dek (drop 4 bytes)
