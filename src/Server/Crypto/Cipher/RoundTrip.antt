-- ===== src/Server/Crypto/Cipher/RoundTrip.antt =====
-- What encryption and decryption promise each other, given the laws of the primitives.
use copywraith.Common.{
  ◌≡◌, refl, ap, sym, ◌∙◌, true, false, some, ◌++◌, ltb, length, take, drop, arith, All,
  length-append, take-append, drop-append,
}
use copywraith.Common.Text.{Text, Bytes, same, as_bytes, starts_with, strip_prefix}
use copywraith.Common.Utf8.{is_scalar}
use copywraith.Common.Utf8.Laws.{from_utf8-as_bytes}
use copywraith.Common.Outcome.{ok}
use copywraith.Server.Crypto.Primitives.{Primitives, Lawful}
use copywraith.Server.Crypto.Cipher.{
  nonce_len, enc_text_prefix, enc_blob_magic, encrypt_text, decrypt_text, decrypt_payload,
  open_combined, encrypt_blob, decrypt_blob, is_encrypted_text, is_encrypted_blob,
}

pub marked_text : (payload : Text) → is_encrypted_text (enc_text_prefix ++ payload) ≡ true
unfolding is_encrypted_text starts_with
marked_text payload = refl

pub marked_blob : (rest : Bytes) → is_encrypted_blob (enc_blob_magic ++ rest) ≡ true
unfolding is_encrypted_blob same
marked_blob rest = ground arith

module _ (p : Primitives) (lawful : Lawful p) where
  -- What was sealed under a nonce of twelve bytes opens again behind that nonce.
  open_combined-seal :
      (dek nonce m c : Bytes)
      → length nonce ≡ nonce_len
      → p.seal dek nonce m ≡ some c
      → open_combined p dek (nonce ++ c) ≡ ok m
  unfolding open_combined
  open_combined-seal dek nonce m c len sealed =
      let front = sym (ap (λ n. take n (nonce ++ c)) len) ∙ take-append nonce c in
      let back = sym (ap (λ n. drop n (nonce ++ c)) len) ∙ drop-append nonce c in
      let enough : ltb (length (nonce ++ c)) 28 ≡ false =
        ground (arith, length-append nonce c, lawful.length-seal dek nonce m c sealed) in
      rw (enough, front, back, lawful.unseal-seal dek nonce m c sealed) refl

  decrypt_text-prefixed :
      (dek : Bytes) (payload : Text)
      → decrypt_text p dek (enc_text_prefix ++ payload) ≡ decrypt_payload p dek payload
  unfolding decrypt_text strip_prefix starts_with
  decrypt_text-prefixed dek payload = refl

  decrypt_blob-marked :
      (dek rest : Bytes) → decrypt_blob p dek (enc_blob_magic ++ rest) ≡ open_combined p dek rest
  unfolding decrypt_blob
  decrypt_blob-marked dek rest = rw (marked_blob rest, decrypt_blob) refl

  decrypt_payload-encode :
      (dek combined : Bytes) (t : Text)
      → open_combined p dek combined ≡ ok (as_bytes t)
      → All (λ x. is_scalar x ≡ true) t
      → decrypt_payload p dek (p.base64_encode combined) ≡ ok t
  unfolding decrypt_payload
  decrypt_payload-encode dek combined t opened scalars =
      rw (lawful.decode-encode combined, opened, from_utf8-as_bytes t scalars) refl

  -- Text that is encrypted under a nonce of twelve bytes is marked as encrypted, and decrypts under
  -- the same key to the text that went in.
  pub decrypt_text-encrypt_text :
      (dek nonce c : Bytes) (t : Text)
      → length nonce ≡ nonce_len
      → All (λ x. is_scalar x ≡ true) t
      → p.seal dek nonce (as_bytes t) ≡ some c
      → (stored : Text) × (encrypt_text p nonce dek t ≡ ok stored)
        × (is_encrypted_text stored ≡ true)
        × (decrypt_text p dek stored ≡ ok t)
  unfolding encrypt_text decrypt_text decrypt_payload is_encrypted_text
  decrypt_text-encrypt_text dek nonce c t len scalars sealed =
      let payload = p.base64_encode (nonce ++ c) in
      (
        enc_text_prefix ++ payload,
        rw sealed refl,
        marked_text payload,
        decrypt_text-prefixed dek payload
            ∙ decrypt_payload-encode dek (nonce ++ c) t
                (open_combined-seal dek nonce (as_bytes t) c len sealed) scalars,
      )

  -- Bytes that are encrypted under a nonce of twelve bytes are marked as encrypted, and decrypt
  -- under the same key to the bytes that went in.
  pub decrypt_blob-encrypt_blob :
      (dek nonce c m : Bytes)
      → length nonce ≡ nonce_len
      → p.seal dek nonce m ≡ some c
      → (stored : Bytes) × (encrypt_blob p nonce dek m ≡ ok stored)
        × (is_encrypted_blob stored ≡ true)
        × (decrypt_blob p dek stored ≡ ok m)
  unfolding encrypt_blob decrypt_blob is_encrypted_blob
  decrypt_blob-encrypt_blob dek nonce c m len sealed = (
    enc_blob_magic ++ (nonce ++ c),
    rw sealed refl,
    marked_blob (nonce ++ c),
    decrypt_blob-marked dek (nonce ++ c) ∙ open_combined-seal dek nonce m c len sealed,
  )
