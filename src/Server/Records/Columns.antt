-- ===== src/Server/Records/Columns.antt =====
-- That the encrypted text columns of a row reveal what the plain ones held.
use copywraith.Common.{
  ℕ, ◌≡◌, refl, Bool, true, Option, none, some, ◌&&◌, length, All, Bool-cases, inl, inr,
}
use copywraith.Common.Text.{Text, Bytes, as_bytes}
use copywraith.Common.Utf8.{is_scalar}
use copywraith.Common.Outcome.{Outcome, ok}
use copywraith.Server.Crypto.Primitives.{Primitives, Lawful}
use copywraith.Server.Crypto.Cipher.{CipherError, nonce_len, is_encrypted_text}
use copywraith.Server.Crypto.Cipher.RoundTrip.{decrypt_text-encrypt_text}
use copywraith.Server.Records.{Texts, encrypt_optional_text, decrypt_optional_text, encrypt_texts}

-- Characters are Unicode scalar values in a Rust `String`.
abbrev pub AreScalars : Option Text → Type 0
AreScalars none = Unit
AreScalars (some t) = All (λ x. is_scalar x ≡ true) t

pub record ColumnsAreScalars (t : Texts) : Type 0 where
  pub text_content : AreScalars t.text_content
  pub text_plain : AreScalars t.text_plain
  pub text_html : AreScalars t.text_html
  pub text_rtf : AreScalars t.text_rtf
  pub search_text : AreScalars t.search_text

-- A column that nothing is left to encrypt in.
unfoldable pub settled : Option Text → Bool
unfolding is_encrypted_text
settled none = true
settled (some t) = is_encrypted_text t

unfoldable pub all_settled : Texts → Bool
unfolding settled
all_settled t =
    settled t.text_content
    && settled t.text_plain
    && settled t.text_html
    && settled t.text_rtf
    && settled t.search_text

-- AES-256-GCM refuses no message under a key of 32 bytes.
abbrev pub Seals : Primitives → Bytes → Type 0
Seals p dek =
    (nonce m : Bytes) → length nonce ≡ nonce_len → (c : Bytes) × (p.seal dek nonce m ≡ some c)

module _ (p : Primitives) where
  abbrev pub Decrypted : Type 0
  Decrypted = Outcome CipherError (Option Text)

  -- What the key reveals of the five columns.
  unfoldable pub revealed :
      Bytes → Texts → Decrypted × (Decrypted × (Decrypted × (Decrypted × Decrypted)))
  unfolding decrypt_optional_text
  revealed dek t = (
    decrypt_optional_text p dek t.text_content,
    (
      decrypt_optional_text p dek t.text_plain,
      (
        decrypt_optional_text p dek t.text_html,
        (decrypt_optional_text p dek t.text_rtf, decrypt_optional_text p dek t.search_text),
      ),
    ),
  )

  module _ (lawful : Lawful p) (dek : Bytes) (seals : Seals p dek) where
    -- Encryption of a column succeeds, settles it, and does not change what the key reveals.
    pub column_revealed :
        (nonce : Bytes) (o : Option Text)
        → length nonce ≡ nonce_len
        → AreScalars o
        → (stored : Option Text) × (encrypt_optional_text p nonce dek o ≡ ok stored)
          × (settled stored ≡ true)
          × (decrypt_optional_text p dek stored ≡ decrypt_optional_text p dek o)
    unfolding encrypt_optional_text decrypt_optional_text settled
    column_revealed nonce none len scalars = (none, refl, refl, refl)
    column_revealed nonce (some t) len scalars = elim (Bool-cases (is_encrypted_text t)) [
      | inl marked ↦ (some t, rw marked refl, marked, refl)
      | inr unmarked ↦
          let (c, sealed) = seals nonce (as_bytes t) len in
          let (stored, encrypted, marked, decrypted) =
            decrypt_text-encrypt_text p lawful dek nonce c t len scalars sealed in
          (
            some stored,
            rw (unmarked, encrypted) refl,
            marked,
            rw (unmarked, marked, decrypted) refl,
          )
    ]

    pub texts_revealed :
        (nonce : ℕ → Bytes) (t : Texts)
        → ((slot : ℕ) → length (nonce slot) ≡ nonce_len)
        → ColumnsAreScalars t
        → (stored : Texts) × (encrypt_texts p nonce dek t ≡ ok stored)
          × (all_settled stored ≡ true)
          × (revealed dek stored ≡ revealed dek t)
    unfolding encrypt_texts revealed all_settled
    texts_revealed nonce t len scalars =
        let (c, c_ok, c_set, c_rev) =
          column_revealed (nonce 1) t.text_content (len 1) scalars.text_content in
        let (q, q_ok, q_set, q_rev) =
          column_revealed (nonce 2) t.text_plain (len 2) scalars.text_plain in
        let (h, h_ok, h_set, h_rev) =
          column_revealed (nonce 3) t.text_html (len 3) scalars.text_html in
        let (r, r_ok, r_set, r_rev) =
          column_revealed (nonce 4) t.text_rtf (len 4) scalars.text_rtf in
        let (s, s_ok, s_set, s_rev) =
          column_revealed (nonce 5) t.search_text (len 5) scalars.search_text in
        (
          record { text_content = c; text_plain = q; text_html = h; text_rtf = r; search_text = s },
          rw (c_ok, q_ok, h_ok, r_ok, s_ok) refl,
          rw (c_set, q_set, h_set, r_set, s_set) refl,
          rw (c_rev, q_rev, h_rev, r_rev, s_rev) refl,
        )
