-- ===== src/Server/Records.antt =====
-- The table behind `Storage` of server/src/storage.rs, its text columns under encryption, and
-- `row_to_entry`. The server writes every timestamp itself, so that a stored one is an instant.
-- The random nonces of an encryption are an argument: slot 0 is the blob's, the others the columns'.
pub mod Columns
pub mod Reading
use copywraith.Common.{
  ℕ, Bool, true, false, not, ◌&&◌, ◌||◌, Option, none, some, List, [], ◌∷◌, ◌++◌, ◌==◌,
  if◌then◌else◌, length, find, any, is_none, or_else, unwrap_or,
}
use copywraith.Common.Text.{Text, Bytes, same}
use copywraith.Common.Outcome.{Outcome, ok, err, ◌>>=◌}
use copywraith.Model.Flavors.{
  ContentType, text, Flavors, merge_legacy, best_plain_text, to_legacy_text_content, from_str,
  as_str,
}
use copywraith.Model.Entry.{ClipboardEntry}
use copywraith.Server.Crypto.Primitives.{Primitives}
use copywraith.Server.Crypto.Cipher.{CipherError, encrypt_text, decrypt_text, is_encrypted_text}

pub record Row : Type 0 where
  pub id : Text
  pub content_type : Text
  pub text_content : Option Text
  pub text_plain : Option Text
  pub text_html : Option Text
  pub text_rtf : Option Text
  pub search_text : Option Text
  pub blob_hash : Option Text
  pub blob_size : Option ℕ
  pub content_hash : Text
  pub source_app : Option Text
  pub starred : Bool
  pub sensitive : Bool
  pub created_at : ℕ
  pub updated_at : ℕ

pub record Store : Type 0 where
  pub rows : List Row
  pub blobs : List (Text × Bytes)

-- The five text columns that encryption rewrites.
pub record Texts : Type 0 where
  pub text_content : Option Text
  pub text_plain : Option Text
  pub text_html : Option Text
  pub text_rtf : Option Text
  pub search_text : Option Text

abbrev pub texts_of : Row → Texts
texts_of r = record {
  text_content = r.text_content;
  text_plain = r.text_plain;
  text_html = r.text_html;
  text_rtf = r.text_rtf;
  search_text = r.search_text;
}

abbrev pub with_texts : Texts → Row → Row
with_texts t r = record r {
  text_content = t.text_content;
  text_plain = t.text_plain;
  text_html = t.text_html;
  text_rtf = t.text_rtf;
  search_text = t.search_text;
}

unfoldable pub row_to_entry : Row → ClipboardEntry
unfolding merge_legacy from_str
row_to_entry r =
    let content_type = unwrap_or (from_str r.content_type) text in
    let flavors =
      merge_legacy
        (record {
          text_plain = r.text_plain;
          text_html = r.text_html;
          text_rtf = r.text_rtf;
          file_list = none;
        })
        content_type r.text_content in
    record {
      id = r.id;
      content_type = content_type;
      text_content = or_else r.text_content (to_legacy_text_content flavors content_type);
      blob_hash = r.blob_hash;
      blob_size = r.blob_size;
      source_app = r.source_app;
      flavors = flavors;
      starred = r.starred;
      sensitive = r.sensitive;
      created_at = r.created_at;
      updated_at = r.updated_at;
    }

abbrev encrypted_option : Outcome CipherError Text → Outcome CipherError (Option Text)
encrypted_option o = do t ← o; ok (some t)

module _ (p : Primitives) where
  unfoldable pub encrypt_optional_text :
      Bytes → Bytes → Option Text → Outcome CipherError (Option Text)
  unfolding is_encrypted_text encrypt_text
  encrypt_optional_text nonce dek none = ok none
  encrypt_optional_text nonce dek (some t) =
      if is_encrypted_text t then ok (some t) else encrypted_option (encrypt_text p nonce dek t)

  unfoldable pub decrypt_optional_text : Bytes → Option Text → Outcome CipherError (Option Text)
  unfolding is_encrypted_text decrypt_text
  decrypt_optional_text dek none = ok none
  decrypt_optional_text dek (some t) =
      if not (is_encrypted_text t) then ok (some t) else encrypted_option (decrypt_text p dek t)

  -- The flavors are read again from the decrypted column; a column that is missing is filled from
  -- the flavors.
  unfoldable pub resolve_entry : ClipboardEntry → ClipboardEntry
  unfolding merge_legacy
  resolve_entry e =
      let flavors = merge_legacy e.flavors e.content_type e.text_content in
      record e {
        flavors = flavors;
        text_content = or_else e.text_content (to_legacy_text_content flavors e.content_type);
      }

  unfoldable pub decrypt_entry_text_fields :
      Bytes → ClipboardEntry → Outcome CipherError ClipboardEntry
  unfolding decrypt_optional_text resolve_entry
  decrypt_entry_text_fields dek e = do
    text_content ← decrypt_optional_text dek e.text_content
    text_plain ← decrypt_optional_text dek e.flavors.text_plain
    text_html ← decrypt_optional_text dek e.flavors.text_html
    text_rtf ← decrypt_optional_text dek e.flavors.text_rtf
    ok (
        resolve_entry (record e {
          text_content = text_content;
          flavors = record e.flavors {
            text_plain = text_plain;
            text_html = text_html;
            text_rtf = text_rtf;
          };
        }))

  -- All five columns under fresh nonces, in the source's order.
  unfoldable pub encrypt_texts : (ℕ → Bytes) → Bytes → Texts → Outcome CipherError Texts
  unfolding encrypt_optional_text
  encrypt_texts nonce dek t = do
    text_content ← encrypt_optional_text (nonce 1) dek t.text_content
    text_plain ← encrypt_optional_text (nonce 2) dek t.text_plain
    text_html ← encrypt_optional_text (nonce 3) dek t.text_html
    text_rtf ← encrypt_optional_text (nonce 4) dek t.text_rtf
    search_text ← encrypt_optional_text (nonce 5) dek t.search_text
    ok (record {
      text_content = text_content;
      text_plain = text_plain;
      text_html = text_html;
      text_rtf = text_rtf;
      search_text = search_text;
    })

  -- An entry as it leaves the server: decrypted where the key is known.
  unfoldable pub shown_entry : Option Bytes → ClipboardEntry → Outcome CipherError ClipboardEntry
  unfolding decrypt_entry_text_fields
  shown_entry none e = ok e
  shown_entry (some dek) e = decrypt_entry_text_fields dek e

  -- The columns of a new row: encrypted where the key is known.
  unfoldable pub stored_texts : (ℕ → Bytes) → Option Bytes → Texts → Outcome CipherError Texts
  unfolding encrypt_texts
  stored_texts nonce none t = ok t
  stored_texts nonce (some dek) t = encrypt_texts nonce dek t
