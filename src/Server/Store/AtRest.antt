-- ===== src/Server/Store/AtRest.antt =====
-- That everything is marked as encrypted once the key is known: every text column is empty or marked,
-- and every blob file is marked. A text that came with the mark passes for an encrypted one.
use copywraith.Local.Table.{Write, written, not_opened, broken_off, blob_at, remove_file}
use copywraith.Common.{
  unwrap_or, ℕ, ◌≡◌, refl, sym, subst, ◌∙◌, Bool, true, false, not, ◌||◌, Option, none, some, List,
  [], ◌∷◌, ◌++◌, all, any, find, length, is_none, Bool-cases, Option-cases, inl, inr,
}
use copywraith.Server.Store.{
  new_entry, clear_texts, Result, BlobColumns, has_id, has_hash, references, insert_row, save_blob,
  stored_blob, write_bytes, write_blob, new_row, insert_new, after_blob, touch_entry, create_new,
  create_entry, update_entry_starred, drop_blob, delete_entry,
}
use copywraith.Model.Flavors.{merge_legacy, ContentType, Flavors}
use copywraith.Common.Table.{delete_where}
use copywraith.Common.Table.Laws.{all_cons, all-append, all-update_where, all-delete_where}
use copywraith.Common.Text.{Text, Bytes, same, as_bytes}
use copywraith.Common.Outcome.{Outcome, ok, err, ◌>>=◌, >>=-eq-ok, ok-injective, ok_or}
use copywraith.Content.Hash.{hash_bytes, is_valid_hash}
use copywraith.Model.Entry.{ClipboardEntry}
use copywraith.Server.Crypto.Primitives.{Primitives}
use copywraith.Server.Crypto.Cipher.{
  CipherError, seal_failed, encrypt_text, encrypt_blob, is_encrypted_text, is_encrypted_blob,
}
use copywraith.Server.Crypto.Cipher.RoundTrip.{marked_text, marked_blob}
use copywraith.Server.Records.{
  Row, Store, Texts, texts_of, stored_texts, encrypt_optional_text, encrypt_texts,
}
use copywraith.Server.Records.Columns.{settled, all_settled}

-- Whether a write does not break off half-way.
abbrev pub is_whole : Write → Bool
is_whole (broken_off n) = false
is_whole _ = true

abbrev pub row_is_settled : Row → Bool
row_is_settled r = all_settled (texts_of r)

abbrev pub file_is_encrypted : Text × Bytes → Bool
file_is_encrypted (name, bytes) = is_encrypted_blob bytes

pub record EncryptedAtRest (s : Store) : Type 0 where
  pub rows : all row_is_settled s.rows ≡ true
  pub blobs : all file_is_encrypted s.blobs ≡ true

module _ (p : Primitives) where
  encrypt_text-marked :
      (nonce dek : Bytes) (t stored : Text)
      → encrypt_text p nonce dek t ≡ ok stored
      → is_encrypted_text stored ≡ true
  unfolding encrypt_text
  encrypt_text-marked nonce dek t stored h =
      let (c, _, made) = >>=-eq-ok (ok_or seal_failed (p.seal dek nonce (as_bytes t))) _ h in
      subst (λ x. is_encrypted_text x ≡ true) (ok-injective made)
        (marked_text (p.base64_encode (nonce ++ c)))

  pub encrypt_blob-marked :
      (nonce dek bytes stored : Bytes)
      → encrypt_blob p nonce dek bytes ≡ ok stored
      → is_encrypted_blob stored ≡ true
  unfolding encrypt_blob
  encrypt_blob-marked nonce dek bytes stored h =
      let (c, _, made) = >>=-eq-ok (ok_or seal_failed (p.seal dek nonce bytes)) _ h in
      subst (λ x. is_encrypted_blob x ≡ true) (ok-injective made) (marked_blob (nonce ++ c))

  encrypt_optional_text-settled :
      (nonce dek : Bytes) (o stored : Option Text)
      → encrypt_optional_text p nonce dek o ≡ ok stored
      → settled stored ≡ true
  unfolding encrypt_optional_text settled
  encrypt_optional_text-settled nonce dek none stored h =
      subst (λ x. settled x ≡ true) (ok-injective h) refl
  encrypt_optional_text-settled nonce dek (some t) stored h =
      elim (Bool-cases (is_encrypted_text t)) [
        | inl marked ↦
            let kept : encrypt_optional_text p nonce dek (some t) ≡ ok (some t) = rw marked refl in
            subst (λ x. settled x ≡ true) (ok-injective (sym kept ∙ h)) marked
        | inr clear ↦
            let runs : encrypt_optional_text p nonce dek (some t)
                ≡ (do s ← encrypt_text p nonce dek t; ok (some s)) =
              rw clear refl in
            let (s, encrypted, made) = >>=-eq-ok (encrypt_text p nonce dek t) _ (sym runs ∙ h) in
            subst (λ x. settled x ≡ true) (ok-injective made)
              (encrypt_text-marked nonce dek t s encrypted)
      ]

  -- Encrypted columns leave nothing in clear.
  pub encrypt_texts-settled :
      (nonce : ℕ → Bytes) (dek : Bytes) (t stored : Texts)
      → encrypt_texts p nonce dek t ≡ ok stored
      → all_settled stored ≡ true
  unfolding encrypt_texts all_settled
  encrypt_texts-settled nonce dek t stored h =
      let (c, c_ok, h1) = >>=-eq-ok (encrypt_optional_text p (nonce 1) dek t.text_content) _ h in
      let (q, q_ok, h2) = >>=-eq-ok (encrypt_optional_text p (nonce 2) dek t.text_plain) _ h1 in
      let (l, l_ok, h3) = >>=-eq-ok (encrypt_optional_text p (nonce 3) dek t.text_html) _ h2 in
      let (r, r_ok, h4) = >>=-eq-ok (encrypt_optional_text p (nonce 4) dek t.text_rtf) _ h3 in
      let (s, s_ok, made) = >>=-eq-ok (encrypt_optional_text p (nonce 5) dek t.search_text) _ h4 in
      subst (λ x. all_settled x ≡ true) (ok-injective made)
        (rw
          (
            encrypt_optional_text-settled (nonce 1) dek t.text_content c c_ok,
            encrypt_optional_text-settled (nonce 2) dek t.text_plain q q_ok,
            encrypt_optional_text-settled (nonce 3) dek t.text_html l l_ok,
            encrypt_optional_text-settled (nonce 4) dek t.text_rtf r r_ok,
            encrypt_optional_text-settled (nonce 5) dek t.search_text s s_ok,
          )
          refl)

pub update_entry_starred-AtRest :
    (now : ℕ) (id : Text) (starred : Bool) (s : Store)
    → EncryptedAtRest s
    → EncryptedAtRest (update_entry_starred now id starred s).1
unfolding update_entry_starred
update_entry_starred-AtRest now id starred s h = record {
  rows = all-update_where row_is_settled (has_id id) _ s.rows (λ r. refl) h.rows;
  blobs = h.blobs;
}

remove_file-encrypted :
    (hash : Text) (files : List (Text × Bytes))
    → all file_is_encrypted files ≡ true
    → all file_is_encrypted (remove_file hash files) ≡ true
unfolding remove_file
remove_file-encrypted hash [] h = refl
remove_file-encrypted hash ((name, bytes) ∷ files) h =
    let (first, rest) = all_cons file_is_encrypted (name, bytes) files h in
    elim (Bool-cases (same name hash)) [
      | inl e ↦ rw e (remove_file-encrypted hash files rest)
      | inr e ↦ rw (e, first, remove_file-encrypted hash files rest) refl
    ]

drop_blob-AtRest :
    (removes : Bool) (hash : Option Text) (s : Store)
    → EncryptedAtRest s
    → EncryptedAtRest (drop_blob removes hash s)
unfolding drop_blob
drop_blob-AtRest removes none s h = h
drop_blob-AtRest removes (some hash) s h =
    elim (Bool-cases (any (references hash) s.rows || not removes)) [
      | inl e ↦ rw e h
      | inr e ↦ rw e (record { rows = h.rows; blobs = remove_file-encrypted hash s.blobs h.blobs })
    ]

pub delete_entry-AtRest :
    (removes : Bool) (id : Text) (s : Store)
    → EncryptedAtRest s
    → EncryptedAtRest (delete_entry removes id s).1
unfolding delete_entry
delete_entry-AtRest removes id s h =
    let left = record s { rows = delete_where (has_id id) s.rows } in
    let w : EncryptedAtRest left = record {
      rows = all-delete_where row_is_settled (has_id id) s.rows h.rows;
      blobs = h.blobs;
    } in
    elim (Option-cases (find (has_id id) s.rows)) [
      | inl e ↦ rw (e, delete_entry) w
      | inr (r, e) ↦ rw (e, delete_entry) (drop_blob-AtRest removes r.blob_hash left w)
    ]

insert_new-AtRest :
    (e : ClipboardEntry) (content_hash : Text) (stored : Outcome CipherError Texts) (s : Store)
    → ((t : Texts) → stored ≡ ok t → all_settled t ≡ true)
    → EncryptedAtRest s
    → EncryptedAtRest (insert_new e content_hash stored s).1
unfolding insert_new insert_row new_row
insert_new-AtRest e content_hash (err c) s settles h = h
insert_new-AtRest e content_hash (ok t) s settles h =
    elim (Bool-cases (any (has_id e.id) s.rows || any (has_hash content_hash) s.rows)) [
      | inl taken ↦ rw (taken, insert_new) h
      | inr free ↦
          let row = new_row e content_hash t in
          let inserted : EncryptedAtRest (record s { rows = s.rows ++ row ∷ [] }) = record {
            rows = all-append row_is_settled s.rows (row ∷ []) h.rows (rw (settles t refl) refl);
            blobs = h.blobs;
          } in
          rw (free, insert_new) inserted
    ]

after_blob-AtRest :
    (entry : BlobColumns → ClipboardEntry) (content_hash : Text)
    (stored : Outcome CipherError Texts) (w : Result BlobColumns × Store)
    → ((t : Texts) → stored ≡ ok t → all_settled t ≡ true)
    → EncryptedAtRest w.1
    → EncryptedAtRest (after_blob entry content_hash stored w).1
unfolding after_blob
after_blob-AtRest entry content_hash stored (err e, t) settles h = h
after_blob-AtRest entry content_hash stored (ok b, t) settles h =
    insert_new-AtRest (entry b) content_hash stored t settles h

save_blob-AtRest :
    (write : Write) (whole : is_whole write ≡ true) (hash : Text) (size : ℕ)
    (o : Outcome CipherError Bytes) (s : Store)
    → ((bytes : Bytes) → o ≡ ok bytes → is_encrypted_blob bytes ≡ true)
    → EncryptedAtRest s
    → EncryptedAtRest (save_blob write hash size o s).1
unfolding save_blob
save_blob-AtRest write whole hash size (err e) s marked h = h
save_blob-AtRest not_opened whole hash size (ok bytes) s marked h = h
save_blob-AtRest (broken_off n) whole hash size (ok bytes) s marked h = cc
save_blob-AtRest written whole hash size (ok bytes) s marked h = record {
  rows = h.rows;
  blobs = rw (marked bytes refl, h.blobs) refl;
}

module _ (p : Primitives) (dek : Bytes) where
  write_bytes-AtRest :
      (write : Write) (whole : is_whole write ≡ true) (nonce bytes : Bytes) (s : Store)
      → EncryptedAtRest s
      → EncryptedAtRest (write_bytes p write nonce (some dek) bytes s).1
  unfolding write_bytes stored_blob
  write_bytes-AtRest write whole nonce bytes s h =
      let hash = hash_bytes p.sha256 bytes in
      elim (Bool-cases (not (is_valid_hash hash))) [
        | inl bad ↦ rw bad h
        | inr good ↦ rw good (elim (Bool-cases (not (is_none (blob_at hash s.blobs)))) [
          | inl there ↦ rw there h
          | inr missing ↦ rw missing (
              save_blob-AtRest write whole hash (length bytes) (encrypt_blob p nonce dek bytes) s
                (encrypt_blob-marked p nonce dek bytes) h)
        ])
      ]

  write_blob-AtRest :
      (write : Write) (whole : is_whole write ≡ true) (nonce : Bytes) (blob : Option Text)
      (s : Store)
      → EncryptedAtRest s
      → EncryptedAtRest (write_blob p write nonce (some dek) blob s).1
  unfolding write_blob
  write_blob-AtRest write whole nonce none s h = h
  write_blob-AtRest write whole nonce (some b64) s h = elim (Option-cases (p.base64_decode b64)) [
    | inl bad ↦ rw (bad, write_blob) h
    | inr (bytes, good) ↦ rw (good, write_blob) (write_bytes-AtRest write whole nonce bytes s h)
  ]

  touch_entry-AtRest :
      (now : ℕ) (starred : Option Bool) (r : Row) (s : Store)
      → EncryptedAtRest s
      → EncryptedAtRest (touch_entry p now starred (some dek) r s).1
  unfolding touch_entry
  touch_entry-AtRest now starred r s h = record {
    rows = all-update_where row_is_settled (has_id r.id) _ s.rows (λ q. refl) h.rows;
    blobs = h.blobs;
  }

  -- An upload under the key leaves everything marked, whether it succeeds or fails, unless its write
  -- breaks off.
  pub create_entry-AtRest :
      (contains_sensitive_data : Text → Bool) (now : ℕ) (fresh_id : Text) (write : Write)
      (whole : is_whole write ≡ true) (nonce : ℕ → Bytes) (content_type : ContentType)
      (flavors : Flavors) (blob_base64 source_app : Option Text) (starred : Option Bool)
      (content_hash : Text) (s : Store)
      → EncryptedAtRest s
      → EncryptedAtRest
          (create_entry p contains_sensitive_data now fresh_id write nonce content_type flavors
            blob_base64 source_app starred content_hash
            (some dek)
            s).1
  unfolding create_entry create_new stored_texts
  create_entry-AtRest contains_sensitive_data now fresh_id write whole nonce content_type flavors
        blob_base64 source_app starred content_hash s h =
      elim (Option-cases (find (has_hash content_hash) s.rows)) [
        | inr (r, known) ↦ rw (known, create_entry) (touch_entry-AtRest now starred r s h)
        | inl unknown ↦
            let resolved = merge_legacy flavors content_type none in
            let texts = clear_texts resolved content_type in
            rw (unknown, create_entry)
              (after_blob-AtRest
                (λ columns.
                  new_entry contains_sensitive_data now fresh_id content_type resolved columns
                    source_app (unwrap_or starred false))
                content_hash (encrypt_texts p nonce dek texts)
                (write_blob p write (nonce 0) (some dek) blob_base64 s)
                (encrypt_texts-settled p nonce dek texts)
                (write_blob-AtRest write whole (nonce 0) blob_base64 s h))
      ]
