-- ===== src/Server/Store/Migrate/Genuine.antt =====
-- Where the texts that bear the mark of encryption come from: they were sealed, or submitted so.
use copywraith.Common.{
  ◌⊎◌, ◌≡◌, refl, sym, subst, ◌∙◌, ℕ, Bool, true, false, not, Option, none, some, List, [], ◌∷◌,
  ◌++◌, All, All-append, any, find, is_none, length, unwrap_or, Bool-cases, Option-cases, inl, inr,
  ◌||◌, arith,
}
use copywraith.Common.Table.Laws.{All-update_where, All-delete_where}
use copywraith.Common.Text.{Text, Bytes, as_bytes}
use copywraith.Common.Outcome.{Outcome, ok, err, ◌>>=◌, >>=-eq-ok, ok-injective, ok_or, ok_or-eq-ok}
use copywraith.Server.Crypto.Primitives.{Primitives}
use copywraith.Server.Crypto.Cipher.{
  CipherError, seal_failed, enc_text_prefix, encrypt_text, is_encrypted_text,
}
use copywraith.Server.Records.{
  Row, Store, Texts, texts_of, with_texts, stored_texts, encrypt_optional_text, encrypt_texts,
}
use copywraith.Server.Records.Columns.{all_settled}
use copywraith.Server.Store.Migrate.{
  RowNonces, FileNonces, Disk, update_texts, encrypt_row, and_then, encrypt_loop,
  encrypt_all_entries, encrypt_all_blobs,
}
use copywraith.Server.Store.{
  Result, BlobColumns, has_id, has_hash, save_blob, stored_blob, write_bytes, write_blob, new_row,
  insert_row, insert_new, after_blob, new_entry, clear_texts, touch_entry, create_new, create_entry,
  update_entry_starred, drop_blob, delete_entry,
}
use copywraith.Local.Table.{Write, written, not_opened, broken_off, blob_at}
use copywraith.Content.Hash.{hash_bytes, is_valid_hash}
use copywraith.Model.Flavors.{ContentType, Flavors, merge_legacy}
use copywraith.Model.Entry.{ClipboardEntry}

module _ (p : Primitives) (Given : Text → Type 0) where
  -- The mark, then the base64 text of a nonce and of what AES-GCM made of some text.
  abbrev pub Ciphertext : Text → Type 0
  Ciphertext t =
      (nonce dek c : Bytes) × (clear : Text) × (p.seal dek nonce (as_bytes clear) ≡ some c)
      × (t ≡ enc_text_prefix ++ p.base64_encode (nonce ++ c))

  -- A column that bears the mark is a ciphertext or was given.
  abbrev pub Genuine : Option Text → Type 0
  Genuine none = Unit
  Genuine (some t) = is_encrypted_text t ≡ true → Ciphertext t ⊎ Given t

  pub record AllGenuine (t : Texts) : Type 0 where
    pub text_content : Genuine t.text_content
    pub text_plain : Genuine t.text_plain
    pub text_html : Genuine t.text_html
    pub text_rtf : Genuine t.text_rtf
    pub search_text : Genuine t.search_text

  abbrev pub RowsGenuine : List Row → Type 0
  RowsGenuine rows = All (λ r. AllGenuine (texts_of r)) rows

  encrypt_text-Ciphertext :
      (nonce dek : Bytes) (t stored : Text)
      → encrypt_text p nonce dek t ≡ ok stored
      → Ciphertext stored
  unfolding encrypt_text
  encrypt_text-Ciphertext nonce dek t stored h =
      let (c, sealed, made) = >>=-eq-ok (ok_or seal_failed (p.seal dek nonce (as_bytes t))) _ h in
      (nonce, dek, c, t, ok_or-eq-ok seal_failed _ sealed, sym (ok-injective made))

  encrypt_optional_text-Genuine :
      (nonce dek : Bytes) (o stored : Option Text)
      → Genuine o
      → encrypt_optional_text p nonce dek o ≡ ok stored
      → Genuine stored
  unfolding encrypt_optional_text
  encrypt_optional_text-Genuine nonce dek none stored g h = subst Genuine (ok-injective h) tt
  encrypt_optional_text-Genuine nonce dek (some t) stored g h =
      elim (Bool-cases (is_encrypted_text t)) [
        | inl marked ↦
            let kept : encrypt_optional_text p nonce dek (some t) ≡ ok (some t) = rw marked refl in
            subst Genuine (ok-injective (sym kept ∙ h)) g
        | inr clear ↦
            let runs : encrypt_optional_text p nonce dek (some t)
                ≡ (do s ← encrypt_text p nonce dek t; ok (some s)) =
              rw clear refl in
            let (s, encrypted, made) = >>=-eq-ok (encrypt_text p nonce dek t) _ (sym runs ∙ h) in
            subst Genuine (ok-injective made)
              (λ marked. inl (encrypt_text-Ciphertext nonce dek t s encrypted))
      ]

  pub encrypt_texts-Genuine :
      (nonce : ℕ → Bytes) (dek : Bytes) (t stored : Texts)
      → AllGenuine t
      → encrypt_texts p nonce dek t ≡ ok stored
      → AllGenuine stored
  unfolding encrypt_texts
  encrypt_texts-Genuine nonce dek t stored g h =
      let (c, c_ok, h1) = >>=-eq-ok (encrypt_optional_text p (nonce 1) dek t.text_content) _ h in
      let (q, q_ok, h2) = >>=-eq-ok (encrypt_optional_text p (nonce 2) dek t.text_plain) _ h1 in
      let (l, l_ok, h3) = >>=-eq-ok (encrypt_optional_text p (nonce 3) dek t.text_html) _ h2 in
      let (r, r_ok, h4) = >>=-eq-ok (encrypt_optional_text p (nonce 4) dek t.text_rtf) _ h3 in
      let (s, s_ok, made) = >>=-eq-ok (encrypt_optional_text p (nonce 5) dek t.search_text) _ h4 in
      subst AllGenuine (ok-injective made) (record {
        text_content =
            encrypt_optional_text-Genuine (nonce 1) dek t.text_content c g.text_content c_ok;
        text_plain = encrypt_optional_text-Genuine (nonce 2) dek t.text_plain q g.text_plain q_ok;
        text_html = encrypt_optional_text-Genuine (nonce 3) dek t.text_html l g.text_html l_ok;
        text_rtf = encrypt_optional_text-Genuine (nonce 4) dek t.text_rtf r g.text_rtf r_ok;
        search_text =
            encrypt_optional_text-Genuine (nonce 5) dek t.search_text s g.search_text s_ok;
      })

  pub stored_texts-Genuine :
      (nonce : ℕ → Bytes) (dek : Option Bytes) (t stored : Texts)
      → AllGenuine t
      → stored_texts p nonce dek t ≡ ok stored
      → AllGenuine stored
  unfolding stored_texts
  stored_texts-Genuine nonce none t stored g h = subst AllGenuine (ok-injective h) g
  stored_texts-Genuine nonce (some dek) t stored g h = encrypt_texts-Genuine nonce dek t stored g h

  module _ (nonces : RowNonces) (dek : Bytes) where
    and_then-Genuine :
        (rest : List Row → Result (Unit {0}) × List Row) (r : Result (Unit {0}) × List Row)
        → RowsGenuine r.1
        → ((table : List Row) → RowsGenuine table → RowsGenuine (rest table).1)
        → RowsGenuine (and_then rest r).1
    unfolding and_then
    and_then-Genuine rest (err e, table) g next = g
    and_then-Genuine rest (ok done, table) g next = next table g

    encrypt_row-Genuine :
        (r : Row) (o : Outcome CipherError Texts) (table : List Row)
        → ((t : Texts) → o ≡ ok t → AllGenuine t)
        → RowsGenuine table
        → RowsGenuine (encrypt_row r o table).1
    unfolding encrypt_row update_texts
    encrypt_row-Genuine r (err e) table made g = g
    encrypt_row-Genuine r (ok t) table made g = elim (Bool-cases (all_settled (texts_of r))) [
      | inl settled ↦ rw settled g
      | inr unsettled ↦
          rw unsettled (All-update_where (has_id r.id) (with_texts t) (λ q h. made t refl) table g)
    ]

    encrypt_loop-Genuine :
        (rows table : List Row)
        → RowsGenuine rows
        → RowsGenuine table
        → RowsGenuine (encrypt_loop p nonces dek rows table).1
    unfolding encrypt_loop
    encrypt_loop-Genuine [] table h g = g
    encrypt_loop-Genuine (r ∷ rows) table h g =
        and_then-Genuine (encrypt_loop p nonces dek rows) _
          (encrypt_row-Genuine r (encrypt_texts p (nonces r.id) dek (texts_of r)) table
            (λ t e. encrypt_texts-Genuine (nonces r.id) dek (texts_of r) t h.0 e) g)
          (λ t k. encrypt_loop-Genuine rows t h.1 k)

    pub encrypt_all_entries-Genuine :
        (s : Store) → RowsGenuine s.rows → RowsGenuine (encrypt_all_entries p nonces dek s).1.rows
    unfolding encrypt_all_entries
    encrypt_all_entries-Genuine s g = encrypt_loop-Genuine s.rows s.rows g g

  pub encrypt_all_blobs-rows :
      (disk : Disk) (nonces : FileNonces) (dek : Bytes) (s : Store)
      → (encrypt_all_blobs p disk nonces dek s).1.rows ≡ s.rows
  unfolding encrypt_all_blobs
  encrypt_all_blobs-rows disk nonces dek s = elim (Bool-cases disk.lists) [
    | inl lists ↦ rw (lists, encrypt_all_blobs) refl
    | inr unlisted ↦ rw (unlisted, encrypt_all_blobs) refl
  ]

  rows-save_blob :
      (write : Write) (hash : Text) (size : ℕ) (o : Outcome CipherError Bytes) (s : Store)
      → (save_blob write hash size o s).1.rows ≡ s.rows
  unfolding save_blob
  rows-save_blob write hash size (err e) s = refl
  rows-save_blob written hash size (ok bytes) s = refl
  rows-save_blob not_opened hash size (ok bytes) s = refl
  rows-save_blob (broken_off n) hash size (ok bytes) s = refl

  rows-write_bytes :
      (write : Write) (nonce : Bytes) (dek : Option Bytes) (bytes : Bytes) (s : Store)
      → (write_bytes p write nonce dek bytes s).1.rows ≡ s.rows
  unfolding write_bytes
  rows-write_bytes write nonce dek bytes s =
      let hash = hash_bytes p.sha256 bytes in
      elim (Bool-cases (not (is_valid_hash hash))) [
        | inl bad ↦ rw bad refl
        | inr good ↦ rw good (elim (Bool-cases (not (is_none (blob_at hash s.blobs)))) [
          | inl there ↦ rw there refl
          | inr missing ↦
              rw missing
                (rows-save_blob write hash (length bytes) (stored_blob p nonce dek bytes) s)
        ])
      ]

  rows-write_blob :
      (write : Write) (nonce : Bytes) (dek : Option Bytes) (blob : Option Text) (s : Store)
      → (write_blob p write nonce dek blob s).1.rows ≡ s.rows
  unfolding write_blob
  rows-write_blob write nonce dek none s = refl
  rows-write_blob write nonce dek (some b64) s = elim (Option-cases (p.base64_decode b64)) [
    | inl bad ↦ rw (bad, write_blob) refl
    | inr (bytes, good) ↦ rw (good, write_blob) (rows-write_bytes write nonce dek bytes s)
  ]

  insert_new-Genuine :
      (e : ClipboardEntry) (content_hash : Text) (o : Outcome CipherError Texts) (s : Store)
      → ((t : Texts) → o ≡ ok t → AllGenuine t)
      → RowsGenuine s.rows
      → RowsGenuine (insert_new e content_hash o s).1.rows
  unfolding insert_new insert_row new_row
  insert_new-Genuine e content_hash (err c) s made g = g
  insert_new-Genuine e content_hash (ok t) s made g =
      elim (Bool-cases (any (has_id e.id) s.rows || any (has_hash content_hash) s.rows)) [
        | inl taken ↦ rw (taken, insert_new) g
        | inr free ↦
            rw (free, insert_new)
              (All-append (λ r. AllGenuine (texts_of r)) s.rows (new_row e content_hash t ∷ []) g
                (made t refl, tt))
      ]

  after_blob-Genuine :
      (entry : BlobColumns → ClipboardEntry) (content_hash : Text) (o : Outcome CipherError Texts)
      (w : Result BlobColumns × Store)
      → ((t : Texts) → o ≡ ok t → AllGenuine t)
      → RowsGenuine w.1.rows
      → RowsGenuine (after_blob entry content_hash o w).1.rows
  unfolding after_blob
  after_blob-Genuine entry content_hash o (err e, s) made g = g
  after_blob-Genuine entry content_hash o (ok b, s) made g =
      insert_new-Genuine (entry b) content_hash o s made g

  pub create_entry-Genuine :
      (contains_sensitive_data : Text → Bool) (now : ℕ) (fresh_id : Text) (write : Write)
      (nonce : ℕ → Bytes) (content_type : ContentType) (flavors : Flavors)
      (blob_base64 source_app : Option Text) (starred : Option Bool) (content_hash : Text)
      (dek : Option Bytes) (s : Store)
      → AllGenuine (clear_texts (merge_legacy flavors content_type none) content_type)
      → RowsGenuine s.rows
      → RowsGenuine
          (create_entry p contains_sensitive_data now fresh_id write nonce content_type flavors
            blob_base64 source_app starred content_hash dek s).1.rows
  unfolding create_entry create_new touch_entry
  create_entry-Genuine contains_sensitive_data now fresh_id write nonce content_type flavors
        blob_base64 source_app starred content_hash dek s given g =
      elim (Option-cases (find (has_hash content_hash) s.rows)) [
        | inr (r, known) ↦
            rw (known, create_entry) (All-update_where (has_id r.id) _ (λ q h. h) s.rows g)
        | inl unknown ↦
            rw (unknown, create_entry)
              (after_blob-Genuine
                (λ columns.
                  new_entry contains_sensitive_data now fresh_id content_type
                    (merge_legacy flavors content_type none) columns source_app
                    (unwrap_or starred false))
                content_hash _ (write_blob p write (nonce 0) dek blob_base64 s)
                (λ t e. stored_texts-Genuine nonce dek _ t given e)
                (subst RowsGenuine (sym (rows-write_blob write (nonce 0) dek blob_base64 s)) g))
      ]

  pub update_entry_starred-Genuine :
      (now : ℕ) (id : Text) (starred : Bool) (s : Store)
      → RowsGenuine s.rows
      → RowsGenuine (update_entry_starred now id starred s).1.rows
  unfolding update_entry_starred
  update_entry_starred-Genuine now id starred s g =
      All-update_where (has_id id) _ (λ r h. h) s.rows g

  rows-drop_blob :
      (removes : Bool) (hash : Option Text) (s : Store) → (drop_blob removes hash s).rows ≡ s.rows
  unfolding drop_blob
  rows-drop_blob removes none s = refl
  rows-drop_blob removes (some hash) s = ground arith

  pub delete_entry-Genuine :
      (removes : Bool) (id : Text) (s : Store)
      → RowsGenuine s.rows
      → RowsGenuine (delete_entry removes id s).1.rows
  unfolding delete_entry
  delete_entry-Genuine removes id s g =
      let kept = All-delete_where (has_id id) (λ r. AllGenuine (texts_of r)) s.rows g in
      elim (Option-cases (find (has_id id) s.rows)) [
        | inl e ↦ rw (e, delete_entry) kept
        | inr (r, e) ↦
            rw (e, delete_entry)
              (subst RowsGenuine (sym (rows-drop_blob removes r.blob_hash _)) kept)
      ]
