-- ===== src/Server/Store/Migrate/Settles.antt =====
-- That a migration that reports success leaves nothing in clear, and that it keeps the store
-- well-formed also where it stops.
use copywraith.Local.Table.{Write, written, not_opened, broken_off, blob_at}
use copywraith.Common.{
  take, is_none, ◌≡◌, refl, ap, sym, ◌∙◌, true, false, Option, none, some, List, [], ◌∷◌, ◌++◌, all,
  All, Bool-cases, inl, inr, append_assoc,
}
use copywraith.Server.Store.Migrate.{
  Disk, RowNonces, FileNonces, Files, update_texts, encrypt_row, and_then, encrypt_loop,
  encrypt_all_entries, after_file, rewrite_file, encrypt_files, encrypt_all_blobs,
}
use copywraith.Common.Text.{Text, Bytes, same}
use copywraith.Common.Outcome.{Outcome, ok, err, Outcome-cases}
use copywraith.Local.Table.Laws.{HasFile}
use copywraith.Server.Crypto.Primitives.{Primitives}
use copywraith.Server.Crypto.Cipher.{CipherError, encrypt_blob, is_encrypted_blob}
use copywraith.Server.Records.{Row, Store, Texts, texts_of, with_texts, encrypt_texts}
use copywraith.Server.Records.Columns.{all_settled}
use copywraith.Server.Store.{Result, has_id}
use copywraith.Server.Store.Valid.{IsValid, update-IsValid}
use copywraith.Server.Store.AtRest.{
  row_is_settled, file_is_encrypted, EncryptedAtRest, encrypt_texts-settled, encrypt_blob-marked,
}
use copywraith.Server.Store.Migrate.Laws.{
  UniqueIds, row_after, update_texts-row, row_after-id, row_after-settled, still_other,
}

module _ (p : Primitives) (nonces : RowNonces) (dek : Bytes) where
  -- The rows ahead, behind the part of the table that is done.
  Settles : List Row → Result (Unit {0}) × List Row → Type 0
  Settles front (outcome, table) =
      outcome ≡ ok tt
      → (after : List Row) × ((table ≡ front ++ after) × (all row_is_settled after ≡ true))

  encrypt_loop-Settles :
      (rows front : List Row)
      → UniqueIds rows
      → All (λ q. All (λ f. has_id q.id f ≡ false) front) rows
      → Settles front (encrypt_loop p nonces dek rows (front ++ rows))
  unfolding encrypt_loop encrypt_row and_then Settles
  encrypt_loop-Settles [] front unique other = λ h. ([], (refl, refl))
  encrypt_loop-Settles (r ∷ rows) front unique other =
      elim (Outcome-cases (encrypt_texts p (nonces r.id) dek (texts_of r))) [
        | inl (e, failed) ↦ rw failed (λ h. cc)
        | inr (t, encrypted) ↦
            let done = row_after r t in
            let ahead =
              encrypt_loop-Settles rows (front ++ done ∷ []) unique.1
                (still_other front r done rows (row_after-id r t) other.1 unique.0) in
            rw
              (
                encrypted,
                update_texts-row r t front rows other.0 unique.0,
                sym (append_assoc front (done ∷ []) rows),
              )
              (λ h.
                let (after, (same_table, settled)) = ahead h in
                (
                  done ∷ after,
                  (
                    same_table ∙ append_assoc front (done ∷ []) after,
                    rw
                        (
                          row_after-settled r t
                              (encrypt_texts-settled p (nonces r.id) dek (texts_of r) t encrypted),
                          settled,
                        )
                        refl,
                  ),
                ))
      ]

  and_then-IsValid :
      (blobs : Files) (rest : List Row → Result (Unit {0}) × List Row)
      (r : Result (Unit {0}) × List Row)
      → IsValid (record { rows = r.1; blobs = blobs })
      → ((table : List Row)
          → IsValid (record { rows = table; blobs = blobs })
          → IsValid (record { rows = (rest table).1; blobs = blobs }))
      → IsValid (record { rows = (and_then rest r).1; blobs = blobs })
  unfolding and_then
  and_then-IsValid blobs rest (err e, table) v next = v
  and_then-IsValid blobs rest (ok done, table) v next = next table v

  encrypt_row-IsValid :
      (blobs : Files) (r : Row) (o : Outcome CipherError Texts) (table : List Row)
      → IsValid (record { rows = table; blobs = blobs })
      → IsValid (record { rows = (encrypt_row r o table).1; blobs = blobs })
  unfolding encrypt_row update_texts
  encrypt_row-IsValid blobs r (err e) table v = v
  encrypt_row-IsValid blobs r (ok t) table v = elim (Bool-cases (all_settled (texts_of r))) [
    | inl settled ↦ rw settled v
    | inr unsettled ↦ rw unsettled (
        update-IsValid (has_id r.id) (with_texts t) (record { rows = table; blobs = blobs })
          (λ q. refl) (λ q. refl) (λ q. refl) v)
  ]

  encrypt_loop-IsValid :
      (blobs : Files) (rows table : List Row)
      → IsValid (record { rows = table; blobs = blobs })
      → IsValid (record { rows = (encrypt_loop p nonces dek rows table).1; blobs = blobs })
  unfolding encrypt_loop
  encrypt_loop-IsValid blobs [] table v = v
  encrypt_loop-IsValid blobs (r ∷ rows) table v =
      and_then-IsValid blobs (encrypt_loop p nonces dek rows) _
        (encrypt_row-IsValid blobs r (encrypt_texts p (nonces r.id) dek (texts_of r)) table v)
        (encrypt_loop-IsValid blobs rows)

  pub encrypt_all_entries-IsValid :
      (s : Store) → IsValid s → IsValid (encrypt_all_entries p nonces dek s).1
  unfolding encrypt_all_entries
  encrypt_all_entries-IsValid s v = encrypt_loop-IsValid s.blobs s.rows s.rows v

  -- A migration of the rows that reports success leaves no text column in clear.
  pub encrypt_all_entries-settles :
      (s : Store)
      → UniqueIds s.rows
      → (encrypt_all_entries p nonces dek s).0 ≡ ok tt
      → all row_is_settled (encrypt_all_entries p nonces dek s).1.rows ≡ true
  unfolding encrypt_all_entries Settles
  encrypt_all_entries-settles s unique h =
      let (after, (same_table, settled)) = encrypt_loop-Settles s.rows [] unique (apart s.rows) h in
      rw same_table settled
    where
      apart : (rows : List Row) → All (λ q. All (λ f. has_id q.id f ≡ false) []) rows
      apart [] = tt
      apart (q ∷ rows) = (tt, apart rows)

module _ (p : Primitives) (disk : Disk) (nonces : FileNonces) (dek : Bytes) where
  abbrev EncryptsFiles : Result (Unit {0}) × Files → Type 0
  EncryptsFiles (outcome, files) = outcome ≡ ok tt → all file_is_encrypted files ≡ true

  after_file-EncryptsFiles :
      (name bytes : Bytes) (rest : Result (Unit {0}) × Files)
      → is_encrypted_blob bytes ≡ true
      → EncryptsFiles rest
      → EncryptsFiles (after_file (name, bytes) rest)
  unfolding after_file
  after_file-EncryptsFiles name bytes (outcome, files) marked k h = rw (marked, k h) refl

  rewrite_file-EncryptsFiles :
      (b : Write) (name bytes : Bytes) (o : Outcome CipherError Bytes) (files : Files)
      (rest : Result (Unit {0}) × Files)
      → ((stored : Bytes) → o ≡ ok stored → is_encrypted_blob stored ≡ true)
      → EncryptsFiles rest
      → EncryptsFiles (rewrite_file b name bytes o files rest)
  unfolding rewrite_file
  rewrite_file-EncryptsFiles b name bytes (err e) files rest marked k = λ h. cc
  rewrite_file-EncryptsFiles not_opened name bytes (ok stored) files rest marked k = λ h. cc
  rewrite_file-EncryptsFiles (broken_off n) name bytes (ok stored) files rest marked k = λ h. cc
  rewrite_file-EncryptsFiles written name bytes (ok stored) files rest marked k =
      after_file-EncryptsFiles name stored rest (marked stored refl) k

  encrypt_files-EncryptsFiles :
      (files : Files) → EncryptsFiles (encrypt_files p disk nonces dek files)
  unfolding encrypt_files
  encrypt_files-EncryptsFiles [] = λ h. refl
  encrypt_files-EncryptsFiles ((name, bytes) ∷ files) =
      let rest = encrypt_files-EncryptsFiles files in
      elim (Bool-cases (disk.reads name)) [
        | inr unread ↦ rw (unread, encrypt_files) (λ h. cc)
        | inl reads ↦ elim (Bool-cases (is_encrypted_blob bytes)) [
          | inl marked ↦
              rw (reads, marked, encrypt_files)
                (after_file-EncryptsFiles name bytes (encrypt_files p disk nonces dek files) marked
                  rest)
          | inr unmarked ↦
              rw (reads, unmarked, encrypt_files)
                (rewrite_file-EncryptsFiles (disk.writes name) name bytes
                  (encrypt_blob p (nonces name) dek bytes) files
                  (encrypt_files p disk nonces dek files)
                  (encrypt_blob-marked p (nonces name) dek bytes) rest)
        ]
      ]

  abbrev SameNames : Files → Files → Type 0
  SameNames before after =
      (hash : Text) → is_none (blob_at hash after) ≡ is_none (blob_at hash before)

  SameNames-cons :
      (name bytes stored : Bytes) (before after : Files)
      → SameNames before after
      → SameNames ((name, bytes) ∷ before) ((name, stored) ∷ after)
  unfolding blob_at
  SameNames-cons name bytes stored before after h hash = elim (Bool-cases (same name hash)) [
    | inl e ↦ rw e refl
    | inr e ↦ rw e (h hash)
  ]

  rewrite_file-SameNames :
      (b : Write) (name bytes : Bytes) (o : Outcome CipherError Bytes) (files : Files)
      (rest : Result (Unit {0}) × Files)
      → SameNames files rest.1
      → SameNames ((name, bytes) ∷ files) (rewrite_file b name bytes o files rest).1
  unfolding rewrite_file after_file
  rewrite_file-SameNames b name bytes (err e) files rest h = λ hash. refl
  rewrite_file-SameNames not_opened name bytes (ok stored) files rest h = λ hash. refl
  rewrite_file-SameNames (broken_off n) name bytes (ok stored) files rest h =
      SameNames-cons name bytes (take n stored) files files (λ hash. refl)
  rewrite_file-SameNames written name bytes (ok stored) files rest h =
      SameNames-cons name bytes stored files rest.1 h

  encrypt_files-SameNames :
      (files : Files) → SameNames files (encrypt_files p disk nonces dek files).1
  unfolding encrypt_files after_file
  encrypt_files-SameNames [] = λ hash. refl
  encrypt_files-SameNames ((name, bytes) ∷ files) =
      let rest = encrypt_files-SameNames files in
      elim (Bool-cases (disk.reads name)) [
        | inr unread ↦ rw (unread, encrypt_files) (λ hash. refl)
        | inl reads ↦ elim (Bool-cases (is_encrypted_blob bytes)) [
          | inl marked ↦
              rw (reads, marked, encrypt_files)
                (SameNames-cons name bytes bytes files (encrypt_files p disk nonces dek files).1
                  rest)
          | inr unmarked ↦
              rw (reads, unmarked, encrypt_files)
                (rewrite_file-SameNames (disk.writes name) name bytes
                  (encrypt_blob p (nonces name) dek bytes) files
                  (encrypt_files p disk nonces dek files) rest)
        ]
      ]

  HasFile-SameNames :
      (before after : Files) (o : Option Text)
      → SameNames before after
      → HasFile before o
      → HasFile after o
  HasFile-SameNames before after none names h = tt
  HasFile-SameNames before after (some hash) names h =
      λ gone. h (none_of (blob_at hash before) (sym (names hash) ∙ ap is_none gone))
    where
      none_of : (o : Option Bytes) → is_none o ≡ true → o ≡ none
      none_of none e = refl
      none_of (some b) e = cc

  files_SameNames :
      (before after : Files) (rows : List Row)
      → SameNames before after
      → All (λ r. HasFile before r.blob_hash) rows
      → All (λ r. HasFile after r.blob_hash) rows
  files_SameNames before after [] names h = tt
  files_SameNames before after (r ∷ rows) names h = (
    HasFile-SameNames before after r.blob_hash names h.0,
    files_SameNames before after rows names h.1,
  )

  files-IsValid :
      (s : Store)
      → IsValid s
      → IsValid (record s { blobs = (encrypt_files p disk nonces dek s.blobs).1 })
  files-IsValid s v = record {
    ids = v.ids;
    hashes = v.hashes;
    files =
        files_SameNames s.blobs (encrypt_files p disk nonces dek s.blobs).1 s.rows
          (encrypt_files-SameNames s.blobs) v.files;
  }

  pub encrypt_all_blobs-IsValid :
      (s : Store) → IsValid s → IsValid (encrypt_all_blobs p disk nonces dek s).1
  unfolding encrypt_all_blobs
  encrypt_all_blobs-IsValid s v = elim (Bool-cases disk.lists) [
    | inl lists ↦ rw (lists, encrypt_all_blobs) (files-IsValid s v)
    | inr unlisted ↦ rw (unlisted, encrypt_all_blobs) v
  ]

  pub encrypt_all_blobs-AtRest :
      (s : Store)
      → all row_is_settled s.rows ≡ true
      → (encrypt_all_blobs p disk nonces dek s).0 ≡ ok tt
      → EncryptedAtRest (encrypt_all_blobs p disk nonces dek s).1
  unfolding encrypt_all_blobs
  encrypt_all_blobs-AtRest s h = elim (Bool-cases disk.lists) [
    | inl lists ↦
        rw (lists, encrypt_all_blobs)
          (λ k. record { rows = h; blobs = encrypt_files-EncryptsFiles s.blobs k })
    | inr unlisted ↦ rw (unlisted, encrypt_all_blobs) (λ k. cc)
  ]
