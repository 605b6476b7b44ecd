-- ===== src/Local/Insert/Valid.antt =====
-- Insertions keep a store valid, on every branch: a known payload, a refused write, a refused row
-- and success.
use copywraith.Local.Insert.{
  save_blob, broken_off, Identity, write_blob, new_row, store_row, insert_entry,
  insert_remote_entry, created, added,
}
use copywraith.Local.Table.{
  Write, written, not_opened, broken_off, Row, Store, at, Result, has_id, has_hash, insert_row,
  blob_at,
}
use copywraith.Common.{
  take, [], All-append, All, ℕ, ◌≡◌, refl, inl, inr, Bool, true, not, ◌||◌, Option, none, some,
  List, ◌∷◌, arith, is_none, any, find, Bool-cases, Option-cases,
}
use copywraith.Common.Text.{Text, Bytes, same_refl}
use copywraith.Common.Outcome.{ok, err}
use copywraith.Content.Hash.{hash_bytes, is_valid_hash}
use copywraith.Model.Flavors.{ContentType, Flavors}
use copywraith.Local.Table.Laws.{IsValid, HasFile, update-IsValid, insert-IsValid, files-cons}

-- What `write_blob` leaves: a valid store with the same rows, that holds the file it names.
abbrev Written : Store → Result (Option Text × Option ℕ) × Store → Type 0
Written s (ok (hash, size), t) = IsValid t × (t.rows ≡ s.rows) × HasFile t.blobs hash
Written s (err e, t) = IsValid t × (t.rows ≡ s.rows)

module _ (sha256 : Bytes → Bytes) (contains_sensitive_data : Text → Bool) where
  blob_at-head :
      (hash : Text) (bytes : Bytes) (files : List (Text × Bytes))
      → blob_at hash ((hash, bytes) ∷ files) ≡ some bytes
  unfolding blob_at
  blob_at-head hash bytes files = rw (same_refl hash)

  file_of_some :
      (hash : Text) (files : List (Text × Bytes))
      → not (is_none (blob_at hash files)) ≡ true
      → HasFile files (some hash)
  file_of_some hash files h = ground arith

  cons-IsValid :
      (hash : Text) (bytes : Bytes) (s : Store)
      → IsValid s
      → IsValid (record s { blobs = (hash, bytes) ∷ s.blobs })
  cons-IsValid hash bytes s v = record {
    ids = v.ids;
    hashes = v.hashes;
    files = files-cons hash bytes s.blobs s.rows v.files;
  }

  save_blob-Written :
      (write : Write) (hash : Text) (bytes : Bytes) (s : Store)
      → IsValid s
      → Written s (save_blob write hash bytes s)
  unfolding save_blob
  save_blob-Written written hash bytes s v =
      (cons-IsValid hash bytes s v, refl, λ e. cc (blob_at-head hash bytes s.blobs))
  save_blob-Written not_opened hash bytes s v = (v, refl)
  save_blob-Written (broken_off n) hash bytes s v = (cons-IsValid hash (take n bytes) s v, refl)

  write_blob-Written :
      (write : Write) (blob : Option Bytes) (s : Store)
      → IsValid s
      → Written s (write_blob sha256 contains_sensitive_data write blob s)
  unfolding write_blob
  write_blob-Written write none s v = (v, refl, tt)
  write_blob-Written write (some bytes) s v =
      let hash = hash_bytes sha256 bytes in
      elim (Bool-cases (not (is_valid_hash hash))) [
        | inl bad ↦ rw bad (v, refl)
        | inr good ↦ rw good (elim (Bool-cases (not (is_none (blob_at hash s.blobs)))) [
          | inl there ↦ rw there (v, refl, file_of_some hash s.blobs there)
          | inr missing ↦ rw missing (save_blob-Written write hash bytes s v)
        ])
      ]

  -- Appending a row with new keys to what `write_blob` left.
  store_row-IsValid :
      (s : Store) (w : Result (Option Text × Option ℕ) × Store) (row : Option Text × Option ℕ → Row)
      → ((b : Option Text × Option ℕ) → (row b).blob_hash ≡ b.0)
      → Written s w
      → IsValid (store_row sha256 contains_sensitive_data w row).1
  unfolding store_row insert_row
  store_row-IsValid s (err e, t) row same_blob (v, rows) = v
  store_row-IsValid s (ok b, t) row same_blob (v, rows, file) =
      elim (Bool-cases
        (any (has_id (row b).id) t.rows || any (has_hash (row b).content_hash) t.rows)) [
          | inl taken ↦ rw (taken, store_row) v
          | inr free ↦
              rw (free, store_row)
                (insert-IsValid (row b) t (ground arith) (ground arith) (rw (same_blob b) file) v)
        ]

  rows-save_blob :
      (write : Write) (hash : Text) (bytes : Bytes) (s : Store)
      → (save_blob write hash bytes s).1.rows ≡ s.rows
  unfolding save_blob
  rows-save_blob written hash bytes s = refl
  rows-save_blob not_opened hash bytes s = refl
  rows-save_blob (broken_off n) hash bytes s = refl

  pub rows-write_blob :
      (write : Write) (blob : Option Bytes) (s : Store)
      → (write_blob sha256 contains_sensitive_data write blob s).1.rows ≡ s.rows
  unfolding write_blob
  rows-write_blob write none s = refl
  rows-write_blob write (some bytes) s =
      ground (arith, rows-save_blob write (hash_bytes sha256 bytes) bytes s)

  -- What holds of the rows before and of the new row holds afterwards.
  pub All-store_row :
      (P : Row → Type 0) (w : Result (Option Text × Option ℕ) × Store)
      (row : Option Text × Option ℕ → Row)
      → ((b : Option Text × Option ℕ) → P (row b))
      → All P w.1.rows
      → All P (store_row sha256 contains_sensitive_data w row).1.rows
  unfolding store_row insert_row
  All-store_row P (err e, t) row new h = h
  All-store_row P (ok b, t) row new h =
      elim (Bool-cases
        (any (has_id (row b).id) t.rows || any (has_hash (row b).content_hash) t.rows)) [
          | inl taken ↦ rw (taken, store_row) h
          | inr free ↦ rw (free, store_row) (All-append P t.rows (row b ∷ []) h (new b, tt))
        ]

  pub created-state : (r : Result Row × Store) → (created r).1 ≡ r.1
  created-state (ok r, s) = refl
  created-state (err e, s) = refl

  pub added-state : (r : Result Row × Store) → (added r).1 ≡ r.1
  added-state (ok r, s) = refl
  added-state (err e, s) = refl

  -- A capture keeps the store valid, whether the payload is known, the write or the row is refused,
  -- or a row is added.
  pub insert_entry-IsValid :
      (now : ℕ) (fresh_id : Text) (write : Write) (content_type : ContentType) (flavors : Flavors)
      (blob : Option Bytes) (content_hash : Text) (source_app : Option Text) (s : Store)
      → IsValid s
      → IsValid
          (insert_entry sha256 contains_sensitive_data now fresh_id write content_type flavors blob
            content_hash source_app s).1
  unfolding insert_entry new_row
  insert_entry-IsValid now fresh_id write content_type flavors blob content_hash source_app s v =
      elim (Option-cases (find (has_hash content_hash) s.rows)) [
        | inl e ↦
            rw (e, insert_entry)
              (rw (created-state _) (
                store_row-IsValid s (write_blob sha256 contains_sensitive_data write blob s) _
                  (λ b. refl) (write_blob-Written write blob s v)))
        | inr (r, e) ↦
            rw (e, insert_entry)
              (update-IsValid (has_id r.id) (λ q. record q { updated_at = at now }) s (λ q. refl)
                (λ q. refl) (λ q. refl) v)
      ]

  -- An entry pulled from the server keeps the store valid, whether it is known, the write or the row is
  -- refused, or a row is added.
  pub insert_remote_entry-IsValid :
      (remote : Identity) (write : Write) (content_type : ContentType) (flavors : Flavors)
      (blob : Option Bytes) (content_hash : Text) (source_app : Option Text) (starred : Bool)
      (s : Store)
      → IsValid s
      → IsValid
          (insert_remote_entry sha256 contains_sensitive_data remote write content_type flavors blob
            content_hash source_app starred s).1
  unfolding insert_remote_entry new_row
  insert_remote_entry-IsValid remote write content_type flavors blob content_hash source_app starred
        s v =
      elim (Bool-cases (any (λ r. has_hash content_hash r || has_id remote.id r) s.rows)) [
        | inl e ↦ rw e v
        | inr e ↦ rw e (
            rw (added-state _) (
              store_row-IsValid s (write_blob sha256 contains_sensitive_data write blob s) _
                (λ b. refl) (write_blob-Written write blob s v)))
      ]
