-- ===== src/Local/Insert.antt =====
-- `insert_entry`, `insert_remote_entry` and `write_blob` of src-tauri/src/storage.rs. The clock, the
-- fresh ULID and how a file write ends are arguments; SHA-256 and the detector of
-- `Sensitive.Detect` are parameters.
pub mod Valid
pub mod Remote
use copywraith.Local.Table.{
  Write, written, not_opened, broken_off, Stamp, at, unparsable, Row, Store, StorageError,
  invalid_hash, write_failed, constraint_violation, no_such_row, bad_timestamp, Result, has_id,
  has_hash, insert_row, blob_at, remove_file, references,
}
use copywraith.Common.{
  take, ℕ, Bool, true, false, not, ◌&&◌, ◌||◌, Option, none, some, List, [], ◌∷◌, ◌++◌, ◌==◌,
  if◌then◌else◌, length, find, any, is_none, or_else,
}
use copywraith.Common.Text.{Text, Bytes, same}
use copywraith.Common.Outcome.{Outcome, ok, err}
use copywraith.Content.Hash.{hash_bytes, is_valid_hash}
use copywraith.Model.Flavors.{
  ContentType, text, Flavors, merge_legacy, best_plain_text, to_legacy_text_content, from_str,
  as_str,
}
use copywraith.Model.Entry.{ClipboardEntry}
use copywraith.Common.Table.{update_where, delete_where}

abbrev created : Result Row × Store → Result (Option Row) × Store
created (ok r, s) = (ok (some r), s)
created (err e, s) = (err e, s)

abbrev added : Result Row × Store → Result Bool × Store
added (ok r, s) = (ok true, s)
added (err e, s) = (err e, s)

-- `RemoteEntryIdentity`
pub record Identity : Type 0 where
  pub id : Text
  pub created_at : ℕ
  pub updated_at : ℕ

-- The write of a new blob; one that broke off leaves its beginning under the hash.
save_blob : Write → Text → Bytes → Store → Result (Option Text × Option ℕ) × Store
save_blob written hash bytes s =
    (ok (some hash, some (length bytes)), record s { blobs = (hash, bytes) ∷ s.blobs })
save_blob not_opened hash bytes s = (err write_failed, s)
save_blob (broken_off n) hash bytes s =
    (err write_failed, record s { blobs = (hash, take n bytes) ∷ s.blobs })

module _ (sha256 : Bytes → Bytes) (contains_sensitive_data : Text → Bool) where
  -- A blob is written once, under its hash; `write` says how the write ends.
  unfoldable pub write_blob : Write → Option Bytes → Store → Result (Option Text × Option ℕ) × Store
  unfolding save_blob blob_at hash_bytes is_valid_hash
  write_blob write none s = (ok (none, none), s)
  write_blob write (some bytes) s =
      let hash = hash_bytes sha256 bytes in
      if not (is_valid_hash hash)
      then (err invalid_hash, s)
      else if not (is_none (blob_at hash s.blobs))
      then (ok (some hash, some (length bytes)), s)
      else save_blob write hash bytes s

  unfoldable pub is_sensitive : Option Text → Bool
  is_sensitive none = false
  is_sensitive (some t) = contains_sensitive_data t

  -- The row of an `INSERT`, in both of its uses.
  unfoldable pub new_row :
      Identity
      → ContentType
      → Flavors
      → Option Text × Option ℕ
      → Text
      → Option Text
      → Bool
      → Bool
      → Row
  unfolding merge_legacy is_sensitive as_str
  new_row identity content_type flavors (blob_hash, blob_size) content_hash source_app starred
        synced =
      let resolved = merge_legacy flavors content_type none in
      record {
        id = identity.id;
        content_type = as_str content_type;
        text_content = to_legacy_text_content resolved content_type;
        text_plain = resolved.text_plain;
        text_html = resolved.text_html;
        text_rtf = resolved.text_rtf;
        search_text = best_plain_text resolved;
        blob_hash = blob_hash;
        blob_size = blob_size;
        content_hash = content_hash;
        source_app = source_app;
        starred = starred;
        sensitive = is_sensitive (best_plain_text resolved);
        synced = synced;
        created_at = at identity.created_at;
        updated_at = at identity.updated_at;
      }

  -- The `INSERT` after the blob is on disk: a refused row leaves the blob behind.
  unfoldable pub store_row :
      Result (Option Text × Option ℕ) × Store → (Option Text × Option ℕ → Row) → Result Row × Store
  unfolding insert_row
  store_row (err e, s) row = (err e, s)
  store_row (ok blob, s) row = elim (insert_row (row blob) s.rows) [
    | err e ↦ (err e, s)
    | ok rows ↦ (ok (row blob), record s { rows = rows })
  ]

  -- A captured copy. A payload that is known already only moves to the top; the answer is the new
  -- row, if there is one.
  unfoldable pub insert_entry :
      ℕ
      → Text
      → Write
      → ContentType
      → Flavors
      → Option Bytes
      → Text
      → Option Text
      → Store
      → Result (Option Row) × Store
  unfolding new_row store_row write_blob update_where
  insert_entry now fresh_id write content_type flavors blob content_hash source_app s =
      elim (find (has_hash content_hash) s.rows) [
        | some r ↦ (
          ok none,
          record s {
            rows = update_where (has_id r.id) (λ q. record q { updated_at = at now }) s.rows;
          },
        )
        | none ↦ created (
            store_row (write_blob write blob s) (λ b.
              new_row (record { id = fresh_id; created_at = now; updated_at = now }) content_type
                flavors b content_hash source_app false false))
      ]

  -- An entry pulled from the server, with the server's identity; already synced.
  unfoldable pub insert_remote_entry :
      Identity
      → Write
      → ContentType
      → Flavors
      → Option Bytes
      → Text
      → Option Text
      → Bool
      → Store
      → Result Bool × Store
  unfolding new_row store_row write_blob
  insert_remote_entry remote write content_type flavors blob content_hash source_app starred s =
      if any (λ r. has_hash content_hash r || has_id remote.id r) s.rows
      then (ok false, s)
      else added (
          store_row (write_blob write blob s)
            (λ b. new_row remote content_type flavors b content_hash source_app starred true))
