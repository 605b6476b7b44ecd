-- ===== src/Server/Store.antt =====
-- The operations of `Storage` of server/src/storage.rs that change the table or the blob
-- directory, and the migration of plaintext to encrypted storage. The key is `none` where the
-- server knows none. The clock, the fresh ULID, the nonces, how a file write ends and whether a file
-- can be removed are arguments; SQLite itself does not fail.
pub mod Valid
pub mod AtRest
pub mod Migrate
use copywraith.Local.Table.{Write, written, not_opened, broken_off, blob_at, remove_file}
use copywraith.Common.{
  take, ℕ, Bool, true, false, not, ◌&&◌, ◌||◌, Option, none, some, List, [], ◌∷◌, ◌++◌, ◌==◌,
  if◌then◌else◌, length, find, any, is_none, or_else, unwrap_or, map,
}
use copywraith.Common.Table.{delete_where, update_where}
use copywraith.Common.Text.{Text, Bytes, same}
use copywraith.Common.Outcome.{Outcome, ok, err, ◌>>=◌, ok_or}
use copywraith.Content.Hash.{hash_bytes, is_valid_hash}
use copywraith.Model.Flavors.{
  ContentType, text, Flavors, merge_legacy, best_plain_text, to_legacy_text_content, as_str,
}
use copywraith.Model.Entry.{ClipboardEntry}
use copywraith.Server.Crypto.Primitives.{Primitives}
use copywraith.Server.Crypto.Cipher.{CipherError, encrypt_blob, is_encrypted_blob}
use copywraith.Server.Records.{
  Row, Store, Texts, texts_of, with_texts, row_to_entry, stored_texts, shown_entry, encrypt_texts,
}

pub data StorageError : Type 0 where
  bad_base64 invalid_hash read_failed write_failed constraint_violation bad_search : StorageError
  cipher : CipherError → StorageError

abbrev pub Result {ℓ} : Type ℓ → Type ℓ
Result A = Outcome StorageError A

abbrev pub from_cipher {ℓ} : {A : Type ℓ} → Outcome CipherError A → Result A
from_cipher (ok a) = ok a
from_cipher (err e) = err (cipher e)

abbrev pub has_id : Text → Row → Bool
has_id id r = same r.id id

abbrev pub has_hash : Text → Row → Bool
has_hash hash r = same r.content_hash hash

abbrev pub references : Text → Row → Bool
references hash r = elim r.blob_hash [ none ↦ false | some h ↦ same h hash ]

unfoldable pub insert_row : Row → List Row → Result (List Row)
insert_row r rs =
    if any (has_id r.id) rs || any (has_hash r.content_hash) rs
    then err constraint_violation
    else ok (rs ++ r ∷ [])

abbrev pub BlobColumns : Type 0
BlobColumns = Option Text × Option ℕ

-- The write of a new blob; one that broke off leaves its beginning under the hash.
save_blob : Write → Text → ℕ → Outcome CipherError Bytes → Store → Result BlobColumns × Store
save_blob write hash size (err e) s = (err (cipher e), s)
save_blob written hash size (ok to_write) s =
    (ok (some hash, some size), record s { blobs = (hash, to_write) ∷ s.blobs })
save_blob not_opened hash size (ok to_write) s = (err write_failed, s)
save_blob (broken_off n) hash size (ok to_write) s =
    (err write_failed, record s { blobs = (hash, take n to_write) ∷ s.blobs })

abbrev pub clear_texts : Flavors → ContentType → Texts
clear_texts resolved content_type = record {
  text_content = to_legacy_text_content resolved content_type;
  text_plain = resolved.text_plain;
  text_html = resolved.text_html;
  text_rtf = resolved.text_rtf;
  search_text = best_plain_text resolved;
}

unfoldable pub new_row : ClipboardEntry → Text → Texts → Row
unfolding as_str
new_row e content_hash t = record {
  id = e.id;
  content_type = as_str e.content_type;
  text_content = t.text_content;
  text_plain = t.text_plain;
  text_html = t.text_html;
  text_rtf = t.text_rtf;
  search_text = t.search_text;
  blob_hash = e.blob_hash;
  blob_size = e.blob_size;
  content_hash = content_hash;
  source_app = e.source_app;
  starred = e.starred;
  sensitive = e.sensitive;
  created_at = e.created_at;
  updated_at = e.updated_at;
}

-- The `INSERT`, after the blob is on disk and the columns are encrypted.
unfoldable pub insert_new :
    ClipboardEntry
    → Text
    → Outcome CipherError Texts
    → Store
    → Result (ClipboardEntry × Bool) × Store
unfolding insert_row new_row
insert_new e content_hash (err c) s = (err (cipher c), s)
insert_new e content_hash (ok t) s = elim (insert_row (new_row e content_hash t) s.rows) [
  | err c ↦ (err c, s)
  | ok rows ↦ (ok (e, true), record s { rows = rows })
]

unfoldable pub after_blob :
    (BlobColumns → ClipboardEntry)
    → Text
    → Outcome CipherError Texts
    → Result BlobColumns × Store
    → Result (ClipboardEntry × Bool) × Store
unfolding insert_new
after_blob entry content_hash stored (err e, s) = (err e, s)
after_blob entry content_hash stored (ok columns, s) =
    insert_new (entry columns) content_hash stored s

module _ (contains_sensitive_data : Text → Bool) where
  unfoldable pub is_sensitive : Option Text → Bool
  is_sensitive none = false
  is_sensitive (some t) = contains_sensitive_data t

  -- The entry of the answer, with the texts as they came.
  unfoldable pub new_entry :
      ℕ → Text → ContentType → Flavors → BlobColumns → Option Text → Bool → ClipboardEntry
  unfolding is_sensitive
  new_entry now fresh_id content_type resolved (blob_hash, blob_size) source_app starred = record {
    id = fresh_id;
    content_type = content_type;
    text_content = to_legacy_text_content resolved content_type;
    blob_hash = blob_hash;
    blob_size = blob_size;
    source_app = source_app;
    flavors = resolved;
    starred = starred;
    sensitive = is_sensitive (best_plain_text resolved);
    created_at = now;
    updated_at = now;
  }

module _ (p : Primitives) where
  -- What is written for a blob: encrypted where the key is known.
  unfoldable pub stored_blob : Bytes → Option Bytes → Bytes → Outcome CipherError Bytes
  unfolding encrypt_blob
  stored_blob nonce none bytes = ok bytes
  stored_blob nonce (some dek) bytes = encrypt_blob p nonce dek bytes

  unfoldable pub write_bytes :
      Write → Bytes → Option Bytes → Bytes → Store → Result BlobColumns × Store
  unfolding save_blob stored_blob blob_at hash_bytes is_valid_hash
  write_bytes write nonce dek bytes s =
      let hash = hash_bytes p.sha256 bytes in
      if not (is_valid_hash hash)
      then (err invalid_hash, s)
      else if not (is_none (blob_at hash s.blobs))
      then (ok (some hash, some (length bytes)), s)
      else save_blob write hash (length bytes) (stored_blob nonce dek bytes) s

  unfoldable pub write_blob :
      Write → Bytes → Option Bytes → Option Text → Store → Result BlobColumns × Store
  unfolding write_bytes
  write_blob write nonce dek none s = (ok (none, none), s)
  write_blob write nonce dek (some b64) s = elim (p.base64_decode b64) [
    | none ↦ (err bad_base64, s)
    | some bytes ↦ write_bytes write nonce dek bytes s
  ]

  -- Content that is known moves to the top and takes a star that is given.
  unfoldable pub touch_entry :
      ℕ → Option Bool → Option Bytes → Row → Store → Result (ClipboardEntry × Bool) × Store
  unfolding update_where shown_entry row_to_entry
  touch_entry now starred dek r s =
      let next_starred = unwrap_or starred r.starred in
      (
        from_cipher (do
          e ←
              shown_entry p dek
                (record (row_to_entry r) { starred = next_starred; updated_at = now })
          ok (e, false)),
        record s {
          rows =
              update_where (has_id r.id)
                (λ q. record q { updated_at = now; starred = next_starred }) s.rows;
        },
      )

  unfoldable pub get_entry : Text → Option Bytes → Store → Result (Option ClipboardEntry)
  unfolding row_to_entry shown_entry
  get_entry id dek s = elim (find (has_id id) s.rows) [
    | none ↦ ok none
    | some r ↦ from_cipher (do e ← shown_entry p dek (row_to_entry r); ok (some e))
  ]

  module _ (contains_sensitive_data : Text → Bool) where
    unfoldable pub create_new :
        ℕ
        → Text
        → Write
        → (ℕ → Bytes)
        → ContentType
        → Flavors
        → Option Text
        → Option Text
        → Option Bool
        → Text
        → Option Bytes
        → Store
        → Result (ClipboardEntry × Bool) × Store
    unfolding write_blob new_entry stored_texts after_blob merge_legacy
    create_new now fresh_id write nonce content_type flavors blob_base64 source_app starred
          content_hash dek s =
        let resolved = merge_legacy flavors content_type none in
        after_blob
          (λ columns.
            new_entry contains_sensitive_data now fresh_id content_type resolved columns source_app
              (unwrap_or starred false))
          content_hash (stored_texts p nonce dek (clear_texts resolved content_type))
          (write_blob write (nonce 0) dek blob_base64 s)

    unfoldable pub create_entry :
        ℕ
        → Text
        → Write
        → (ℕ → Bytes)
        → ContentType
        → Flavors
        → Option Text
        → Option Text
        → Option Bool
        → Text
        → Option Bytes
        → Store
        → Result (ClipboardEntry × Bool) × Store
    unfolding touch_entry create_new
    create_entry now fresh_id write nonce content_type flavors blob_base64 source_app starred
          content_hash dek s =
        elim (find (has_hash content_hash) s.rows) [
          | some r ↦ touch_entry now starred dek r s
          | none ↦
              create_new now fresh_id write nonce content_type flavors blob_base64 source_app
                starred content_hash dek s
        ]

unfoldable pub update_entry_starred : ℕ → Text → Bool → Store → Bool × Store
unfolding update_where
update_entry_starred now id starred s = (
  any (has_id id) s.rows,
  record s {
    rows = update_where (has_id id) (λ r. record r { starred = starred; updated_at = now }) s.rows;
  },
)

-- The file goes when no row that is left refers to it; a removal that fails is ignored.
unfoldable pub drop_blob : Bool → Option Text → Store → Store
unfolding remove_file
drop_blob removes none s = s
drop_blob removes (some hash) s =
    if any (references hash) s.rows || not removes
    then s
    else record s { blobs = remove_file hash s.blobs }

unfoldable pub delete_entry : Bool → Text → Store → Bool × Store
unfolding delete_where drop_blob
delete_entry removes id s =
    let left = record s { rows = delete_where (has_id id) s.rows } in
    elim (find (has_id id) s.rows) [
      | none ↦ (false, left)
      | some r ↦ (true, drop_blob removes r.blob_hash left)
    ]

unfoldable pub get_blob : Text → Store → Result (Option Bytes)
unfolding is_valid_hash blob_at
get_blob hash s = if not (is_valid_hash hash) then err invalid_hash else ok (blob_at hash s.blobs)

unfoldable pub count_entries : Store → ℕ
count_entries s = length s.rows
