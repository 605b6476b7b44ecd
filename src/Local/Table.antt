-- ===== src/Local/Table.antt =====
-- The tables behind `LocalStorage` of src-tauri/src/storage.rs: `entries` as a list of rows, the
-- blob directory as an association list. A SQL statement is written out as what it does to the
-- rows. A failure of SQLite itself is not modelled.
pub mod Laws
use copywraith.Common.{
  ℕ, Bool, true, false, not, ◌&&◌, ◌||◌, Option, none, some, List, [], ◌∷◌, ◌++◌, ◌==◌,
  if◌then◌else◌, length, find, any, is_none, or_else,
}
use copywraith.Common.Text.{Text, Bytes, same}
use copywraith.Common.Outcome.{Outcome, ok, err}
use copywraith.Content.Hash.{hash_bytes, is_valid_hash}
use copywraith.Model.Flavors.{
  ContentType, text, Flavors, merge_legacy, best_plain_text, to_legacy_text_content, from_str,
  as_str,
}
use copywraith.Model.Entry.{ClipboardEntry}

-- A stored timestamp: an instant in RFC 3339, or a text that does not parse as one.
pub data Stamp : Type 0 where
  at : ℕ → Stamp
  unparsable : Text → Stamp

pub record Row : Type 0 where
  pub id : Text
  pub content_type : Text
  pub text_content : Option Text
  pub text_plain : Option Text
  pub text_html : Option Text
  pub text_rtf : Option Text
  pub search_text : Option Text
  pub blob_hash : Option Text
  pub blob_size : Option ℕ
  pub content_hash : Text
  pub source_app : Option Text
  pub starred : Bool
  pub sensitive : Bool
  pub synced : Bool
  pub created_at : Stamp
  pub updated_at : Stamp

pub record Store : Type 0 where
  pub rows : List Row
  pub blobs : List (Text × Bytes)

pub data StorageError : Type 0 where
  invalid_hash write_failed constraint_violation no_such_row bad_timestamp : StorageError

abbrev pub Result {ℓ} : Type ℓ → Type ℓ
Result A = Outcome StorageError A

-- `WHERE id = ?` and `WHERE content_hash = ?`
abbrev pub has_id : Text → Row → Bool
has_id id r = same r.id id

abbrev pub has_hash : Text → Row → Bool
has_hash hash r = same r.content_hash hash

-- `INSERT INTO entries`: the primary key and the unique index on `content_hash` are enforced.
unfoldable pub insert_row : Row → List Row → Result (List Row)
insert_row r rs =
    if any (has_id r.id) rs || any (has_hash r.content_hash) rs
    then err constraint_violation
    else ok (rs ++ r ∷ [])

unfoldable pub blob_at : Text → List (Text × Bytes) → Option Bytes
blob_at hash [] = none
blob_at hash ((name, bytes) ∷ files) = if same name hash then some bytes else blob_at hash files

-- How a `std::fs::write` ends. It first creates or empties the file, so that one that fails has left
-- the disk alone or has broken off after some of the bytes.
pub data Write : Type 0 where
  written not_opened : Write
  broken_off : ℕ → Write

unfoldable pub remove_file : Text → List (Text × Bytes) → List (Text × Bytes)
remove_file hash [] = []
remove_file hash ((name, bytes) ∷ files) =
    let rest = remove_file hash files in if same name hash then rest else (name, bytes) ∷ rest

abbrev pub references : Text → Row → Bool
references hash r = elim r.blob_hash [ none ↦ false | some h ↦ same h hash ]
