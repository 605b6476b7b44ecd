-- ===== src/Local/Storage.antt =====
-- The operations of `LocalStorage` of src-tauri/src/storage.rs that read or change existing rows.
-- The clock, and whether a file can be removed, are arguments.
pub mod Valid
use copywraith.Common.{
  ℕ, Bool, true, false, not, ◌&&◌, ◌||◌, Option, none, some, List, [], ◌∷◌, ◌++◌, ◌==◌,
  if◌then◌else◌, length, find, any, is_none, or_else, map, take, filter,
}
use copywraith.Common.Text.{Text, Bytes, same}
use copywraith.Common.Outcome.{Outcome, ok, err}
use copywraith.Content.Hash.{hash_bytes, is_valid_hash}
use copywraith.Model.Flavors.{
  ContentType, text, Flavors, merge_legacy, best_plain_text, to_legacy_text_content, from_str,
  as_str,
}
use copywraith.Model.Entry.{ClipboardEntry}
use copywraith.Local.Table.{
  Stamp, at, unparsable, Row, Store, StorageError, invalid_hash, write_failed, constraint_violation,
  no_such_row, bad_timestamp, Result, has_id, has_hash, insert_row, blob_at, remove_file,
  references,
}
use copywraith.Common.Table.{update_where, delete_where}

-- `parse().unwrap_or_else(|_| Utc::now())`
abbrev stamp_or : ℕ → Stamp → ℕ
stamp_or now (at t) = t
stamp_or now (unparsable _) = now

unfoldable pub row_to_entry : ℕ → Row → ClipboardEntry
unfolding merge_legacy from_str
row_to_entry now r =
    let content_type = elim (from_str r.content_type) as (λ _. ContentType) [
      | none ↦ text
      | some c ↦ c
    ] in
    let flavors =
      merge_legacy
        (record {
          text_plain = r.text_plain;
          text_html = r.text_html;
          text_rtf = r.text_rtf;
          file_list = none;
        })
        content_type r.text_content in
    record {
      id = r.id;
      content_type = content_type;
      text_content = or_else r.text_content (to_legacy_text_content flavors content_type);
      blob_hash = r.blob_hash;
      blob_size = r.blob_size;
      source_app = r.source_app;
      flavors = flavors;
      starred = r.starred;
      sensitive = r.sensitive;
      created_at = stamp_or now r.created_at;
      updated_at = stamp_or now r.updated_at;
    }

-- SELECT … WHERE id = ?
unfoldable pub get_entry : ℕ → Text → Store → Option ClipboardEntry
unfolding row_to_entry
get_entry now id s = elim (find (has_id id) s.rows) [
  | none ↦ none
  | some r ↦ some (row_to_entry now r)
]

unfoldable pub has_content_hash : Text → Store → Bool
has_content_hash hash s = any (has_hash hash) s.rows

unfoldable pub set_starred : Text → Bool → Store → Store
unfolding update_where
set_starred id starred s = record s {
  rows = update_where (has_id id) (λ r. record r { starred = starred }) s.rows;
}

-- The star flips, the row is queued for a push again, and its timestamp moves.
unfoldable pub toggle_star : ℕ → Text → Store → Result Bool × Store
unfolding update_where
toggle_star now id s = elim (find (has_id id) s.rows) [
  | none ↦ (err no_such_row, s)
  | some current ↦ (
    ok (not current.starred),
    record s {
      rows =
          update_where (has_id id)
            (λ r. record r { starred = not current.starred; synced = false; updated_at = at now })
            s.rows;
    },
  )
]

abbrev eq_bool : Bool → Bool → Bool
eq_bool true b = b
eq_bool false b = not b

-- Unpushed local changes are kept.
unfoldable pub apply_remote_star : ℕ → Text → Bool → Store → Bool × Store
unfolding update_where
apply_remote_star now hash starred s = elim (find (has_hash hash) s.rows) [
  | none ↦ (false, s)
  | some current ↦ if not current.synced || eq_bool current.starred starred then (false, s) else (
    any (λ r. has_hash hash r && r.synced) s.rows,
    record s {
      rows =
          update_where (λ r. has_hash hash r && r.synced)
            (λ r. record r { starred = starred; updated_at = at now }) s.rows;
    },
  )
]

-- The file goes when no row that is left refers to it; a removal that fails is ignored.
drop_blob : Bool → Option Text → Store → Store
unfolding remove_file
drop_blob removes none s = s
drop_blob removes (some hash) s =
    if any (references hash) s.rows || not removes
    then s
    else record s { blobs = remove_file hash s.blobs }

unfoldable pub delete_entry : Bool → Text → Store → Bool × Store
unfolding delete_where drop_blob
delete_entry removes id s =
    let left = record s { rows = delete_where (has_id id) s.rows } in
    elim (find (has_id id) s.rows) [
      | none ↦ (false, left)
      | some r ↦ (true, drop_blob removes r.blob_hash left)
    ]

unfoldable pub get_blob : Text → Store → Result (Option Bytes)
unfolding is_valid_hash blob_at
get_blob hash s = if is_valid_hash hash then ok (blob_at hash s.blobs) else err invalid_hash

-- Marks a row synced if it still has the timestamp that was pushed.
unfoldable pub ack_row : ℕ → Text → Stamp → Store → Result Bool × Store
unfolding update_where
ack_row pushed id (unparsable _) s = (err bad_timestamp, s)
ack_row pushed id (at t) s =
    if t == pushed
    then (
      ok true,
      record s { rows = update_where (has_id id) (λ r. record r { synced = true }) s.rows },
    )
    else (ok false, s)

unfoldable pub mark_synced_if_unchanged : Text → ℕ → Store → Result Bool × Store
unfolding ack_row
mark_synced_if_unchanged id pushed s = elim (find (has_id id) s.rows) [
  | none ↦ (ok false, s)
  | some r ↦ ack_row pushed id r.updated_at s
]

-- The push queue: rows that are not synced, 50 at most, as `ORDER BY created_at` arranges them.
unfoldable pub get_unsynced_entries : (List Row → List Row) → ℕ → Store → List ClipboardEntry
unfolding row_to_entry
get_unsynced_entries order_by_created_at now s =
    map (row_to_entry now) (take 50 (order_by_created_at (filter (λ r. not r.synced) s.rows)))
