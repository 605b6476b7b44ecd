-- ===== src/Tests/LocalWitnesses.antt =====
-- The theorems about the local store at concrete stores.
use copywraith.Local.Table.{written, not_opened, Row, Store, at, blob_at, references}
use copywraith.Local.Settings.RoundTrip.{get_settings-save_settings}
use copywraith.Local.Settings.{
  get_sync_watermark, clear_sync_watermark, save_settings, save_sync_watermark, Table, get_settings,
}
use copywraith.Sync.Endpoint.{Settings}
use copywraith.Common.{
  ◌≡◌, refl, true, false, none, some, [], ◌∷◌, replicate, Bool, if◌then◌else◌, not, ◌&&◌, any,
}
use copywraith.Common.Text.{Text, Bytes, codes, same}
use copywraith.Content.Hash.{hex_encode}
use copywraith.Common.Outcome.{ok}
use copywraith.Model.Flavors.{image, no_flavors}
use copywraith.Local.Table.Laws.{IsValid}
use copywraith.Local.Storage.{toggle_star, delete_entry, mark_synced_if_unchanged}
use copywraith.Local.Storage.Valid.{delete_entry-IsValid, delete_entry-blob, without_id}
use copywraith.Local.Insert.{Identity, insert_entry, insert_remote_entry}
use copywraith.Local.Insert.Valid.{insert_entry-IsValid, insert_remote_entry-IsValid}
use copywraith.Local.Insert.Remote.{insert_remote_entry-again}
use copywraith.Local.Protocol.{none_yet, then_one, toggles, acknowledged_star}

-- A digest and a detector, for tests only.
abbrev digest : Bytes → Bytes
digest bytes = replicate 32 171

abbrev detect : Text → Bool
detect t = false

abbrev digest_name : Text
digest_name = codes "abababababababababababababababababababababababababababababababab"

abbrev row : Text → Text → Row
row id content_hash = record {
  id = id;
  content_type = codes "image";
  text_content = none;
  text_plain = none;
  text_html = none;
  text_rtf = none;
  search_text = none;
  blob_hash = some digest_name;
  blob_size = some 1;
  content_hash = content_hash;
  source_app = none;
  starred = false;
  sensitive = false;
  synced = false;
  created_at = at 5;
  updated_at = at 5;
}

abbrev row_a : Row
row_a = row (codes "a") (codes "x")

abbrev row_b : Row
row_b = row (codes "b") (codes "y")

abbrev shared_blob : Store
shared_blob = record { rows = row_a ∷ row_b ∷ []; blobs = (digest_name, 1 ∷ []) ∷ [] }

shared_blob-IsValid : IsValid shared_blob
unfolding blob_at same
shared_blob-IsValid = record {
  ids = ((refl, tt), (tt, tt));
  hashes = ((refl, tt), (tt, tt));
  files = (λ e. cc, (λ e. cc, tt));
}

abbrev empty : Store
empty = record { rows = []; blobs = [] }

empty-IsValid : IsValid empty
empty-IsValid = record { ids = tt; hashes = tt; files = tt }

abbrev remote : Identity
remote = record { id = codes "r"; created_at = 7; updated_at = 8 }

insert_entry-IsValid_example :
    IsValid
      (insert_entry digest detect 9
        (codes "n")
        written
        image
        no_flavors
        (some (1 ∷ 2 ∷ []))
        (codes "h")
        none
        shared_blob).1
insert_entry-IsValid_example =
    insert_entry-IsValid digest detect 9 (codes "n") written image no_flavors (some (1 ∷ 2 ∷ []))
      (codes "h") none shared_blob shared_blob-IsValid

insert_remote_entry-IsValid_example :
    IsValid
      (insert_remote_entry digest detect remote written image no_flavors
        (some (1 ∷ 2 ∷ []))
        (codes "h")
        none
        true
        empty).1
insert_remote_entry-IsValid_example =
    insert_remote_entry-IsValid digest detect remote written image no_flavors (some (1 ∷ 2 ∷ []))
      (codes "h") none true empty empty-IsValid

abbrev after_pull : Store
unfolding insert_remote_entry
after_pull =
    (insert_remote_entry digest detect remote written image no_flavors (some (1 ∷ 2 ∷ []))
      (codes "h") none true empty).1

insert_remote_entry-again_example :
    insert_remote_entry digest detect remote not_opened image no_flavors
      (some (1 ∷ 2 ∷ []))
      (codes "h")
      none
      true
      after_pull
    ≡ (ok false, after_pull)
unfolding insert_remote_entry hex_encode
insert_remote_entry-again_example =
    insert_remote_entry-again digest detect remote written not_opened image no_flavors
      (some (1 ∷ 2 ∷ [])) (codes "h") none true empty after_pull refl

delete_entry-IsValid_example : IsValid (delete_entry true (codes "a") shared_blob).1
delete_entry-IsValid_example = delete_entry-IsValid true (codes "a") shared_blob shared_blob-IsValid

delete_entry-blob_example :
    ((delete_entry true (codes "a") shared_blob).0 ≡ true)
    × ((delete_entry true (codes "a") shared_blob).1.rows ≡ without_id (codes "a") shared_blob)
    × (blob_at digest_name (delete_entry true (codes "a") shared_blob).1.blobs ≡ (
        if true
          && (same digest_name digest_name
              && not (any (references digest_name) (without_id (codes "a") shared_blob)))
        then none
        else blob_at digest_name shared_blob.blobs))
unfolding same
delete_entry-blob_example =
    delete_entry-blob true (codes "a") digest_name digest_name shared_blob row_a refl refl

abbrev toggled : Store
unfolding toggle_star
toggled = (toggle_star 6 (codes "b") shared_blob).1

-- The other row is toggled while the push of the first is under way.
acknowledged_star_example : row_a.starred ≡ row_a.starred
unfolding mark_synced_if_unchanged toggle_star same
acknowledged_star_example =
    acknowledged_star digest detect (codes "a") 5 shared_blob toggled row_a row_a
      shared_blob-IsValid refl (then_one none_yet (toggles 6 (codes "b") (λ e. cc) refl)) refl refl

-- An old table, with the one address and a watermark of older clients.
abbrev old_table : Table
old_table =
    (codes "server_url", codes "http://old")
    ∷ (codes "sync_last_seen_server_id", codes "01A")
    ∷ (codes "api_key", codes "k")
    ∷ []

abbrev wanted : Settings
wanted = record {
  server_url_primary = codes "http://home";
  server_url_fallback = [];
  api_key = codes "secret";
  shortcut_toggle_popup = codes "Ctrl+1";
  shortcut_starred_popup = codes "Ctrl+2";
  shortcut_paste_plaintext = codes "Ctrl+3";
  shizuku_clipboard_enabled = true;
}

get_settings-save_settings_example :
    (get_settings
        (save_sync_watermark (codes "2024") (codes "01B") (save_settings wanted old_table))
      ≡ wanted)
    × (get_settings (clear_sync_watermark (save_settings wanted old_table)) ≡ wanted)
    × (get_sync_watermark
          (save_settings wanted (save_sync_watermark (codes "2024") (codes "01B") old_table))
        ≡ some (codes "2024", codes "01B"))
    × (get_sync_watermark (clear_sync_watermark old_table) ≡ none)
get_settings-save_settings_example =
    get_settings-save_settings wanted (codes "2024") (codes "01B") old_table refl refl
