-- ===== src/Local/Settings.antt =====
-- The settings table of src-tauri/src/storage.rs: `get_settings`, `save_settings`, and the pull
-- watermark beside them. The table maps keys to texts.
pub mod RoundTrip
use copywraith.Common.{
  ℕ, Bool, true, false, not, ◌&&◌, ◌||◌, Option, none, some, List, [], ◌∷◌, any, if◌then◌else◌,
  or_else, unwrap_or, map,
}
use copywraith.Common.Table.{delete_where}
use copywraith.Sync.Endpoint.{Settings}
use copywraith.Common.Text.{Text, codes, same, lower, is_empty}

abbrev pub default_settings : Settings
default_settings = record {
  server_url_primary = [];
  server_url_fallback = [];
  api_key = [];
  shortcut_toggle_popup = codes "CmdOrCtrl+Shift+V";
  shortcut_starred_popup = codes "CmdOrCtrl+Shift+B";
  shortcut_paste_plaintext = codes "CmdOrCtrl+Shift+Alt+V";
  shizuku_clipboard_enabled = false;
}

abbrev pub Table : Type 0
Table = List (Text × Text)

-- `SELECT value FROM settings WHERE key = ?`
unfoldable pub lookup : Text → Table → Option Text
unfolding same
lookup key [] = none
lookup key ((k, value) ∷ table) = if same k key then some value else lookup key table

-- `INSERT OR REPLACE INTO settings (key, value)`
unfoldable pub put : Text → Text → Table → Table
unfolding delete_where same
put key value table = (key, value) ∷ delete_where (λ (e : Text × Text). same e.0 key) table

abbrev is_true : Text → Bool
is_true value = same value (codes "1") || same (map lower value) (codes "true")

abbrev pub read_flag : Option Text → Bool → Bool
read_flag none default_value = default_value
read_flag (some value) default_value = is_true value

unfoldable pub get_settings : Table → Settings
get_settings t = record {
  server_url_primary =
      unwrap_or (or_else (lookup (codes "server_url_primary") t) (lookup (codes "server_url") t))
        [];
  server_url_fallback = unwrap_or (lookup (codes "server_url_fallback") t) [];
  api_key = unwrap_or (lookup (codes "api_key") t) [];
  shortcut_toggle_popup =
      unwrap_or (lookup (codes "shortcut_toggle_popup") t) default_settings.shortcut_toggle_popup;
  shortcut_starred_popup =
      unwrap_or (lookup (codes "shortcut_starred_popup") t) default_settings.shortcut_starred_popup;
  shortcut_paste_plaintext =
      unwrap_or (lookup (codes "shortcut_paste_plaintext") t)
        default_settings.shortcut_paste_plaintext;
  shizuku_clipboard_enabled =
      read_flag (lookup (codes "shizuku_clipboard_enabled") t)
        default_settings.shizuku_clipboard_enabled;
}

-- The older key `server_url` is kept up for older clients.
unfoldable pub save_settings : Settings → Table → Table
save_settings s t =
    put (codes "shizuku_clipboard_enabled")
      (if s.shizuku_clipboard_enabled then codes "1" else codes "0")
      (put (codes "shortcut_paste_plaintext") s.shortcut_paste_plaintext (
        put (codes "shortcut_starred_popup") s.shortcut_starred_popup (
          put (codes "shortcut_toggle_popup") s.shortcut_toggle_popup (
            put (codes "api_key") s.api_key (
              put (codes "server_url") s.server_url_primary (
                put (codes "server_url_fallback") s.server_url_fallback
                  (put (codes "server_url_primary") s.server_url_primary t)))))))

abbrev non_empty : Option Text → Option Text
non_empty none = none
non_empty (some value) = if is_empty value then none else some value

abbrev both : Option Text → Option Text → Option (Text × Text)
both (some updated_at) (some id) = some (updated_at, id)
both _ _ = none

unfoldable pub get_sync_watermark : Table → Option (Text × Text)
get_sync_watermark t =
    both (non_empty (lookup (codes "sync_watermark_updated_at") t))
      (non_empty (lookup (codes "sync_watermark_id") t))

unfoldable pub save_sync_watermark : Text → Text → Table → Table
save_sync_watermark updated_at id t =
    put (codes "sync_watermark_id") id (put (codes "sync_watermark_updated_at") updated_at t)

abbrev watermark_keys : List Text
watermark_keys =
    codes "sync_watermark_updated_at"
    ∷ codes "sync_watermark_id"
    ∷ codes "sync_last_seen_server_id"
    ∷ []

unfoldable pub clear_sync_watermark : Table → Table
clear_sync_watermark t = delete_where (λ (e : Text × Text). any (same e.0) watermark_keys) t
