-- ===== src/Local/Settings/RoundTrip.antt =====
-- That saved settings and watermarks are read back, and do not disturb each other.
use copywraith.Common.{
  ◌≡◌, refl, ◌∙◌, Bool, true, false, none, some, [], ◌∷◌, any, if◌then◌else◌, Bool-cases, inl, inr,
  arith,
}
use copywraith.Common.Table.{delete_where}
use copywraith.Common.Text.{Text, codes, same, same_iff, is_empty}
use copywraith.Sync.Endpoint.{Settings}
use copywraith.Local.Settings.{
  Table, lookup, put, get_settings, save_settings, get_sync_watermark, save_sync_watermark,
  clear_sync_watermark, watermark_keys, read_flag,
}

-- Rows that a deletion keeps are found as before.
lookup-delete_where :
    (p : Text × Text → Bool) (key : Text) (t : Table)
    → ((value k : Text) → same k key ≡ true → p (k, value) ≡ false)
    → lookup key (delete_where p t) ≡ lookup key t
unfolding lookup delete_where
lookup-delete_where p key [] kept = refl
lookup-delete_where p key ((k, value) ∷ t) kept = elim (Bool-cases (same k key)) [
  | inl here ↦ rw (kept value k here, here) refl
  | inr other ↦ rw other (elim (Bool-cases (p (k, value))) [
    | inl gone ↦ rw gone (lookup-delete_where p key t kept)
    | inr stays ↦ rw (stays, other) (lookup-delete_where p key t kept)
  ])
]

same_trans :
    (k key other : Text) → same k key ≡ true → same other key ≡ false → same k other ≡ false
same_trans k key other h n = ground (arith, same_iff k key, same_iff k other, same_iff other key)

lookup-put :
    (other value key : Text) (t : Table)
    → lookup key (put other value t) ≡ (if same other key then some value else lookup key t)
unfolding put lookup
lookup-put other value key t = elim (Bool-cases (same other key)) [
  | inl e ↦ rw e refl
  | inr n ↦ rw n (
      lookup-delete_where (λ (e : Text × Text). same e.0 other) key t
        (λ v k h. same_trans k key other h n))
]

-- The texts that stand for the flag are read back as it.
flag_back : (b : Bool) → read_flag (some (if b then codes "1" else codes "0")) false ≡ b
unfolding same
flag_back true = refl
flag_back false = refl

-- Settings that are saved are read back as they are, whatever stood in the table before.
saved_settings : (s : Settings) (t : Table) → get_settings (save_settings s t) ≡ s
unfolding get_settings save_settings same
saved_settings s t = simp lookup-put (λ i. record {
  server_url_primary = s.server_url_primary;
  server_url_fallback = s.server_url_fallback;
  api_key = s.api_key;
  shortcut_toggle_popup = s.shortcut_toggle_popup;
  shortcut_starred_popup = s.shortcut_starred_popup;
  shortcut_paste_plaintext = s.shortcut_paste_plaintext;
  shizuku_clipboard_enabled = flag_back s.shizuku_clipboard_enabled i;
})

-- A watermark that is saved is read back, and settings that are saved after it leave it.
watermark_after_settings :
    (updated_at id : Text) (s : Settings) (t : Table)
    → is_empty updated_at ≡ false
    → is_empty id ≡ false
    → get_sync_watermark (save_settings s (save_sync_watermark updated_at id t))
      ≡ some (updated_at, id)
unfolding get_sync_watermark save_settings save_sync_watermark same
watermark_after_settings updated_at id s t h k = simp lookup-put (rw (h, k) refl)

-- Saving a watermark leaves the settings.
settings_after_watermark :
    (updated_at id : Text) (t : Table)
    → get_settings (save_sync_watermark updated_at id t) ≡ get_settings t
unfolding get_settings save_sync_watermark same
settings_after_watermark updated_at id t = simp lookup-put refl

-- A row with a watermark key is gone after the watermark is cleared, and no other key changes.
lookup-clear_sync_watermark :
    (key : Text) (t : Table)
    → any (same key) watermark_keys ≡ false
    → lookup key (clear_sync_watermark t) ≡ lookup key t
unfolding clear_sync_watermark
lookup-clear_sync_watermark key t h =
    lookup-delete_where _ key t (λ value k e. rw ((same_iff k key).0 e) h)

-- A row that a deletion takes is gone.
lookup_deleted :
    (p : Text × Text → Bool) (key : Text) (t : Table)
    → ((value k : Text) → same k key ≡ true → p (k, value) ≡ true)
    → lookup key (delete_where p t) ≡ none
unfolding lookup delete_where
lookup_deleted p key [] gone = refl
lookup_deleted p key ((k, value) ∷ t) gone = elim (Bool-cases (same k key)) [
  | inl here ↦ rw (gone value k here) (lookup_deleted p key t gone)
  | inr other ↦ elim (Bool-cases (p (k, value))) [
    | inl e ↦ rw e (lookup_deleted p key t gone)
    | inr e ↦ rw (e, other) (lookup_deleted p key t gone)
  ]
]

module _ (t : Table) where
  cleared_watermark : get_sync_watermark (clear_sync_watermark t) ≡ none
  unfolding get_sync_watermark clear_sync_watermark same
  cleared_watermark =
      rw
        (lookup_deleted (λ (e : Text × Text). any (same e.0) watermark_keys)
          (codes "sync_watermark_updated_at") t
          (λ value k e. rw ((same_iff k (codes "sync_watermark_updated_at")).0 e) refl))
        refl

  kept :
      (key : Text)
      → any (same key) watermark_keys ≡ false
      → lookup key (clear_sync_watermark t) ≡ lookup key t
  kept key = lookup-clear_sync_watermark key t

  kept_settings : get_settings (clear_sync_watermark t) ≡ get_settings t
  unfolding get_settings same
  kept_settings =
      rw
        (
          kept (codes "server_url_primary") refl,
          kept (codes "server_url") refl,
          kept (codes "server_url_fallback") refl,
          kept (codes "api_key") refl,
          kept (codes "shortcut_toggle_popup") refl,
          kept (codes "shortcut_starred_popup") refl,
          kept (codes "shortcut_paste_plaintext") refl,
          kept (codes "shizuku_clipboard_enabled") refl,
        )
        refl

-- The settings and the pull watermark share one table and do not disturb each other: settings that
-- are saved are read back, also after a watermark is saved or cleared; a watermark of two texts that
-- are not empty is read back, also after settings are saved; a cleared watermark is not read back.
pub get_settings-save_settings :
    (s : Settings) (updated_at id : Text) (t : Table)
    → is_empty updated_at ≡ false
    → is_empty id ≡ false
    → (get_settings (save_sync_watermark updated_at id (save_settings s t)) ≡ s)
      × (get_settings (clear_sync_watermark (save_settings s t)) ≡ s)
      × (get_sync_watermark (save_settings s (save_sync_watermark updated_at id t))
          ≡ some (updated_at, id))
      × (get_sync_watermark (clear_sync_watermark t) ≡ none)
get_settings-save_settings s updated_at id t h k = (
  settings_after_watermark updated_at id (save_settings s t) ∙ saved_settings s t,
  kept_settings (save_settings s t) ∙ saved_settings s t,
  watermark_after_settings updated_at id s t h k,
  cleared_watermark t,
)
