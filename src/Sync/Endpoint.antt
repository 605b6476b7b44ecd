-- ===== src/Sync/Endpoint.antt =====
-- The configured servers of src-tauri/src/sync.rs: `configured_server_urls`,
-- `server_endpoints_changed` and `resolve_url`, and `Settings` of src-tauri/src/models.rs.
pub mod Laws
use copywraith.Common.{
  ℕ, Bool, true, false, not, ◌&&◌, ◌||◌, List, [], ◌∷◌, ◌++◌, ltb, ◌==◌, if◌then◌else◌, any, map,
}
use copywraith.Common.Text.{
  Text, codes, same, trim, trim_start_by, trim_end_by, is_empty, starts_with,
}

pub data EndpointRole : Type 0 where
  local vpn : EndpointRole

-- `EndpointRole::as_str`
unfoldable pub role_name : EndpointRole → Text
role_name local = codes "local"
role_name vpn = codes "vpn"

pub record ServerEndpoint : Type 0 where
  pub role : EndpointRole
  pub url : Text

pub record Settings : Type 0 where
  pub server_url_primary : Text
  pub server_url_fallback : Text
  pub api_key : Text
  pub shortcut_toggle_popup : Text
  pub shortcut_starred_popup : Text
  pub shortcut_paste_plaintext : Text
  pub shizuku_clipboard_enabled : Bool

abbrev pub is_slash : ℕ → Bool
is_slash c = c == b'/'

unfoldable pub normalized : Text → Text
unfolding trim trim_end_by
normalized raw = trim_end_by is_slash (trim raw)

-- One turn of the loop over the two settings.
unfoldable pub add_url : List ServerEndpoint → Text → EndpointRole → List ServerEndpoint
unfolding normalized same
add_url urls raw role =
    let url = normalized raw in
    if is_empty url || any (λ existing. same existing.url url) urls
    then urls
    else urls ++ (record { role = role; url = url } ∷ [])

unfoldable pub configured_server_urls : Settings → List ServerEndpoint
unfolding add_url
configured_server_urls s = add_url (add_url [] s.server_url_primary local) s.server_url_fallback vpn

-- `String`'s order is that of its bytes, which is that of its code points.
unfoldable pub text_le : Text → Text → Bool
text_le [] _ = true
text_le (c ∷ cs) [] = false
text_le (c ∷ cs) (d ∷ ds) = ltb c d || (c == d && text_le cs ds)

insert_sorted : Text → List Text → List Text
insert_sorted t [] = t ∷ []
insert_sorted t (u ∷ us) =
    let rest = insert_sorted t us in if text_le t u then t ∷ u ∷ us else u ∷ rest

-- `sort`
unfoldable pub sort : List Text → List Text
unfolding insert_sorted text_le
sort [] = []
sort (t ∷ ts) = insert_sorted t (sort ts)

-- `Vec`'s `==`
unfoldable pub same_all : List Text → List Text → Bool
unfolding same
same_all [] [] = true
same_all (t ∷ ts) (u ∷ us) = same t u && same_all ts us
same_all _ _ = false

unfoldable pub endpoint_urls : Settings → List Text
unfolding configured_server_urls sort
endpoint_urls s = sort (map (λ e. e.url) (configured_server_urls s))

unfoldable pub server_endpoints_changed : Settings → Settings → Bool
unfolding endpoint_urls same_all
server_endpoints_changed before after = not (same_all (endpoint_urls before) (endpoint_urls after))

unfoldable pub resolve_url : Text → Text → Text
unfolding starts_with trim_start_by trim_end_by
resolve_url base_url maybe_relative =
    if starts_with maybe_relative (codes "http://") || starts_with maybe_relative (codes "https://")
    then maybe_relative
    else trim_end_by is_slash base_url ++ (b'/' ∷ trim_start_by is_slash maybe_relative)
