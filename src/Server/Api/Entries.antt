-- ===== src/Server/Api/Entries.antt =====
-- The handlers under /api/entries of server/src/api.rs.
use copywraith.Common.{
  ℕ, ◌+◌, ◌%◌, ◌^◌, Bool, ◌&&◌, Option, none, some, List, ltb, if◌then◌else◌, is_some, is_none, map,
  unwrap_or,
}
use copywraith.Common.Text.{Text, Bytes, codes}
use copywraith.Common.Outcome.{ok, err, ◌>>=◌, ok_or}
use copywraith.Content.Image.{ImageFormat, png, jpeg, gif, webp, detect_image_format}
use copywraith.Model.Flavors.{ContentType, image, Flavors, no_flavors, merge_legacy}
use copywraith.Model.Entry.{ClipboardEntry}
use copywraith.Server.Crypto.Cipher.{decrypt_blob}
use copywraith.Server.Crypto.Vault.{get_dek}
use copywraith.Server.Listing.{clamp_limit}
use copywraith.Server.Query.{Query, effective_offset, Page}
use copywraith.Server.Store.{Result}
use copywraith.Server.Query
use copywraith.Server.Store
use copywraith.Server.Api.{
  World, AppState, Answer, not_found, bad_request, internally, authorized, check_text_field_len,
  validate_entry_id, mask_sensitive_entry, project_list_entry, EntryResponse, respond,
}

pub record CreateEntryRequest : Type 0 where
  pub content_type : ContentType
  pub text_content : Option Text
  pub flavors : Option Flavors
  pub blob_base64 : Option Text
  pub source_app : Option Text
  pub starred : Option Bool
  pub content_hash : Text

check_flavors_len : Option Flavors → Answer (Unit {0})
unfolding check_text_field_len
check_flavors_len none = ok tt
check_flavors_len (some f) = do
  plain ← check_text_field_len f.text_plain
  html ← check_text_field_len f.text_html
  check_text_field_len f.text_rtf

unfoldable pub check_lengths : CreateEntryRequest → Answer (Unit {0})
unfolding check_flavors_len check_text_field_len
check_lengths req = do
  content ← check_text_field_len req.text_content
  check_flavors_len req.flavors

pub record Created : Type 0 where
  pub status : ℕ
  pub response : EntryResponse
  pub created : Bool

created_response : ClipboardEntry × Bool → Created
unfolding respond mask_sensitive_entry
created_response (e, created) = record {
  status = if created then 201 else 200;
  response = respond mask_sensitive_entry e;
  created = created;
}

abbrev answered {ℓ} : {A : Type ℓ} → Result A → Answer A
answered = internally

unfoldable pub store_entry : World → CreateEntryRequest → AppState → Answer Created × AppState
unfolding merge_legacy Store.create_entry created_response get_dek
store_entry w req s =
    let flavors =
      merge_legacy (unwrap_or req.flavors no_flavors) req.content_type req.text_content in
    let (outcome, storage) =
      Store.create_entry w.primitives w.contains_sensitive_data w.now w.fresh_id w.new_blob_write
        w.entry_nonces req.content_type flavors req.blob_base64 req.source_app req.starred
        req.content_hash (get_dek s.crypto) s.storage in
    (do made ← answered outcome; ok (created_response made), record s { storage = storage })

unfoldable pub checked {ℓ κ} :
    {A : Type ℓ} {B : Type κ}
    → Answer A
    → (AppState → Answer B × AppState)
    → AppState
    → Answer B × AppState
checked (err e) handler s = (err e, s)
checked (ok a) handler s = handler s

unfoldable pub create_entry :
    World → Option Text → CreateEntryRequest → AppState → Answer Created × AppState
unfolding authorized checked check_lengths store_entry
create_entry w authorization req =
    authorized w authorization (checked (check_lengths req) (store_entry w req))

pub record ListEntriesParams : Type 0 where
  pub limit : ℕ
  pub offset : ℕ
  pub before_updated_at : Option Text
  pub before_id : Option Text
  pub content_type : Option ContentType
  pub starred_only : Bool
  pub search : Option Text
  pub include_sensitive : Bool

pub record ListEntriesResponse : Type 0 where
  pub entries : List EntryResponse
  pub total : ℕ
  pub has_more : Bool

unfoldable pub query_of : ListEntriesParams → Query
unfolding clamp_limit
query_of params = record {
  limit = clamp_limit params.limit;
  offset = if is_some params.before_updated_at then 0 else params.offset;
  before_updated_at = params.before_updated_at;
  before_id = params.before_id;
  content_type = params.content_type;
  starred_only = params.starred_only;
  search = params.search;
}

-- `effective_offset + limit` and `total as u32` are 32-bit numbers.
unfoldable pub page_response : Query → Bool → Page → ListEntriesResponse
unfolding respond project_list_entry
page_response q include_sensitive (entries, total) = record {
  entries = map (respond (λ e. project_list_entry e include_sensitive)) entries;
  total = total;
  has_more = ltb ((q.offset + q.limit) % 2 ^ 32) (total % 2 ^ 32);
}

unfoldable pub read_page :
    World → ListEntriesParams → AppState → Answer ListEntriesResponse × AppState
unfolding query_of page_response Query.list_entries get_dek
read_page w params s =
    let q = query_of params in
    if is_some params.before_id && is_none params.before_updated_at then (err bad_request, s) else (
      do
        page ← answered (
            Query.list_entries w.primitives w.to_lowercase w.fts w.rfc3339 w.newest_first q
              (get_dek s.crypto) s.storage)
        ok (page_response q params.include_sensitive page),
      s,
    )

unfoldable pub list_entries :
    World → Option Text → ListEntriesParams → AppState → Answer ListEntriesResponse × AppState
unfolding authorized read_page
list_entries w authorization params = authorized w authorization (read_page w params)

-- The entry, where there is one.
unfoldable pub find_entry : World → Text → AppState → Answer ClipboardEntry
unfolding Store.get_entry get_dek
find_entry w id s = do
  found ← answered (Store.get_entry w.primitives id (get_dek s.crypto) s.storage)
  ok_or not_found found

unfoldable pub read_entry : World → Text → AppState → Answer EntryResponse × AppState
unfolding find_entry respond mask_sensitive_entry
read_entry w id s = (do e ← find_entry w id s; ok (respond mask_sensitive_entry e), s)

unfoldable pub get_entry : World → Option Text → Text → AppState → Answer EntryResponse × AppState
unfolding authorized checked validate_entry_id read_entry
get_entry w authorization id =
    authorized w authorization (checked (validate_entry_id w.is_ulid id) (read_entry w id))

unfoldable pub set_star : World → Text → Option Bool → AppState → AppState
unfolding Store.update_entry_starred
set_star w id none s = s
set_star w id (some starred) s = record s {
  storage = (Store.update_entry_starred w.now id starred s.storage).1;
}

unfoldable pub update_entry :
    World → Option Text → Text → Option Bool → AppState → Answer EntryResponse × AppState
unfolding authorized checked validate_entry_id read_entry set_star
update_entry w authorization id starred =
    authorized w authorization
      (checked (validate_entry_id w.is_ulid id) (λ s. read_entry w id (set_star w id starred s)))

unfoldable pub remove_entry : World → Text → AppState → Answer (Unit {0}) × AppState
unfolding Store.delete_entry
remove_entry w id s =
    let (deleted, storage) = Store.delete_entry w.removes id s.storage in
    (if deleted then ok tt else err not_found, record s { storage = storage })

unfoldable pub delete_entry : World → Option Text → Text → AppState → Answer (Unit {0}) × AppState
unfolding authorized checked validate_entry_id remove_entry
delete_entry w authorization id =
    authorized w authorization (checked (validate_entry_id w.is_ulid id) (remove_entry w id))

image_type : Option ImageFormat → Text
image_type (some png) = codes "image/png"
image_type (some jpeg) = codes "image/jpeg"
image_type (some gif) = codes "image/gif"
image_type (some webp) = codes "image/webp"
image_type _ = codes "application/octet-stream"

unfoldable pub media_type : ContentType → Bytes → Text
unfolding image_type detect_image_format
media_type image bytes = image_type (detect_image_format bytes)
media_type _ bytes = codes "application/octet-stream"

-- The bytes, decrypted where the key is known, with their media type.
pub blob_data : World → Option Bytes → ContentType → Bytes → Answer (Text × Bytes)
unfolding decrypt_blob media_type
blob_data w none content_type raw_data = ok (media_type content_type raw_data, raw_data)
blob_data w (some dek) content_type raw_data = do
  decrypted ← internally (decrypt_blob w.primitives dek raw_data)
  ok (media_type content_type decrypted, decrypted)

unfoldable pub read_blob : World → Text → AppState → Answer (Text × Bytes) × AppState
unfolding find_entry blob_data Store.get_blob get_dek
read_blob w id s = (
  do
    e ← find_entry w id s
    hash ← ok_or not_found e.blob_hash
    found ← answered (Store.get_blob hash s.storage)
    raw_data ← ok_or not_found found
    blob_data w (get_dek s.crypto) e.content_type raw_data,
  s,
)

unfoldable pub get_blob : World → Option Text → Text → AppState → Answer (Text × Bytes) × AppState
unfolding authorized checked validate_entry_id read_blob
get_blob w authorization id =
    authorized w authorization (checked (validate_entry_id w.is_ulid id) (read_blob w id))
