-- ===== src/Tests/ApiWitnesses.antt =====
-- The theorems about server/src/api.rs at concrete requests.
use copywraith.Model.Flavors.{text, no_flavors, best_plain_text}
use copywraith.Common.Text.{Text, codes, as_bytes, same}
use copywraith.Common.{
  replicate, reverse, ◌⊎◌, ◌≡◌, refl, ◌↔◌, true, false, Option, none, some, List, [], ◌∷◌, ◌++◌,
}
use copywraith.Sync.Key.{text_lt}
use copywraith.Local.Table.{written}
use copywraith.Tests.StoreWitnesses.{good_disk, clear_row, later_row, clear_store}
use copywraith.Common.Outcome.{ok}
use copywraith.Model.Entry.{ClipboardEntry, entry_best_plain_text}
use copywraith.Server.Crypto.Vault.{get_dek, is_initialized, verify_and_unlock}
use copywraith.Server.Records.{row_to_entry}
use copywraith.Server.Query.{show_rows}
use copywraith.Server.Listing
use copywraith.Server.Api.{
  World, AppState, unauthorized, ensure_authorized, extract_bearer, mask_sensitive_entry,
}
use copywraith.Server.Api.Auth.{acceptable}
use copywraith.Server.Api.Entries.{CreateEntryRequest, read_page}
use copywraith.Server.Api.Bearer.{extract_bearer-acceptable}
use copywraith.Server.Api.Masking.{mask_sensitive_entry-glimpse}
use copywraith.Server.Api.Paging.{unfiltered, listing_response, read_page-Listing}
use copywraith.Server.Api.Serve.{
  post_setup, post_entry, get_one, delete_one, Arrival, failed, serve, serve_all,
}
use copywraith.Server.Api.Serve.Guard.{is_protected, serve-refused, ensure_authorized_iff}
use copywraith.Server.Api.Serve.Sound.{Sound, serve_all-Sound}
use copywraith.Tests.Plain.{plain, dek32, nonce12, set_up, fresh}

abbrev world : World
world = record {
  primitives = plain;
  contains_sensitive_data = λ t. false;
  to_lowercase = λ t. t;
  fts = λ q. none;
  rfc3339 = λ t. replicate t b'a';
  newest_first = reverse;
  is_ulid = λ id. true;
  now = 9;
  fresh_id = codes "03";
  entry_nonces = λ slot. nonce12;
  row_nonces = λ id slot. nonce12;
  file_nonces = λ name. nonce12;
  salt = 3 ∷ [];
  nonce = nonce12;
  fresh_dek = dek32;
  auth_write_ok = true;
  disk = good_disk;
  new_blob_write = written;
  removes = true;
}

-- No password, and rows in clear.
abbrev clear_state : AppState
clear_state = record { crypto = fresh; storage = clear_store }

-- A password, and nothing stored.
abbrev locked_state : AppState
locked_state = record { crypto = set_up; storage = record { rows = []; blobs = [] } }

abbrev upload : CreateEntryRequest
upload = record {
  content_type = text;
  text_content = some (codes "hé");
  flavors = some no_flavors;
  blob_base64 = some (codes "cc");
  source_app = none;
  starred = none;
  content_hash = codes "dd";
}

abbrev bearer : Option Text
bearer = some (codes "Bearer pw")

clear_state-Sound : Sound clear_state
unfolding same
clear_state-Sound = record {
  vault = record { file = refl; caches = refl; configured = refl };
  store = record {
    ids = ((refl, tt), (tt, tt));
    hashes = ((refl, tt), (tt, tt));
    files = (tt, (tt, tt));
  };
}

abbrev arrivals : List Arrival
arrivals =
    record { world = world; authorization = none; request = post_setup (codes "password") }
    ∷ record { world = world; authorization = bearer; request = post_entry upload }
    ∷ record { world = world; authorization = bearer; request = delete_one (codes "01") }
    ∷ []

serve_all-Sound_example : Sound (serve_all arrivals clear_state)
serve_all-Sound_example = serve_all-Sound arrivals clear_state clear_state-Sound

serve-refused_example :
    serve world none (get_one (codes "01")) locked_state
    ≡ (failed unauthorized, record locked_state { crypto = set_up })
unfolding is_protected ensure_authorized
serve-refused_example =
    serve-refused world none (get_one (codes "01")) locked_state unauthorized set_up refl refl

ensure_authorized_iff_example : ((ensure_authorized plain bearer set_up).0 ≡ ok tt) ↔ (
    (is_initialized set_up ≡ true)
    × ((password : Text) × (((bearer ≡ some (codes "Bearer " ++ password))
            ⊎ (bearer ≡ some (codes "bearer " ++ password)))
          × ((verify_and_unlock plain password set_up).0 ≡ ok true))))
ensure_authorized_iff_example = ensure_authorized_iff plain bearer set_up

read_page-Listing_example :
    read_page world
      (unfiltered 1 0 (some (world.rfc3339 later_row.updated_at)) none true)
      clear_state
    ≡ (
      ok (
          listing_response true (
            Listing.list_entries
              (row_to_entry later_row ∷ row_to_entry clear_row ∷ [])
              1
              0
              (some later_row.updated_at)
              none)),
      clear_state,
    )
unfolding show_rows get_dek text_lt same
read_page-Listing_example =
    read_page-Listing world clear_state (row_to_entry later_row ∷ row_to_entry clear_row ∷ []) refl
      1 0 (some later_row.updated_at) none true refl ((refl, refl), ((refl, refl), tt))

extract_bearer-acceptable_example :
    extract_bearer (some (codes "Bearer " ++ codes "pass word")) ≡ some (codes "pass word")
unfolding acceptable as_bytes
extract_bearer-acceptable_example =
    extract_bearer-acceptable (λ value. some value) (codes "pass word") (λ value h. refl) refl

abbrev secret : Text → ClipboardEntry
secret t = record (row_to_entry later_row) {
  text_content = some t;
  flavors = record no_flavors { text_plain = some t };
  sensitive = true;
}

mask_sensitive_entry-glimpse_example :
    mask_sensitive_entry (secret (codes "abc12")) ≡ mask_sensitive_entry (secret (codes "abc98"))
unfolding entry_best_plain_text row_to_entry best_plain_text
mask_sensitive_entry-glimpse_example =
    mask_sensitive_entry-glimpse (secret (codes "abc12")) (secret (codes "abc98")) refl refl refl

-- No marked text is given, and the upload brings none.
abbrev NothingGiven : Text → Type 0
NothingGiven t = ⊥
