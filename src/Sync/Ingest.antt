-- ===== src/Sync/Ingest.antt =====
-- `ingest_remote_entry`, `fetch_blob_data` and `resolved_remote_flavors` of src-tauri/src/sync.rs.
-- What each endpoint answers to a blob request, the clock and whether the blob file could be
-- written are arguments.
use copywraith.Local.Table.{Write, Store, StorageError}
use copywraith.Common.{ℕ, Bool, true, false, Option, none, some, List, [], ◌∷◌, if◌then◌else◌}
use copywraith.Common.Text.{Text, Bytes, same}
use copywraith.Common.Outcome.{Outcome, ok, err}
use copywraith.Content.Hash.{hash_bytes}
use copywraith.Model.Flavors.{ContentType, image, Flavors, merge_legacy, payload_hash}
use copywraith.Model.Entry.{ClipboardEntry}
use copywraith.Local.Storage.{has_content_hash, apply_remote_star}
use copywraith.Local.Insert.{insert_remote_entry}
use copywraith.Sync.Endpoint.{ServerEndpoint}
use copywraith.Sync.Push.{is_success}

-- No answer, or a status with a body that was read or was not.
pub data BlobReply : Type 0 where
  no_answer : BlobReply
  answered : ℕ → Option Bytes → BlobReply

pub data IngestError : Type 0 where
  download_failed : IngestError
  storage : StorageError → IngestError

-- `ok none`: a server that answered does not have the blob. `err`: worth a retry.
unfoldable pub fetch_blob_loop :
    (ServerEndpoint → BlobReply) → Bool → List ServerEndpoint → Outcome IngestError (Option Bytes)
fetch_blob_loop get unavailable [] = if unavailable then ok none else err download_failed
fetch_blob_loop get unavailable (e ∷ es) = elim (get e) [
  | no_answer ↦ fetch_blob_loop get unavailable es
  | answered code body ↦
      if is_success code
      then elim body [ some bytes ↦ ok (some bytes) | none ↦ fetch_blob_loop get unavailable es ]
      else fetch_blob_loop get true es
]

unfoldable pub fetch_blob_data :
    (ServerEndpoint → BlobReply) → List ServerEndpoint → Outcome IngestError (Option Bytes)
unfolding fetch_blob_loop
fetch_blob_data get urls = fetch_blob_loop get false urls

unfoldable pub resolved_remote_flavors : ClipboardEntry → Flavors
unfolding merge_legacy
resolved_remote_flavors e = merge_legacy e.flavors e.content_type e.text_content

abbrev pub Ingested : Type 0
Ingested = Outcome IngestError Bool × Store

abbrev from_storage : Outcome StorageError Bool × Store → Ingested
from_storage (ok b, s) = (ok b, s)
from_storage (err e, s) = (err (storage e), s)

abbrev reconciled : Bool × Store → Ingested
reconciled (updated, s) = (ok updated, s)

-- What a download leads to; an empty or missing blob skips the entry.
with_blob : Outcome IngestError (Option Bytes) → Store → (Bytes → Ingested) → Ingested
with_blob (err e) s use_bytes = (err e, s)
with_blob (ok none) s use_bytes = (ok false, s)
with_blob (ok (some [])) s use_bytes = (ok false, s)
with_blob (ok (some (b ∷ bs))) s use_bytes = use_bytes (b ∷ bs)

module _ (sha256 : Bytes → Bytes) (payload_json : Text → Flavors → Option Text → Bytes)
    (contains_sensitive_data : Text → Bool) (now : ℕ) (write : Write)
    (get : ServerEndpoint → BlobReply) (urls : List ServerEndpoint) (e : ClipboardEntry) where
  insert_remote : Option Bytes → Text → Store → Ingested
  unfolding insert_remote_entry resolved_remote_flavors
  insert_remote blob content_hash s = from_storage (
      insert_remote_entry sha256 contains_sensitive_data
        (record { id = e.id; created_at = e.created_at; updated_at = e.updated_at }) write
        e.content_type (resolved_remote_flavors e) blob content_hash e.source_app e.starred s)

  -- A blob that the entry names by its hash is downloaded and checked against it.
  fetch_expected : Option Text → Option Bytes → Text → Store → Ingested
  unfolding with_blob fetch_blob_data insert_remote hash_bytes same
  fetch_expected (some expected) none content_hash s =
      with_blob (fetch_blob_data get urls) s (λ bytes.
        if same (hash_bytes sha256 bytes) expected
        then insert_remote (some bytes) content_hash s
        else (ok false, s))
  fetch_expected _ blob content_hash s = insert_remote blob content_hash s

  -- Known content only has its star reconciled.
  ingest_hashed : Option Bytes → Text → Store → Ingested
  unfolding has_content_hash apply_remote_star fetch_expected
  ingest_hashed blob content_hash s =
      if has_content_hash content_hash s
      then reconciled (apply_remote_star now content_hash e.starred s)
      else fetch_expected e.blob_hash blob content_hash s

  -- An image with no hash is downloaded to learn it.
  ingest_unhashed : ContentType → Store → Ingested
  unfolding with_blob fetch_blob_data ingest_hashed resolved_remote_flavors hash_bytes
  ingest_unhashed image s = with_blob (fetch_blob_data get urls) s (λ bytes.
      ingest_hashed (some bytes)
        (payload_hash sha256 payload_json (resolved_remote_flavors e) image
          (some (hash_bytes sha256 bytes)))
        s)
  ingest_unhashed content_type s =
      ingest_hashed none
        (payload_hash sha256 payload_json (resolved_remote_flavors e) content_type none) s

  unfoldable pub ingest_remote_entry : Store → Ingested
  unfolding ingest_unhashed ingest_hashed resolved_remote_flavors
  ingest_remote_entry s = elim e.blob_hash [
    | some hash ↦
        ingest_hashed none
          (payload_hash sha256 payload_json (resolved_remote_flavors e) e.content_type (some hash))
          s
    | none ↦ ingest_unhashed e.content_type s
  ]
