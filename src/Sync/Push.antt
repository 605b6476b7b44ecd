-- ===== src/Sync/Push.antt =====
-- Pushing, in src-tauri/src/sync.rs: `Rejection`, `PushOutcome`, `push_entry_with_fallback`,
-- `push_entry` and `sync_unsynced_entries`. What a server answers to a request is an argument.
pub mod Laws
pub mod Batch
use mathlib.Core.Option
use copywraith.Common.{
  ℕ, Bool, true, false, not, ◌&&◌, ◌||◌, Option, none, some, List, [], ◌∷◌, leb, ltb, ◌==◌,
  if◌then◌else◌,
}
use copywraith.Common.Text.{Text, Bytes}
use copywraith.Common.Outcome.{Outcome, ok, err}
use copywraith.Model.Flavors.{Flavors, is_empty_flavors, to_legacy_text_content, payload_hash}
use copywraith.Model.Entry.{ClipboardEntry, resolved_flavors}
use copywraith.Local.Table.{Store}
use copywraith.Local.Storage.{get_blob, mark_synced_if_unchanged}
use copywraith.Sync.Endpoint.{ServerEndpoint}
use copywraith.Sync.Transfer.{CreateEntryRequest}

pub data Rejection : Type 0 where
  unauthorized forbidden unreadable_response : Rejection
  status : ℕ → Rejection

unfoldable pub from_status : ℕ → Rejection
from_status code =
    if code == 401 then unauthorized else if code == 403 then forbidden else status code

unfoldable pub is_credential_problem : Rejection → Bool
is_credential_problem unauthorized = true
is_credential_problem forbidden = true
is_credential_problem _ = false

unfoldable pub outranks : Rejection → Rejection → Bool
unfolding is_credential_problem
outranks r earlier = is_credential_problem r && not (is_credential_problem earlier)

unfoldable pub outrank : Rejection → Option Rejection → Rejection
unfolding outranks
outrank r none = r
outrank r (some earlier) = if not (outranks r earlier) then earlier else r

pub data PushOutcome : Type 0 where
  synced unreachable failed : PushOutcome
  rejected : Rejection → PushOutcome

-- The answer to one request. `no_connection` is reqwest's `is_connect` or `is_builder` error.
pub data Reply : Type 0 where
  answered : ℕ → Reply
  no_connection interrupted : Reply

abbrev pub is_success : ℕ → Bool
is_success code = leb 200 code && ltb code 300

unfoldable pub exhausted : Option Rejection → Bool → PushOutcome
exhausted (some r) connected = rejected r
exhausted none connected = if connected then failed else unreachable

-- The loop over the endpoints; beside the outcome, the endpoint that is noted as responding.
unfoldable pub push_loop :
    (ServerEndpoint → Reply)
    → Option Rejection
    → Bool
    → List ServerEndpoint
    → PushOutcome × Option ServerEndpoint
unfolding exhausted from_status outrank
push_loop post rejection connected [] = (exhausted rejection connected, none)
push_loop post rejection connected (e ∷ es) = elim (post e) [
  | answered code ↦
      if is_success code
      then (synced, some e)
      else push_loop post (some (outrank (from_status code) rejection)) true es
  | no_connection ↦ push_loop post rejection connected es
  | interrupted ↦ push_loop post rejection true es
]

unfoldable pub push_entry_with_fallback :
    (ServerEndpoint → Reply) → List ServerEndpoint → PushOutcome × Option ServerEndpoint
unfolding push_loop
push_entry_with_fallback post urls = push_loop post none false urls

-- Whether the rest of the batch is left for the next pass.
unfoldable pub pauses : PushOutcome → Bool
unfolding is_credential_problem
pauses (rejected r) = is_credential_problem r
pauses unreachable = true
pauses _ = false

-- The servers: what each endpoint answers to a request.
abbrev pub Servers : Type 0
Servers = CreateEntryRequest → ServerEndpoint → Reply

-- `get_blob(hash).ok().flatten()`
unfoldable pub readable_blob : Option Text → Store → Option Bytes
unfolding get_blob
readable_blob none s = none
readable_blob (some hash) s = elim (get_blob hash s) [ ok found ↦ found | err _ ↦ none ]

-- SHA-256, the JSON of a mixed payload and base64 are parameters.
module _ (sha256 : Bytes → Bytes) (payload_json : Text → Flavors → Option Text → Bytes)
    (base64_encode : Bytes → Text) where
  unfoldable pub create_request : ClipboardEntry → Store → CreateEntryRequest
  unfolding resolved_flavors readable_blob is_empty_flavors
  create_request e s =
      let flavors = resolved_flavors e in
      record {
        content_type = e.content_type;
        text_content = to_legacy_text_content flavors e.content_type;
        flavors = if is_empty_flavors flavors then none else some flavors;
        blob_base64 = Option.map base64_encode (readable_blob e.blob_hash s);
        source_app = e.source_app;
        starred = some e.starred;
        content_hash = payload_hash sha256 payload_json flavors e.content_type e.blob_hash;
      }

  -- A push that a server accepted is acknowledged; an entry that changed meanwhile stays queued.
  acknowledge : ClipboardEntry → PushOutcome → Store → Store
  unfolding mark_synced_if_unchanged
  acknowledge e synced s = (mark_synced_if_unchanged e.id e.updated_at s).1
  acknowledge e _ s = s

  -- `during` is what others do to the store while the request is under way.
  unfoldable pub push_entry :
      Servers → (Store → Store) → List ServerEndpoint → ClipboardEntry → Store → PushOutcome × Store
  unfolding push_entry_with_fallback acknowledge create_request
  push_entry servers during urls e s =
      let outcome = (push_entry_with_fallback (servers (create_request e s)) urls).0 in
      (outcome, acknowledge e outcome (during s))

  -- The loop of `sync_unsynced_entries`; `pushed` lists what was attempted.
  unfoldable pub push_batch :
      Servers
      → (Store → Store)
      → List ServerEndpoint
      → List ClipboardEntry
      → Store
      → List (ClipboardEntry × PushOutcome) × Store
  unfolding push_entry pauses
  push_batch servers during urls [] s = ([], s)
  push_batch servers during urls (e ∷ es) s =
      let (outcome, s') = push_entry servers during urls e s in
      let rest = push_batch servers during urls es s' in
      if pauses outcome then ((e, outcome) ∷ [], s') else ((e, outcome) ∷ rest.0, rest.1)

  -- `sync_unsynced_entries` over the queue that it has read: without servers nothing is attempted.
  unfoldable pub sync_queue :
      Servers
      → (Store → Store)
      → List ServerEndpoint
      → List ClipboardEntry
      → Store
      → List (ClipboardEntry × PushOutcome) × Store
  unfolding push_batch
  sync_queue servers during [] es s = ([], s)
  sync_queue servers during (url ∷ urls) es s = push_batch servers during (url ∷ urls) es s
