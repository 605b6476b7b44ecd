-- ===== src/Sync/Fetch.antt =====
-- `fetch_entries_page_with_fallback` of src-tauri/src/sync.rs and the statuses that a pull reports.
-- What an endpoint answers is an argument. Of a status the state and the endpoint are kept; its
-- message and time are not.
use copywraith.Common.{
  ℕ, ◌+◌, Bool, true, false, Option, none, some, List, [], ◌∷◌, if◌then◌else◌, or_else,
}
use copywraith.Common.Text.{Text}
use copywraith.Model.Entry.{ClipboardEntry}
use copywraith.Sync.Endpoint.{ServerEndpoint}
use copywraith.Sync.Push.{
  Rejection, unauthorized, forbidden, unreadable_response, from_status, outranks, is_success,
}

pub record EntryResponse : Type 0 where
  pub entry : ClipboardEntry
  pub blob_url : Option Text

pub record Page : Type 0 where
  pub entries : List EntryResponse
  pub has_more : Bool

-- The answer to a page request: an address that is no URL, no answer, an HTTP status with a body
-- that is a page or is not.
pub data PageReply : Type 0 where
  invalid_url no_answer : PageReply
  answered : ℕ → Option Page → PageReply

pub data PageFetch : Type 0 where
  page : Page → ℕ → PageFetch
  page_rejected : ServerEndpoint → Rejection → PageFetch
  page_unreachable : PageFetch

pub data SyncState : Type 0 where
  disabled checking online sync_unreachable sync_unauthorized sync_error : SyncState

-- `is_failure`
unfoldable pub is_failure : SyncState → Bool
is_failure sync_unreachable = true
is_failure sync_unauthorized = true
is_failure sync_error = true
is_failure _ = false

pub record SyncEndpointStatus : Type 0 where
  pub state : SyncState
  pub endpoint : Option ServerEndpoint

-- `SyncEndpointStatus::rejected`
unfoldable pub rejected_status : ServerEndpoint → Rejection → SyncEndpointStatus
rejected_status e unauthorized = record { state = sync_unauthorized; endpoint = some e }
rejected_status e forbidden = record { state = sync_unauthorized; endpoint = some e }
rejected_status e _ = record { state = sync_error; endpoint = some e }

abbrev pub online_status : ServerEndpoint → SyncEndpointStatus
online_status e = record { state = online; endpoint = some e }

abbrev pub first_rejected : Option (ServerEndpoint × Rejection) → PageFetch
first_rejected none = page_unreachable
first_rejected (some (e, r)) = page_rejected e r

abbrev outranks_first : Rejection → Option (ServerEndpoint × Rejection) → Bool
outranks_first r none = true
outranks_first r (some (_, earlier)) = outranks r earlier

-- The loop over the endpoints.
unfoldable pub fetch_loop :
    (ServerEndpoint → PageReply)
    → Option (ServerEndpoint × Rejection)
    → ℕ
    → List ServerEndpoint
    → PageFetch
unfolding outranks from_status
fetch_loop get first index [] = first_rejected first
fetch_loop get first index (e ∷ es) = elim (get e) [
  | invalid_url ↦ fetch_loop get first (index + 1) es
  | no_answer ↦ fetch_loop get first (index + 1) es
  | answered code body ↦
      if is_success code
      then elim body [
        | some p ↦ page p index
        | none ↦ fetch_loop get (or_else first (some (e, unreadable_response))) (index + 1) es
      ]
      else fetch_loop get
          (if outranks_first (from_status code) first then some (e, from_status code) else first)
          (index + 1) es
]
