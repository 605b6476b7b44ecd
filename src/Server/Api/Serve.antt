-- ===== src/Server/Api/Serve.antt =====
-- A request of any kind, handled as the router of server/src/main.rs hands it to server/src/api.rs,
-- and a run of requests. Requests are taken one after the other: each handler's steps under the
-- two locks are not interleaved with another's.
pub mod Guard
pub mod Keeps
pub mod Vault
pub mod Sound
pub mod AtRest
pub mod Genuine
use copywraith.Common.{ℕ, Bool, true, false, Option, none, some, List, [], ◌∷◌}
use copywraith.Common.Text.{Text, Bytes}
use copywraith.Common.Outcome.{Outcome, ok, err}
use copywraith.Server.Api.{World, AppState, AppError, Answer, EntryResponse, error_status}
use copywraith.Server.Api.Auth.{
  AuthStatus, auth_status, auth_setup, auth_unlock, auth_change_password, auth_lock, health,
}
use copywraith.Server.Api.Entries.{
  CreateEntryRequest, Created, create_entry, ListEntriesParams, ListEntriesResponse, list_entries,
  get_entry, update_entry, delete_entry, get_blob,
}

pub data Request : Type 0 where
  get_status : Request
  post_setup : Text → Request
  post_unlock : Text → Request
  post_change_password : Text → Text → Request
  post_lock : Request
  get_health : Request
  post_entry : CreateEntryRequest → Request
  get_entries : ListEntriesParams → Request
  get_one : Text → Request
  patch_one : Text → Option Bool → Request
  delete_one : Text → Request
  get_bytes : Text → Request

pub data Response : Type 0 where
  failed : AppError → Response
  succeeded : Response
  status_of : AuthStatus → Response
  alive : Option ℕ → Response
  created : Created → Response
  listed : ListEntriesResponse → Response
  entry_shown : EntryResponse → Response
  deleted : Response
  bytes_of : Text → Bytes → Response

unfoldable pub status_code : Response → ℕ
unfolding error_status
status_code (failed e) = error_status e
status_code (created c) = c.status
status_code deleted = 204
status_code _ = 200

pub reply {ℓ} : {A : Type ℓ} → (A → Response) → Answer A × AppState → Response × AppState
reply f (err e, s) = (failed e, s)
reply f (ok a, s) = (f a, s)

abbrev pub bytes_response : Text × Bytes → Response
bytes_response (media_type, bytes) = bytes_of media_type bytes

unfoldable pub serve : World → Option Text → Request → AppState → Response × AppState
unfolding auth_status auth_setup auth_unlock auth_change_password auth_lock health create_entry
    list_entries get_entry update_entry delete_entry get_blob reply
serve w authorization get_status s = (status_of (auth_status s), s)
serve w authorization (post_setup password) s = reply (λ _. succeeded) (auth_setup w password s)
serve w authorization (post_unlock password) s = reply (λ _. succeeded) (auth_unlock w password s)
serve w authorization (post_change_password old_password new_password) s =
    reply (λ _. succeeded) (auth_change_password w authorization old_password new_password s)
serve w authorization post_lock s = reply (λ _. succeeded) (auth_lock w authorization s)
serve w authorization get_health s =
    let (count, after) = health w authorization s in (alive count, after)
serve w authorization (post_entry req) s = reply created (create_entry w authorization req s)
serve w authorization (get_entries params) s = reply listed (list_entries w authorization params s)
serve w authorization (get_one id) s = reply entry_shown (get_entry w authorization id s)
serve w authorization (patch_one id starred) s =
    reply entry_shown (update_entry w authorization id starred s)
serve w authorization (delete_one id) s = reply (λ _. deleted) (delete_entry w authorization id s)
serve w authorization (get_bytes id) s = reply bytes_response (get_blob w authorization id s)

-- A request with what it finds outside the program.
pub record Arrival : Type 0 where
  pub world : World
  pub authorization : Option Text
  pub request : Request

unfoldable pub serve_all : List Arrival → AppState → AppState
unfolding serve
serve_all [] s = s
serve_all (a ∷ arrivals) s = serve_all arrivals (serve a.world a.authorization a.request s).1
