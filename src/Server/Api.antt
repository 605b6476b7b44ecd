-- ===== src/Server/Api.antt =====
-- server/src/api.rs: the state, the errors, the guards and the masks. `World` holds what a request
-- finds outside the program: the clock, fresh randomness, the outcome of reading, writing and removing files, and the
-- crates. `authorization` is the Authorization header where there is one that reads as a string.
pub mod Auth
pub mod Entries
pub mod Serve
pub mod Masking
pub mod Bearer
pub mod Paging
use copywraith.Local.Table.{Write}
use copywraith.Server.Store.Migrate.{Disk}
use copywraith.Common.{
  ℕ, ◌*◌, Bool, true, false, not, ◌&&◌, ◌||◌, Option, none, some, List, [], ◌∷◌, ltb, leb,
  if◌then◌else◌, all, or_else, reverse, unwrap_or, ◌++◌,
}
use copywraith.Common.Text.{Text, Bytes, codes, byte_len, as_bytes, starts_with, strip_prefix}
use copywraith.Common.Outcome.{Outcome, ok, err, ◌>>=◌, ok_or}
use copywraith.Content.Mask.{mask_sensitive}
use copywraith.Model.Entry.{ClipboardEntry, entry_best_plain_text}
use copywraith.Server.Crypto.Primitives.{Primitives}
use copywraith.Server.Crypto.Vault.{VaultError, CryptoState, is_initialized, verify_and_unlock}
use copywraith.Server.Records.{Row, Store}
use copywraith.Server.Store.{Result}

pub record AppState : Type 0 where
  pub crypto : CryptoState
  pub storage : Store

pub data AppError : Type 0 where
  unauthorized not_found bad_request setup_required internal : AppError

abbrev pub Answer {ℓ} : Type ℓ → Type ℓ
Answer A = Outcome AppError A

-- The status codes of `into_response`.
unfoldable pub error_status : AppError → ℕ
error_status unauthorized = 401
error_status not_found = 404
error_status bad_request = 400
error_status setup_required = 403
error_status internal = 500

-- `From<anyhow::Error>`
abbrev pub internally {ℓ κ} : {E : Type ℓ} {A : Type κ} → Outcome E A → Outcome AppError A
internally (err e) = err internal
internally (ok a) = ok a

pub record World : Type 0 where
  pub primitives : Primitives
  pub contains_sensitive_data : Text → Bool
  pub to_lowercase : Text → Text
  pub fts : Text → Option (Text → Bool)
  pub rfc3339 : ℕ → Text
  pub newest_first : List Row → List Row
  pub is_ulid : Text → Bool
  pub now : ℕ
  pub fresh_id : Text
  pub entry_nonces : ℕ → Bytes
  pub row_nonces : Text → ℕ → Bytes
  pub file_nonces : Text → Bytes
  pub salt : Bytes
  pub nonce : Bytes
  pub fresh_dek : Bytes
  pub auth_write_ok : Bool
  pub disk : Disk
  pub new_blob_write : Write
  pub removes : Bool

abbrev pub space : ℕ
space = 32

-- Whether the last character is a space.
unfoldable pub ends_in_space : Text → Bool
unfolding starts_with
ends_in_space password = starts_with (reverse password) (space ∷ [])

-- `bearer_password_problem` of crates/copywraith-core/src/api_types.rs: whether there is one. The
-- bytes of a password of visible ASCII and spaces are its characters.
unfoldable pub bearer_password_problem : Text → Bool
unfolding as_bytes starts_with ends_in_space
bearer_password_problem password =
    if not (all (λ byte. leb 32 byte && leb byte 126) (as_bytes password))
    then true
    else starts_with password (space ∷ []) || ends_in_space password

unfoldable pub extract_bearer : Option Text → Option Text
unfolding strip_prefix
extract_bearer none = none
extract_bearer (some h) =
    or_else (strip_prefix (codes "Bearer ") h) (strip_prefix (codes "bearer ") h)

unfoldable pub admit : Outcome VaultError Bool × CryptoState → Answer (Unit {0}) × CryptoState
admit (err e, c) = (err internal, c)
admit (ok false, c) = (err unauthorized, c)
admit (ok true, c) = (ok tt, c)

unfoldable pub ensure_authorized :
    Primitives → Option Text → CryptoState → Answer (Unit {0}) × CryptoState
unfolding admit verify_and_unlock extract_bearer is_initialized
ensure_authorized p authorization c =
    if not (is_initialized c)
    then (err setup_required, c)
    else elim (extract_bearer authorization) [
      | none ↦ (err unauthorized, c)
      | some password ↦ admit (verify_and_unlock p password c)
    ]

abbrev verified : Outcome VaultError Bool → Bool
verified (err e) = false
verified (ok b) = b

unfoldable pub is_authorized : Primitives → Option Text → CryptoState → Bool × CryptoState
unfolding verify_and_unlock extract_bearer is_initialized
is_authorized p authorization c =
    if not (is_initialized c) then (false, c) else elim (extract_bearer authorization) [
      | none ↦ (false, c)
      | some password ↦
          let (outcome, after) = verify_and_unlock p password c in (verified outcome, after)
    ]

-- `ensure_authorized(..)?` ahead of the rest of a handler.
pub after_admission {ℓ} :
    {A : Type ℓ}
    → (AppState → Answer A × AppState)
    → Store
    → Answer (Unit {0}) × CryptoState
    → Answer A × AppState
after_admission handler storage (err e, c) = (err e, record { crypto = c; storage = storage })
after_admission handler storage (ok done, c) = handler (record { crypto = c; storage = storage })

unfoldable pub authorized {ℓ} :
    {A : Type ℓ}
    → World
    → Option Text
    → (AppState → Answer A × AppState)
    → AppState
    → Answer A × AppState
unfolding after_admission ensure_authorized
authorized w authorization handler s =
    after_admission handler s.storage (ensure_authorized w.primitives authorization s.crypto)

abbrev pub max_text_field_bytes : ℕ
max_text_field_bytes = 10 * 1024 * 1024

unfoldable pub check_text_field_len : Option Text → Answer (Unit {0})
unfolding byte_len
check_text_field_len none = ok tt
check_text_field_len (some value) =
    if ltb max_text_field_bytes (byte_len value) then err bad_request else ok tt

unfoldable pub validate_entry_id : (Text → Bool) → Text → Answer (Unit {0})
validate_entry_id is_ulid id = if is_ulid id then ok tt else err bad_request

abbrev pub with_plain : Option Text → ClipboardEntry → ClipboardEntry
with_plain shown e = record e {
  text_content = shown;
  flavors = record { text_plain = shown; text_html = none; text_rtf = none; file_list = none };
}

unfoldable pub masked_plain : Option Text → Option Text
unfolding mask_sensitive
masked_plain none = none
masked_plain (some plain) = some (mask_sensitive plain 60)

unfoldable pub mask_sensitive_entry : ClipboardEntry → ClipboardEntry
unfolding masked_plain entry_best_plain_text
mask_sensitive_entry e =
    if e.sensitive then with_plain (masked_plain (entry_best_plain_text e)) e else e

unfoldable pub project_list_entry : ClipboardEntry → Bool → ClipboardEntry
unfolding mask_sensitive_entry
project_list_entry e include_sensitive = if include_sensitive then e else mask_sensitive_entry e

pub record EntryResponse : Type 0 where
  pub entry : ClipboardEntry
  pub blob_url : Option Text

abbrev url_of : Text → Option Text → Option Text
url_of id none = none
url_of id (some hash) = some (codes "/api/entries/" ++ (id ++ codes "/blob"))

-- The response with the entry as it is shown.
unfoldable pub respond : (ClipboardEntry → ClipboardEntry) → ClipboardEntry → EntryResponse
respond project e = record { entry = project e; blob_url = url_of e.id e.blob_hash }
