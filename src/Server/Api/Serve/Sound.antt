-- ===== src/Server/Api/Serve/Sound.antt =====
-- That no request breaks the store: identifiers and content hashes stay unique, and every blob that
-- a row names has its file.
use copywraith.Server.Api.{validate_entry_id, World, AppState, Answer}
use copywraith.Server.Api.Entries.{
  CreateEntryRequest, checked, store_entry, read_page, read_entry, set_star, remove_entry,
  read_blob, check_lengths,
}
use copywraith.Common.{
  ◌≡◌, refl, ap, sym, subst, Bool, true, Option, none, some, List, [], ◌∷◌, Bool-cases, inl, inr,
}
use copywraith.Common.Text.{Text, Bytes}
use copywraith.Common.Outcome.{Outcome, ok, err}
use copywraith.Server.Crypto.Vault.{
  VaultError, CryptoState, is_initialized, is_unlocked, get_dek, setup_password, verify_and_unlock,
}
use copywraith.Server.Crypto.Vault.Consistent.{Consistent}
use copywraith.Server.Records.{Store}
use copywraith.Server.Store.{Result}
use copywraith.Server.Store.Valid.{
  IsValid, update_entry_starred-IsValid, delete_entry-IsValid, create_entry-IsValid,
}
use copywraith.Server.Store.Migrate.{encrypt_all_entries}
use copywraith.Server.Store.Migrate.Settles.{encrypt_all_entries-IsValid, encrypt_all_blobs-IsValid}
use copywraith.Server.Api.Auth.{
  auth_setup, after_setup, migrate_under, acceptable, change_answered, locked, migrated,
  migrate_existing_data, after_rows,
}
use copywraith.Server.Api.Serve.{
  Request, get_status, post_setup, post_unlock, get_health, post_change_password, post_lock,
  post_entry, get_entries, get_one, patch_one, delete_one, get_bytes, Response, serve, serve_all,
  Arrival, reply,
}
use copywraith.Server.Api.Serve.Guard.{handled}
use copywraith.Server.Api.Serve.Keeps.{reply-state, serve-Inv, SetupKeeps}
use copywraith.Server.Api.Serve.Vault.{
  auth_setup-new, checked-keeps, either_state, handled_keeps, verify_keeps, setup_keeps,
}

pub record Sound (s : AppState) : Type 0 where
  pub vault : Consistent s.crypto
  pub store : IsValid s.storage

abbrev StoreIsValid : AppState → Type 0
StoreIsValid s = IsValid s.storage

module _ (w : World) where
  after_rows-IsValid :
      (dek : Bytes) (r : Result (Unit {0}) × Store) → IsValid r.1 → IsValid (after_rows w dek r).1
  unfolding after_rows
  after_rows-IsValid dek (err e, s) v = v
  after_rows-IsValid dek (ok done, s) v =
      encrypt_all_blobs-IsValid w.primitives w.disk w.file_nonces dek s v

  migrate-IsValid :
      (dek : Bytes) (s : Store) → IsValid s → IsValid (migrate_existing_data w dek s).1
  unfolding migrate_existing_data
  migrate-IsValid dek s v =
      after_rows-IsValid dek (encrypt_all_entries w.primitives w.row_nonces dek s)
        (encrypt_all_entries-IsValid w.primitives w.row_nonces dek s v)

  migrate_under-IsValid :
      (storage : Store) (c : CryptoState) (dek : Option Bytes)
      → IsValid storage
      → IsValid (migrate_under w storage c dek).1.storage
  unfolding migrate_under migrated
  migrate_under-IsValid storage c none v = v
  migrate_under-IsValid storage c (some dek) v = migrate-IsValid dek storage v

  after_setup-IsValid :
      (storage : Store) (r : Outcome VaultError (Unit {0}) × CryptoState)
      → IsValid storage
      → IsValid (after_setup w storage r).1.storage
  unfolding after_setup
  after_setup-IsValid storage (err e, c) v = v
  after_setup-IsValid storage (ok done, c) v = migrate_under-IsValid storage c (get_dek c) v

  setup-IsValid :
      (password : Text) (s : AppState)
      → IsValid s.storage
      → IsValid (auth_setup w password s).1.storage
  unfolding auth_setup
  setup-IsValid password s v = elim (Bool-cases (acceptable password)) [
    | inr weak ↦ rw (weak, auth_setup) v
    | inl fine ↦ elim (Bool-cases (is_initialized s.crypto)) [
      | inl set_up ↦ rw (fine, set_up, auth_setup) v
      | inr fresh ↦
          subst StoreIsValid (sym (ap (λ x. x.1) (auth_setup-new w password s fine fresh))) (
            after_setup-IsValid s.storage
              (setup_password w.primitives w.auth_write_ok w.salt w.nonce w.fresh_dek password
                s.crypto)
              v)
    ]
  ]

  pub change-storage :
      (old new : Text) (s : AppState) → (change_answered w old new s).1.storage ≡ s.storage
  unfolding change_answered
  change-storage old new s = elim (Bool-cases (acceptable new)) [
    | inl fine ↦ rw (fine, change_answered) refl
    | inr weak ↦ rw (weak, change_answered) refl
  ]

  set_star-IsValid :
      (id : Text) (starred : Option Bool) (s : AppState)
      → IsValid s.storage
      → IsValid (set_star w id starred s).storage
  unfolding set_star
  set_star-IsValid id none s v = v
  set_star-IsValid id (some starred) s v = update_entry_starred-IsValid w.now id starred s.storage v

  store_entry-IsValid :
      (req : CreateEntryRequest) (s : AppState)
      → IsValid s.storage
      → IsValid (store_entry w req s).1.storage
  unfolding store_entry
  store_entry-IsValid req s v =
      create_entry-IsValid w.primitives w.contains_sensitive_data w.now w.fresh_id w.new_blob_write
        w.entry_nonces req.content_type _ req.blob_base64 req.source_app req.starred
        req.content_hash (get_dek s.crypto) s.storage v

  replied :
      {A : Type 0} (f : A → Response) (r : Answer A × AppState)
      → IsValid r.1.storage
      → IsValid (reply f r).1.storage
  replied f r h = subst StoreIsValid (sym (reply-state f r)) h

  reply-checked :
      {A : Type 0} {B : Type 0} (f : B → Response) (a : Answer A)
      (handler : AppState → Answer B × AppState) (s : AppState)
      → IsValid s.storage
      → IsValid (handler s).1.storage
      → IsValid (reply f (checked a handler s)).1.storage
  reply-checked f a handler s h after =
      replied f (checked a handler s) (checked-keeps StoreIsValid a handler s h after)

  handled-IsValid :
      (request : Request) (s : AppState)
      → IsValid s.storage
      → IsValid (handled w request s).1.storage
  unfolding handled read_page read_entry remove_entry read_blob locked
  handled-IsValid (post_change_password old new) s v =
      replied _ (change_answered w old new s) (subst IsValid (sym (change-storage old new s)) v)
  handled-IsValid post_lock s v = replied _ (locked s) v
  handled-IsValid (post_entry req) s v =
      reply-checked _ (check_lengths req) (store_entry w req) s v (store_entry-IsValid req s v)
  handled-IsValid (get_entries params) s v =
      replied _ (read_page w params s) (subst StoreIsValid (sym (either_state _ _ _ s)) v)
  handled-IsValid (get_one id) s v =
      reply-checked _ (validate_entry_id w.is_ulid id) (read_entry w id) s v v
  handled-IsValid (patch_one id starred) s v =
      reply-checked _ (validate_entry_id w.is_ulid id)
        (λ t. read_entry w id (set_star w id starred t)) s v (set_star-IsValid id starred s v)
  handled-IsValid (delete_one id) s v =
      reply-checked _ (validate_entry_id w.is_ulid id) (remove_entry w id) s v
        (delete_entry-IsValid w.removes id s.storage v)
  handled-IsValid (get_bytes id) s v =
      reply-checked _ (validate_entry_id w.is_ulid id) (read_blob w id) s v v
  handled-IsValid get_status s v = v
  handled-IsValid (post_setup password) s v = v
  handled-IsValid (post_unlock password) s v = v
  handled-IsValid get_health s v = v

  pub handled-Sound :
      (request : Request) (s : AppState)
      → is_unlocked s.crypto ≡ true
      → Sound s
      → Sound (handled w request s).1
  handled-Sound request s u h = record {
    vault = handled_keeps w request s u h.vault;
    store = handled-IsValid request s h.store;
  }

  pub verify-Sound :
      (password : Text) (s : AppState)
      → Sound s
      → Sound (record s { crypto = (verify_and_unlock w.primitives password s.crypto).1 })
  verify-Sound password s h = record { vault = verify_keeps w password s h.vault; store = h.store }

  pub setup-Sound : (password : Text) (s : AppState) → Sound s → Sound (auth_setup w password s).1
  setup-Sound password s h = record {
    vault = setup_keeps w password s h.vault;
    store = setup-IsValid password s h.store;
  }

  pub serve-Sound :
      (authorization : Option Text) (request : Request) (s : AppState)
      → Sound s
      → Sound (serve w authorization request s).1
  serve-Sound authorization request s h =
      serve-Inv w Sound (λ t k. k.vault) verify-Sound (λ r. Unit) (λ r t allowed. handled-Sound r t)
        authorization request s tt (kept request) h
    where
      kept : (r : Request) → SetupKeeps w Sound r s
      kept (post_setup password) = setup-Sound password s h
      kept _ = tt

-- However many requests are served, in whatever order and with whatever answers: the vault stays
-- consistent, identifiers and content hashes stay unique, and every blob that a row names has its
-- file.
pub serve_all-Sound :
    (arrivals : List Arrival) (s : AppState) → Sound s → Sound (serve_all arrivals s)
unfolding serve_all
serve_all-Sound [] s h = h
serve_all-Sound (a ∷ arrivals) s h =
    serve_all-Sound arrivals (serve a.world a.authorization a.request s).1
      (serve-Sound a.world a.authorization a.request s h)
