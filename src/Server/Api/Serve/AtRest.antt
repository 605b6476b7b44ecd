-- ===== src/Server/Api/Serve/AtRest.antt =====
-- That a server with a password stores nothing in clear: what the requests keep, and what the
-- set-up establishes.
use copywraith.Server.Store.AtRest.{
  is_whole, row_is_settled, EncryptedAtRest, update_entry_starred-AtRest, delete_entry-AtRest,
  create_entry-AtRest,
}
use copywraith.Common.{
  ◌≢◌, ◌⊎◌, ◌≡◌, refl, ap, sym, subst, ◌∙◌, Bool, true, false, not, ◌&&◌, Option, none, some, all,
  arith, is_some, Bool-cases, Option-cases, inl, inr,
}
use copywraith.Server.Api.{
  unauthorized, not_found, bad_request, setup_required, validate_entry_id, World, AppState, Answer,
  internal, internally,
}
use copywraith.Common.Text.{Text, Bytes}
use copywraith.Common.Outcome.{Outcome, ok, err}
use copywraith.Server.Crypto.Vault.{
  VaultError, CryptoState, is_initialized, is_unlocked, get_dek, setup_password, verify_and_unlock,
}
use copywraith.Server.Crypto.Vault.Unlock.{verify_and_unlock-config}
use copywraith.Server.Records.{Store}
use copywraith.Server.Store.{Result}
use copywraith.Server.Store.Valid.{IsValid}
use copywraith.Server.Store.Migrate.{encrypt_all_entries}
use copywraith.Server.Store.Migrate.Settles.{encrypt_all_entries-settles, encrypt_all_blobs-AtRest}
use copywraith.Server.Api.Auth.{
  auth_setup, after_setup, migrate_under, acceptable, change_answered, locked, migrated,
  migrate_existing_data, after_rows,
}
use copywraith.Server.Api.Entries.{
  CreateEntryRequest, checked, store_entry, read_page, read_entry, set_star, remove_entry,
  read_blob, check_lengths,
}
use copywraith.Server.Api.Serve.{
  succeeded, Request, get_status, post_setup, post_unlock, get_health, post_change_password,
  post_lock, post_entry, get_entries, get_one, patch_one, delete_one, get_bytes, Response, failed,
  serve, reply,
}
use copywraith.Server.Api.Serve.Guard.{handled}
use copywraith.Server.Api.Serve.Keeps.{reply-state, serve-Inv, SetupKeeps}
use copywraith.Server.Api.Serve.Vault.{auth_setup-new, checked-keeps, either_state}
use copywraith.Server.Api.Serve.Sound.{
  Sound, handled-Sound, verify-Sound, setup-Sound, change-storage,
}

-- No password yet, or nothing in clear.
pub record Sealed (s : AppState) : Type 0 where
  pub sound : Sound s
  pub at_rest : (is_initialized s.crypto ≡ false) ⊎ EncryptedAtRest s.storage

abbrev StorageAtRest : AppState → Type 0
StorageAtRest s = EncryptedAtRest s.storage

module _ (w : World) where
  after_rows-AtRest :
      (dek : Bytes) (r : Result (Unit {0}) × Store)
      → (r.0 ≡ ok tt → all row_is_settled r.1.rows ≡ true)
      → (after_rows w dek r).0 ≡ ok tt
      → EncryptedAtRest (after_rows w dek r).1
  unfolding after_rows
  after_rows-AtRest dek (err e, s) settles h = cc
  after_rows-AtRest dek (ok done, s) settles h =
      encrypt_all_blobs-AtRest w.primitives w.disk w.file_nonces dek s (settles refl) h

  pub migrate-AtRest :
      (dek : Bytes) (s : Store)
      → IsValid s
      → (migrate_existing_data w dek s).0 ≡ ok tt
      → EncryptedAtRest (migrate_existing_data w dek s).1
  unfolding migrate_existing_data
  migrate-AtRest dek s v h =
      after_rows-AtRest dek (encrypt_all_entries w.primitives w.row_nonces dek s)
        (encrypt_all_entries-settles w.primitives w.row_nonces dek s v.ids) h

  migrated-AtRest :
      (c : CryptoState) (r : Result (Unit {0}) × Store)
      → (r.0 ≡ ok tt → EncryptedAtRest r.1)
      → (migrated c r).0 ≡ ok tt
      → EncryptedAtRest (migrated c r).1.storage
  unfolding migrated
  migrated-AtRest c (err e, s) h k = cc
  migrated-AtRest c (ok done, s) h k = h refl

  after_setup-AtRest :
      (storage : Store) (r : Outcome VaultError (Unit {0}) × CryptoState)
      → IsValid storage
      → (after_setup w storage r).0 ≡ ok tt
      → EncryptedAtRest (after_setup w storage r).1.storage
  unfolding after_setup migrate_under
  after_setup-AtRest storage (err e, c) v = λ h. cc
  after_setup-AtRest storage (ok done, c) v = by_key (get_dek c)
    where
      by_key :
          (dek : Option Bytes)
          → (migrate_under w storage c dek).0 ≡ ok tt
          → EncryptedAtRest (migrate_under w storage c dek).1.storage
      by_key none h = cc
      by_key (some dek) h =
          migrated-AtRest c (migrate_existing_data w dek storage) (migrate-AtRest dek storage v) h

  -- A set-up that succeeds leaves nothing in clear.
  pub auth_setup-AtRest :
      (password : Text) (s : AppState)
      → IsValid s.storage
      → (auth_setup w password s).0 ≡ ok tt
      → EncryptedAtRest (auth_setup w password s).1.storage
  unfolding auth_setup
  auth_setup-AtRest password s v = elim (Bool-cases (acceptable password)) [
    | inr weak ↦ rw (weak, auth_setup) (λ h. cc)
    | inl fine ↦ elim (Bool-cases (is_initialized s.crypto)) [
      | inl set_up ↦ rw (fine, set_up, auth_setup) (λ h. cc)
      | inr fresh ↦
          subst (λ (x : Answer (Unit {0}) × AppState). x.0 ≡ ok tt → EncryptedAtRest x.1.storage)
            (sym (auth_setup-new w password s fine fresh))
            (after_setup-AtRest s.storage
              (setup_password w.primitives w.auth_write_ok w.salt w.nonce w.fresh_dek password
                s.crypto)
              v)
    ]
  ]

  set_star-AtRest :
      (id : Text) (starred : Option Bool) (s : AppState)
      → EncryptedAtRest s.storage
      → EncryptedAtRest (set_star w id starred s).storage
  unfolding set_star
  set_star-AtRest id none s h = h
  set_star-AtRest id (some starred) s h = update_entry_starred-AtRest w.now id starred s.storage h

  store_entry-AtRest :
      (whole : is_whole w.new_blob_write ≡ true) (req : CreateEntryRequest) (s : AppState)
      (dek : Bytes)
      → get_dek s.crypto ≡ some dek
      → EncryptedAtRest s.storage
      → EncryptedAtRest (store_entry w req s).1.storage
  unfolding store_entry
  store_entry-AtRest whole req s dek known h = rw known (
      create_entry-AtRest w.primitives dek w.contains_sensitive_data w.now w.fresh_id
        w.new_blob_write whole w.entry_nonces req.content_type _ req.blob_base64 req.source_app
        req.starred req.content_hash s.storage h)

  replied :
      {A : Type 0} (f : A → Response) (r : Answer A × AppState)
      → EncryptedAtRest r.1.storage
      → EncryptedAtRest (reply f r).1.storage
  replied f r h = subst StorageAtRest (sym (reply-state f r)) h

  reply-checked :
      {A : Type 0} {B : Type 0} (f : B → Response) (a : Answer A)
      (handler : AppState → Answer B × AppState) (s : AppState)
      → EncryptedAtRest s.storage
      → EncryptedAtRest (handler s).1.storage
      → EncryptedAtRest (reply f (checked a handler s)).1.storage
  reply-checked f a handler s h after =
      replied f (checked a handler s) (checked-keeps StorageAtRest a handler s h after)

  handled-AtRest :
      (whole : is_whole w.new_blob_write ≡ true) (request : Request) (s : AppState) (dek : Bytes)
      → get_dek s.crypto ≡ some dek
      → EncryptedAtRest s.storage
      → EncryptedAtRest (handled w request s).1.storage
  unfolding handled read_page read_entry remove_entry read_blob locked
  handled-AtRest whole (post_change_password old new) s dek k h =
      replied _ (change_answered w old new s)
        (subst EncryptedAtRest (sym (change-storage w old new s)) h)
  handled-AtRest whole post_lock s dek k h = replied _ (locked s) h
  handled-AtRest whole (post_entry req) s dek k h =
      reply-checked _ (check_lengths req) (store_entry w req) s h
        (store_entry-AtRest whole req s dek k h)
  handled-AtRest whole (get_entries params) s dek k h =
      replied _ (read_page w params s) (subst StorageAtRest (sym (either_state _ _ _ s)) h)
  handled-AtRest whole (get_one id) s dek k h =
      reply-checked _ (validate_entry_id w.is_ulid id) (read_entry w id) s h h
  handled-AtRest whole (patch_one id starred) s dek k h =
      reply-checked _ (validate_entry_id w.is_ulid id)
        (λ t. read_entry w id (set_star w id starred t)) s h (set_star-AtRest id starred s h)
  handled-AtRest whole (delete_one id) s dek k h =
      reply-checked _ (validate_entry_id w.is_ulid id) (remove_entry w id) s h
        (delete_entry-AtRest w.removes id s.storage h)
  handled-AtRest whole (get_bytes id) s dek k h =
      reply-checked _ (validate_entry_id w.is_ulid id) (read_blob w id) s h h
  handled-AtRest whole get_status s dek k h = h
  handled-AtRest whole (post_setup password) s dek k h = h
  handled-AtRest whole (post_unlock password) s dek k h = h
  handled-AtRest whole get_health s dek k h = h

  verify-is_initialized :
      (password : Text) (c : CryptoState)
      → is_initialized (verify_and_unlock w.primitives password c).1 ≡ is_initialized c
  unfolding is_initialized
  verify-is_initialized password c = ap is_some (verify_and_unlock-config w.primitives password c)

  verify-Sealed :
      (password : Text) (s : AppState)
      → Sealed s
      → Sealed (record s { crypto = (verify_and_unlock w.primitives password s.crypto).1 })
  verify-Sealed password s h = record {
    sound = verify-Sound w password s h.sound;
    at_rest = by_rest h.at_rest;
  }
    where
      by_rest :
          (is_initialized s.crypto ≡ false) ⊎ EncryptedAtRest s.storage
          → (is_initialized (verify_and_unlock w.primitives password s.crypto).1 ≡ false)
            ⊎ EncryptedAtRest s.storage
      by_rest (inl no_password) = inl (verify-is_initialized password s.crypto ∙ no_password)
      by_rest (inr encrypted) = inr encrypted

  -- Behind the guard the key is known, and a password is configured.
  key_of :
      (s : AppState) → is_unlocked s.crypto ≡ true → (dek : Bytes) × (get_dek s.crypto ≡ some dek)
  unfolding is_unlocked get_dek
  key_of s h = elim (Option-cases s.crypto.dek) [
    | inl e ↦ absurd (cc (ap is_some e))
    | inr (dek, e) ↦ (dek, e)
  ]

  differ : (b : Bool) → b ≡ false → b ≡ true → ⊥
  differ b h k = cc

  initialised : (a b : Bool) → (not a && b) ≡ false → b ≡ true → a ≡ true
  initialised a b h k = ground arith

  unlocked-encrypted :
      (s : AppState) → is_unlocked s.crypto ≡ true → Sealed s → EncryptedAtRest s.storage
  unfolding is_unlocked is_initialized
  unlocked-encrypted s u h = by_rest h.at_rest
    where
      by_rest :
          (is_initialized s.crypto ≡ false) ⊎ EncryptedAtRest s.storage → EncryptedAtRest s.storage
      by_rest (inl no_password) = absurd (
          differ (is_some s.crypto.auth_config) no_password (
            initialised (is_some s.crypto.auth_config) (is_some s.crypto.dek)
              h.sound.vault.configured u))
      by_rest (inr encrypted) = encrypted

  handled-Sealed :
      (whole : is_whole w.new_blob_write ≡ true) (request : Request) (s : AppState)
      → is_unlocked s.crypto ≡ true
      → Sealed s
      → Sealed (handled w request s).1
  handled-Sealed whole request s u h =
      let (dek, known) = key_of s u in
      record {
        sound = handled-Sound w request s u h.sound;
        at_rest = inr (handled-AtRest whole request s dek known (unlocked-encrypted s u h));
      }

-- Whether a request is no set-up that stopped at an internal error.
unfoldable pub setup_finished : Request → Response → Bool
setup_finished (post_setup password) (failed internal) = false
setup_finished _ _ = true

reply_finished :
    {A : Type 0} (f : A → Response) (password : Text) (r : Answer A × AppState)
    → setup_finished (post_setup password) (reply f r).0 ≡ true
    → r.0 ≢ err internal
unfolding setup_finished reply
reply_finished f password (err internal, s) h k = cc
reply_finished f password (err unauthorized, s) h k = cc
reply_finished f password (err not_found, s) h k = cc
reply_finished f password (err bad_request, s) h k = cc
reply_finished f password (err setup_required, s) h k = cc
reply_finished f password (ok a, s) h k = cc

module _ (w : World) where
  -- Behind its checks, a set-up succeeds or answers an internal error.
  migrate_under-answer :
      (storage : Store) (c : CryptoState) (dek : Option Bytes)
      → ((migrate_under w storage c dek).0 ≡ ok tt)
        ⊎ ((migrate_under w storage c dek).0 ≡ err internal)
  unfolding migrate_under migrated
  migrate_under-answer storage c none = inr refl
  migrate_under-answer storage c (some dek) = internal_only (migrate_existing_data w dek storage).0
    where
      internal_only :
          (o : Result (Unit {0})) → (internally o ≡ ok tt) ⊎ (internally o ≡ err internal)
      internal_only (ok done) = inl refl
      internal_only (err e) = inr refl

  after_setup-answer :
      (storage : Store) (r : Outcome VaultError (Unit {0}) × CryptoState)
      → ((after_setup w storage r).0 ≡ ok tt) ⊎ ((after_setup w storage r).0 ≡ err internal)
  unfolding after_setup
  after_setup-answer storage (err e, c) = inr refl
  after_setup-answer storage (ok done, c) = migrate_under-answer storage c (get_dek c)

  -- A set-up succeeds, answers an internal error, or does nothing.
  auth_setup-answer :
      (password : Text) (s : AppState)
      → ((auth_setup w password s).0 ≡ ok tt)
        ⊎ (((auth_setup w password s).0 ≡ err internal) ⊎ ((auth_setup w password s).1 ≡ s))
  unfolding auth_setup
  auth_setup-answer password s = elim (Bool-cases (acceptable password)) [
    | inr weak ↦ rw (weak, auth_setup) (inr (inr refl))
    | inl fine ↦ elim (Bool-cases (is_initialized s.crypto)) [
      | inl set_up ↦ rw (fine, set_up, auth_setup) (inr (inr refl))
      | inr fresh ↦
          elim (after_setup-answer s.storage (
            setup_password w.primitives w.auth_write_ok w.salt w.nonce w.fresh_dek password
              s.crypto)) [
                | inl done ↦ inl (ap (λ x. x.0) (auth_setup-new w password s fine fresh) ∙ done)
                | inr stopped ↦
                    inr (inl (ap (λ x. x.0) (auth_setup-new w password s fine fresh) ∙ stopped))
              ]
    ]
  ]

  setup-Sealed :
      (password : Text) (s : AppState)
      → (auth_setup w password s).0 ≢ err internal
      → Sealed s
      → Sealed (auth_setup w password s).1
  setup-Sealed password s finished h = elim (auth_setup-answer password s) [
    | inl done ↦ record {
      sound = setup-Sound w password s h.sound;
      at_rest = inr (auth_setup-AtRest w password s h.sound.store done);
    }
    | inr (inl stopped) ↦ absurd (finished stopped)
    | inr (inr same_state) ↦ subst Sealed (sym same_state) h
  ]

  -- Once a password is configured, every text column is empty or bears the mark `ENC:1:` of encrypted
  -- text, and every blob file the mark of an encrypted blob; a text that was submitted with the mark is
  -- taken for encrypted, by the code as here. Every request keeps this, whatever it answers, but for a
  -- set-up that answers an internal error and for a new blob whose write breaks off half-way; a set-up
  -- that succeeds establishes it.
  pub serve-Sealed :
      (authorization : Option Text) (request : Request) (s : AppState)
      → setup_finished request (serve w authorization request s).0 ≡ true
      → is_whole w.new_blob_write ≡ true
      → Sealed s
      → Sealed (serve w authorization request s).1
  unfolding serve
  serve-Sealed authorization request s finished whole h =
      serve-Inv w Sealed (λ t k. k.sound.vault) (verify-Sealed w) (λ r. Unit)
        (λ r t allowed. handled-Sealed w whole r t) authorization request s tt
        (kept request finished) h
    where
      kept :
          (r : Request)
          → setup_finished r (serve w authorization r s).0 ≡ true
          → SetupKeeps w Sealed r s
      kept (post_setup password) k =
          setup-Sealed password s
            (reply_finished (λ _. succeeded) password (auth_setup w password s) k) h
      kept _ k = tt
