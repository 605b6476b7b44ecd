-- ===== src/Server/Api/Serve/Vault.antt =====
-- That no request makes the vault inconsistent.
use copywraith.Common.Text.{Bytes, Text}
use copywraith.Server.Api.{validate_entry_id, World, AppState, Answer}
use copywraith.Server.Api.Auth.{
  migrate_under, auth_setup, after_setup, acceptable, change_answered, locked, migrated,
}
use copywraith.Server.Crypto.Vault.{
  verify_and_unlock, VaultError, CryptoState, is_initialized, is_unlocked, get_dek, setup_password,
}
use copywraith.Common.{
  if◌then◌else◌, ◌≡◌, refl, ap, sym, subst, Bool, true, false, Option, none, some, [], Bool-cases,
  inl, inr,
}
use copywraith.Common.Outcome.{Outcome, ok, err}
use copywraith.Server.Crypto.Vault.Consistent.{Consistent, operations-Consistent}
use copywraith.Server.Records.{Store}
use copywraith.Server.Api.Entries.{
  checked, store_entry, read_page, read_entry, set_star, remove_entry, read_blob, check_lengths,
}
use copywraith.Server.Api.Serve.{
  Request, get_status, post_setup, post_unlock, get_health, post_change_password, post_lock,
  post_entry, get_entries, get_one, patch_one, delete_one, get_bytes, Response, serve, reply,
}
use copywraith.Server.Api.Serve.Guard.{handled}
use copywraith.Server.Api.Serve.Keeps.{reply-state, serve-Inv, SetupKeeps}

pub checked-keeps {ℓ κ ν} :
    (Inv : AppState → Type ν) {A : Type ℓ} {B : Type κ} (a : Answer A)
    (handler : AppState → Answer B × AppState) (s : AppState)
    → Inv s
    → Inv (handler s).1
    → Inv (checked a handler s).1
unfolding checked
checked-keeps Inv (err e) handler s before after = before
checked-keeps Inv (ok a) handler s before after = after

abbrev pub VaultIsConsistent : AppState → Type 0
VaultIsConsistent s = Consistent s.crypto

pub either_state {ℓ} :
    {A : Type ℓ} (b : Bool) (x y : A) (s : AppState)
    → (if◌then◌else◌ {A = A × AppState} b (x, s) (y, s)).1 ≡ s
either_state true x y s = refl
either_state false x y s = refl

module _ (w : World) where
  migrate_under-crypto :
      (storage : Store) (c : CryptoState) (dek : Option Bytes)
      → (migrate_under w storage c dek).1.crypto ≡ c
  unfolding migrate_under migrated
  migrate_under-crypto storage c none = refl
  migrate_under-crypto storage c (some dek) = refl

  after_setup-crypto :
      (storage : Store) (r : Outcome VaultError (Unit {0}) × CryptoState)
      → (after_setup w storage r).1.crypto ≡ r.1
  unfolding after_setup
  after_setup-crypto storage (err e, c) = refl
  after_setup-crypto storage (ok done, c) = migrate_under-crypto storage c (get_dek c)

  pub auth_setup-new :
      (password : Text) (s : AppState)
      → acceptable password ≡ true
      → is_initialized s.crypto ≡ false
      → auth_setup w password s
        ≡ after_setup w s.storage (
            setup_password w.primitives w.auth_write_ok w.salt w.nonce w.fresh_dek password
              s.crypto)
  unfolding auth_setup
  auth_setup-new password s fine fresh = rw (fine, fresh) refl

  pub setup_keeps :
      (password : Text) (s : AppState)
      → Consistent s.crypto
      → Consistent (auth_setup w password s).1.crypto
  unfolding auth_setup
  setup_keeps password s h = elim (Bool-cases (acceptable password)) [
    | inr weak ↦ rw (weak, auth_setup) h
    | inl fine ↦ elim (Bool-cases (is_initialized s.crypto)) [
      | inl set_up ↦ rw (fine, set_up, auth_setup) h
      | inr fresh ↦
          let (_, kept, _, _) =
            operations-Consistent w.primitives w.auth_write_ok w.salt w.nonce w.fresh_dek password
              password s.crypto h in
          subst VaultIsConsistent (sym (ap (λ x. x.1) (auth_setup-new password s fine fresh)))
            (subst Consistent (sym (after_setup-crypto s.storage _)) kept)
    ]
  ]

  change_keeps :
      (old new : Text) (s : AppState)
      → Consistent s.crypto
      → Consistent (change_answered w old new s).1.crypto
  unfolding change_answered
  change_keeps old new s h = elim (Bool-cases (acceptable new)) [
    | inl fine ↦
        let (_, _, _, kept) =
          operations-Consistent w.primitives w.auth_write_ok w.salt w.nonce w.fresh_dek old new
            s.crypto h in
        rw (fine, change_answered) kept
    | inr weak ↦ rw (weak, change_answered) h
  ]

  pub verify_keeps :
      (password : Text) (s : AppState)
      → Consistent s.crypto
      → Consistent (verify_and_unlock w.primitives password s.crypto).1
  verify_keeps password s h =
      let (_, _, kept, _) =
        operations-Consistent w.primitives w.auth_write_ok w.salt w.nonce w.fresh_dek password
          password s.crypto h in
      kept

  lock_keeps : (s : AppState) → Consistent s.crypto → Consistent (locked s).1.crypto
  unfolding locked
  lock_keeps s h =
      let (kept, _, _, _) =
        operations-Consistent w.primitives w.auth_write_ok w.salt w.nonce w.fresh_dek [] [] s.crypto
          h in
      kept

  set_star-crypto :
      (id : Text) (starred : Option Bool) (s : AppState)
      → (set_star w id starred s).crypto ≡ s.crypto
  unfolding set_star
  set_star-crypto id none s = refl
  set_star-crypto id (some starred) s = refl

  replied :
      {A : Type 0} (f : A → Response) (r : Answer A × AppState)
      → Consistent r.1.crypto
      → Consistent (reply f r).1.crypto
  replied f r h = subst VaultIsConsistent (sym (reply-state f r)) h

  -- The checks in front of a handler that does not touch the vault.
  reply-checked :
      {A : Type 0} {B : Type 0} (f : B → Response) (a : Answer A)
      (handler : AppState → Answer B × AppState) (s : AppState)
      → Consistent s.crypto
      → (handler s).1.crypto ≡ s.crypto
      → Consistent (reply f (checked a handler s)).1.crypto
  reply-checked f a handler s h same_crypto =
      replied f (checked a handler s)
        (checked-keeps VaultIsConsistent a handler s h (subst Consistent (sym same_crypto) h))

  pub handled_keeps :
      (request : Request) (s : AppState)
      → is_unlocked s.crypto ≡ true
      → Consistent s.crypto
      → Consistent (handled w request s).1.crypto
  unfolding handled store_entry read_page read_entry remove_entry read_blob
  handled_keeps (post_change_password old new) s u h =
      replied _ (change_answered w old new s) (change_keeps old new s h)
  handled_keeps post_lock s u h = replied _ (locked s) (lock_keeps s h)
  handled_keeps (post_entry req) s u h =
      reply-checked _ (check_lengths req) (store_entry w req) s h refl
  handled_keeps (get_entries params) s u h =
      replied _ (read_page w params s) (subst VaultIsConsistent (sym (either_state _ _ _ s)) h)
  handled_keeps (get_one id) s u h =
      reply-checked _ (validate_entry_id w.is_ulid id) (read_entry w id) s h refl
  handled_keeps (patch_one id starred) s u h =
      reply-checked _ (validate_entry_id w.is_ulid id)
        (λ t. read_entry w id (set_star w id starred t)) s h (set_star-crypto id starred s)
  handled_keeps (delete_one id) s u h =
      reply-checked _ (validate_entry_id w.is_ulid id) (remove_entry w id) s h refl
  handled_keeps (get_bytes id) s u h =
      reply-checked _ (validate_entry_id w.is_ulid id) (read_blob w id) s h refl
  handled_keeps get_status s u h = h
  handled_keeps (post_setup password) s u h = h
  handled_keeps (post_unlock password) s u h = h
  handled_keeps get_health s u h = h

  -- Every request leaves the vault consistent, whatever it answers: the file agrees with the
  -- memory, and the key and the password's digest are there together or not at all.
  pub serve-Consistent :
      (authorization : Option Text) (request : Request) (s : AppState)
      → Consistent s.crypto
      → Consistent (serve w authorization request s).1.crypto
  serve-Consistent authorization request s h =
      serve-Inv w VaultIsConsistent (λ t c. c) verify_keeps (λ r. Unit)
        (λ r t allowed. handled_keeps r t) authorization request s tt (kept request) h
    where
      kept : (r : Request) → SetupKeeps w VaultIsConsistent r s
      kept (post_setup password) = setup_keeps password s h
      kept _ = tt
