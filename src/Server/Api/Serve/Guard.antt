-- ===== src/Server/Api/Serve/Guard.antt =====
-- What the guard lets through, and that a request it does not let through does nothing.
use copywraith.Common.Text.{strip_prefix-some, starts_with, codes, strip_prefix, Text}
use copywraith.Common.{
  ◌++◌, ◌⊎◌, or_else, arith, ◌↔◌, ◌≡◌, refl, ap, sym, ◌∙◌, Bool, true, false, Option, none, some,
  Option-cases, Bool-cases, inl, inr,
}
use copywraith.Server.Api.{
  setup_required, unauthorized, validate_entry_id, Store, World, AppState, AppError, Answer,
  ensure_authorized, extract_bearer, authorized, after_admission, admit,
}
use copywraith.Server.Api.Serve.{
  created, entry_shown, get_status, post_setup, post_unlock, get_health, bytes_response, deleted,
  listed, succeeded, Request, post_change_password, post_lock, post_entry, get_entries, get_one,
  patch_one, delete_one, get_bytes, Response, failed, serve, reply,
}
use copywraith.Server.Api.Entries.{
  read_blob, remove_entry, set_star, read_entry, read_page, store_entry, check_lengths, checked,
  create_entry, list_entries, get_entry, update_entry, delete_entry, get_blob,
}
use copywraith.Server.Api.Auth.{locked, change_answered, auth_change_password, auth_lock}
use copywraith.Server.Crypto.Vault.{VaultError, CryptoState, is_initialized, verify_and_unlock}
use copywraith.Common.Outcome.{Outcome, ok, err}
use copywraith.Server.Crypto.Primitives.{Primitives}

-- The requests that need a password in the header.
unfoldable pub is_protected : Request → Bool
is_protected (post_change_password old_password new_password) = true
is_protected post_lock = true
is_protected (post_entry req) = true
is_protected (get_entries params) = true
is_protected (get_one id) = true
is_protected (patch_one id starred) = true
is_protected (delete_one id) = true
is_protected (get_bytes id) = true
is_protected _ = false

-- What a protected request does behind the guard.
unfoldable pub handled : World → Request → AppState → Response × AppState
handled w (post_change_password old_password new_password) s =
    reply (λ _. succeeded) (change_answered w old_password new_password s)
handled w post_lock s = reply (λ _. succeeded) (locked s)
handled w (post_entry req) s = reply created (checked (check_lengths req) (store_entry w req) s)
handled w (get_entries params) s = reply listed (read_page w params s)
handled w (get_one id) s =
    reply entry_shown (checked (validate_entry_id w.is_ulid id) (read_entry w id) s)
handled w (patch_one id starred) s =
    reply entry_shown
      (checked (validate_entry_id w.is_ulid id) (λ t. read_entry w id (set_star w id starred t)) s)
handled w (delete_one id) s =
    reply (λ _. deleted) (checked (validate_entry_id w.is_ulid id) (remove_entry w id) s)
handled w (get_bytes id) s =
    reply bytes_response (checked (validate_entry_id w.is_ulid id) (read_blob w id) s)
handled w _ s = (succeeded, s)

-- What a protected request answers, by what the guard says.
unfoldable pub after_guard :
    (AppState → Response × AppState) → Store → Answer (Unit {0}) × CryptoState → Response × AppState
after_guard handler storage (err e, c) = (failed e, record { crypto = c; storage = storage })
after_guard handler storage (ok allowed, c) = handler (record { crypto = c; storage = storage })

reply-after_admission {ℓ} :
    {A : Type ℓ} (f : A → Response) (handler : AppState → Answer A × AppState) (storage : Store)
    (g : Answer (Unit {0}) × CryptoState)
    → reply f (after_admission handler storage g) ≡ after_guard (λ s. reply f (handler s)) storage g
unfolding after_guard after_admission reply
reply-after_admission f handler storage (err e, c) = refl
reply-after_admission f handler storage (ok allowed, c) = refl

pub serve-handled :
    (w : World) (authorization : Option Text) (request : Request) (s : AppState)
    → is_protected request ≡ true
    → serve w authorization request s
      ≡ after_guard
          (handled w request)
          s.storage
          (ensure_authorized w.primitives authorization s.crypto)
unfolding serve is_protected handled authorized auth_change_password auth_lock create_entry
    list_entries get_entry update_entry delete_entry get_blob
serve-handled w authorization (post_change_password old_password new_password) s h =
    reply-after_admission (λ _. succeeded) (change_answered w old_password new_password) s.storage
      (ensure_authorized w.primitives authorization s.crypto)
serve-handled w authorization post_lock s h =
    reply-after_admission (λ _. succeeded) locked s.storage
      (ensure_authorized w.primitives authorization s.crypto)
serve-handled w authorization (post_entry req) s h =
    reply-after_admission created (checked (check_lengths req) (store_entry w req)) s.storage
      (ensure_authorized w.primitives authorization s.crypto)
serve-handled w authorization (get_entries params) s h =
    reply-after_admission listed (read_page w params) s.storage
      (ensure_authorized w.primitives authorization s.crypto)
serve-handled w authorization (get_one id) s h =
    reply-after_admission entry_shown (checked (validate_entry_id w.is_ulid id) (read_entry w id))
      s.storage (ensure_authorized w.primitives authorization s.crypto)
serve-handled w authorization (patch_one id starred) s h =
    reply-after_admission entry_shown
      (checked (validate_entry_id w.is_ulid id) (λ t. read_entry w id (set_star w id starred t)))
      s.storage (ensure_authorized w.primitives authorization s.crypto)
serve-handled w authorization (delete_one id) s h =
    reply-after_admission (λ _. deleted)
      (checked (validate_entry_id w.is_ulid id) (remove_entry w id)) s.storage
      (ensure_authorized w.primitives authorization s.crypto)
serve-handled w authorization (get_bytes id) s h =
    reply-after_admission bytes_response (checked (validate_entry_id w.is_ulid id) (read_blob w id))
      s.storage (ensure_authorized w.primitives authorization s.crypto)
serve-handled w authorization get_status s h = cc
serve-handled w authorization (post_setup password) s h = cc
serve-handled w authorization (post_unlock password) s h = cc
serve-handled w authorization get_health s h = cc

-- A protected request that the guard refuses is answered with the guard's error, and the storage
-- stays as it is.
pub serve-refused :
    (w : World) (authorization : Option Text) (request : Request) (s : AppState) (e : AppError)
    (c : CryptoState)
    → is_protected request ≡ true
    → ensure_authorized w.primitives authorization s.crypto ≡ (err e, c)
    → serve w authorization request s ≡ (failed e, record s { crypto = c })
unfolding after_guard
serve-refused w authorization request s e c h k =
    serve-handled w authorization request s h ∙ ap (after_guard (handled w request) s.storage) k

admit_iff :
    (found : Outcome VaultError Bool × CryptoState)
    → ((admit found).0 ≡ ok tt) ↔ (found.0 ≡ ok true)
unfolding admit
admit_iff (err e, c) = ground arith
admit_iff (ok false, c) = ground arith
admit_iff (ok true, c) = (λ h. refl, λ h. refl)

extract_bearer-upper :
    (password : Text) → extract_bearer (some (codes "Bearer " ++ password)) ≡ some password
unfolding extract_bearer strip_prefix starts_with
extract_bearer-upper password = refl

extract_bearer-lower :
    (password : Text) → extract_bearer (some (codes "bearer " ++ password)) ≡ some password
unfolding extract_bearer strip_prefix starts_with
extract_bearer-lower password = refl

either_prefix :
    (upper lower : Option Text) (password : Text)
    → or_else upper lower ≡ some password
    → (upper ≡ some password) ⊎ (lower ≡ some password)
either_prefix none lower password h = inr h
either_prefix (some t) lower password h = inl h

header_of :
    (authorization : Option Text) (password : Text)
    → extract_bearer authorization ≡ some password
    → (authorization ≡ some (codes "Bearer " ++ password))
      ⊎ (authorization ≡ some (codes "bearer " ++ password))
unfolding extract_bearer
header_of none password h = cc
header_of (some header) password h =
    elim (either_prefix (strip_prefix (codes "Bearer ") header)
      (strip_prefix (codes "bearer ") header) password h) [
        | inl upper ↦ inl (ap some (strip_prefix-some (codes "Bearer ") header password upper))
        | inr lower ↦ inr (ap some (strip_prefix-some (codes "bearer ") header password lower))
      ]

module _ (p : Primitives) (authorization : Option Text) (c : CryptoState) where
  ensure_authorized-no_password :
      is_initialized c ≡ false → ensure_authorized p authorization c ≡ (err setup_required, c)
  unfolding ensure_authorized
  ensure_authorized-no_password h = rw h refl

  ensure_authorized-no_bearer :
      is_initialized c ≡ true
      → extract_bearer authorization ≡ none
      → ensure_authorized p authorization c ≡ (err unauthorized, c)
  unfolding ensure_authorized
  ensure_authorized-no_bearer h k = rw (h, k) refl

  ensure_authorized-bearer :
      (password : Text)
      → is_initialized c ≡ true
      → extract_bearer authorization ≡ some password
      → ensure_authorized p authorization c ≡ admit (verify_and_unlock p password c)
  unfolding ensure_authorized
  ensure_authorized-bearer password h k = rw (h, k) refl

  -- A password is configured, and the header is `Bearer` or `bearer`, a space, and a text that verifies
  -- as the password.
  abbrev pub MayPass : Type 0
  MayPass =
      (is_initialized c ≡ true)
      × ((password : Text) × (((authorization ≡ some (codes "Bearer " ++ password))
              ⊎ (authorization ≡ some (codes "bearer " ++ password)))
            × ((verify_and_unlock p password c).0 ≡ ok true)))

  abbrev Admissible : Type 0
  Admissible =
      (is_initialized c ≡ true)
      × ((password : Text) × ((extract_bearer authorization ≡ some password)
            × ((verify_and_unlock p password c).0 ≡ ok true)))

  passes-Admissible : (ensure_authorized p authorization c).0 ≡ ok tt → Admissible
  passes-Admissible h = elim (Bool-cases (is_initialized c)) [
    | inr no_password ↦ absurd_answer (ap (λ x. x.0) (ensure_authorized-no_password no_password)) h
    | inl set_up ↦ elim (Option-cases (extract_bearer authorization)) [
      | inl no_bearer ↦
          absurd_answer (ap (λ x. x.0) (ensure_authorized-no_bearer set_up no_bearer)) h
      | inr (password, bearer) ↦ (
        set_up,
        (
          password,
          (
            bearer,
            (admit_iff (verify_and_unlock p password c)).0
                (sym (ap (λ x. x.0) (ensure_authorized-bearer password set_up bearer)) ∙ h),
          ),
        ),
      )
    ]
  ]
    where
      absurd_answer : {e : AppError} {a : Answer (Unit {0})} → a ≡ err e → a ≡ ok tt → Admissible
      absurd_answer h k = cc

  bearer_of :
      (password : Text)
      → (authorization ≡ some (codes "Bearer " ++ password))
        ⊎ (authorization ≡ some (codes "bearer " ++ password))
      → extract_bearer authorization ≡ some password
  bearer_of password (inl h) = ap extract_bearer h ∙ extract_bearer-upper password
  bearer_of password (inr h) = ap extract_bearer h ∙ extract_bearer-lower password

  -- The guard lets a request through exactly when a password is configured and the header is `Bearer`
  -- or `bearer`, one space, and a text that verifies as the password.
  pub ensure_authorized_iff : ((ensure_authorized p authorization c).0 ≡ ok tt) ↔ MayPass
  ensure_authorized_iff = (
    λ h.
        let (set_up, (password, (bearer, verifies))) = passes-Admissible h in
        (set_up, (password, (header_of authorization password bearer, verifies))),
    λ (set_up, (password, (header, verifies))).
        ap (λ x. x.0) (ensure_authorized-bearer password set_up (bearer_of password header))
        ∙ (admit_iff (verify_and_unlock p password c)).1 verifies,
  )
