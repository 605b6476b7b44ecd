-- ===== src/Server/Api/Serve/Keeps.antt =====
-- How an invariant is shown for all requests: it holds after each way in which a handler changes
-- the state.
use copywraith.Common.{
  ◌≡◌, refl, sym, subst, Bool, true, false, Option, Bool-cases, Option-cases, inl, inr,
}
use copywraith.Common.Text.{Text}
use copywraith.Common.Outcome.{Outcome, ok, err}
use copywraith.Server.Crypto.Vault.{
  VaultError, CryptoState, is_initialized, is_unlocked, verify_and_unlock,
}
use copywraith.Server.Crypto.Vault.Consistent.{Consistent, verify_and_unlock-unlocks}
use copywraith.Server.Api.{
  World, AppState, Answer, ensure_authorized, is_authorized, extract_bearer, admit,
}
use copywraith.Server.Api.Auth.{auth_setup, auth_unlock, health}
use copywraith.Server.Api.Serve.{
  Request, get_status, post_setup, post_unlock, get_health, post_change_password, post_lock,
  post_entry, get_entries, get_one, patch_one, delete_one, get_bytes, Response, serve, reply,
}
use copywraith.Server.Api.Serve.Guard.{is_protected, handled, after_guard, serve-handled}

pub reply-state {ℓ} :
    {A : Type ℓ} (f : A → Response) (r : Answer A × AppState) → (reply f r).1 ≡ r.1
unfolding reply
reply-state f (err e, s) = refl
reply-state f (ok a, s) = refl

-- A set-up is shown for itself, since it may stop halfway.
abbrev pub SetupKeeps {ℓ} : World → (AppState → Type ℓ) → Request → AppState → Type ℓ
SetupKeeps w Inv (post_setup password) s = Inv (auth_setup w password s).1
SetupKeeps w Inv _ s = Unit

module _ {ℓ} (w : World) (Inv : AppState → Type ℓ)
    (consistent : (s : AppState) → Inv s → Consistent s.crypto)
    (verify-Inv : (password : Text) (s : AppState)
      → Inv s
      → Inv (record s { crypto = (verify_and_unlock w.primitives password s.crypto).1 }))
    (Allowed : Request → Type 0)
    (handled-Inv : (request : Request) (s : AppState)
      → Allowed request
      → is_unlocked s.crypto ≡ true
      → Inv s
      → Inv (handled w request s).1) where
  -- By what verifying a bearer token gives.
  admitted-Inv :
      (request : Request) (found : Outcome VaultError Bool × CryptoState) (s : AppState)
      → Allowed request
      → Inv (record s { crypto = found.1 })
      → (found.0 ≡ ok true → is_unlocked found.1 ≡ true)
      → Inv (after_guard (handled w request) s.storage (admit found)).1
  unfolding after_guard admit
  admitted-Inv request (err e, c) s allowed h unlocks = h
  admitted-Inv request (ok false, c) s allowed h unlocks = h
  admitted-Inv request (ok true, c) s allowed h unlocks =
      handled-Inv request (record { crypto = c; storage = s.storage }) allowed (unlocks refl) h

  guarded-Inv :
      (authorization : Option Text) (request : Request) (s : AppState)
      → Allowed request
      → Inv s
      → Inv
          (after_guard
            (handled w request)
            s.storage
            (ensure_authorized w.primitives authorization s.crypto)).1
  unfolding ensure_authorized after_guard
  guarded-Inv authorization request s allowed h = elim (Bool-cases (is_initialized s.crypto)) [
    | inr no_password ↦ rw (no_password, ensure_authorized) h
    | inl set_up ↦ elim (Option-cases (extract_bearer authorization)) [
      | inl no_bearer ↦ rw (set_up, no_bearer, ensure_authorized) h
      | inr (password, bearer) ↦
          rw (set_up, bearer, ensure_authorized)
            (admitted-Inv request (verify_and_unlock w.primitives password s.crypto) s allowed
              (verify-Inv password s h)
              (verify_and_unlock-unlocks w.primitives password s.crypto (consistent s h)))
    ]
  ]

  is_authorized-Inv :
      (authorization : Option Text) (s : AppState)
      → Inv s
      → Inv (record s { crypto = (is_authorized w.primitives authorization s.crypto).1 })
  unfolding is_authorized
  is_authorized-Inv authorization s h = elim (Bool-cases (is_initialized s.crypto)) [
    | inr no_password ↦ rw (no_password, is_authorized) h
    | inl set_up ↦ elim (Option-cases (extract_bearer authorization)) [
      | inl no_bearer ↦ rw (set_up, no_bearer, is_authorized) h
      | inr (password, bearer) ↦ rw (set_up, bearer, is_authorized) (verify-Inv password s h)
    ]
  ]

  unlock-Inv : (password : Text) (s : AppState) → Inv s → Inv (auth_unlock w password s).1
  unfolding auth_unlock
  unlock-Inv password s h = elim (Bool-cases (is_initialized s.crypto)) [
    | inr no_password ↦ rw (no_password, auth_unlock) h
    | inl set_up ↦ rw (set_up, auth_unlock) (verify-Inv password s h)
  ]

  replied : {A : Type 0} (f : A → Response) (r : Answer A × AppState) → Inv r.1 → Inv (reply f r).1
  replied f r h = subst Inv (sym (reply-state f r)) h

  protected-Inv :
      (authorization : Option Text) (request : Request) (s : AppState)
      → is_protected request ≡ true
      → Allowed request
      → Inv s
      → Inv (serve w authorization request s).1
  protected-Inv authorization request s h allowed inv =
      subst (λ r. Inv r.1) (sym (serve-handled w authorization request s h))
        (guarded-Inv authorization request s allowed inv)

  pub serve-Inv :
      (authorization : Option Text) (request : Request) (s : AppState)
      → Allowed request
      → SetupKeeps w Inv request s
      → Inv s
      → Inv (serve w authorization request s).1
  unfolding serve health is_protected
  serve-Inv authorization get_status s allowed k h = h
  serve-Inv authorization (post_setup password) s allowed k h =
      replied (λ _. _) (auth_setup w password s) k
  serve-Inv authorization (post_unlock password) s allowed k h =
      replied (λ _. _) (auth_unlock w password s) (unlock-Inv password s h)
  serve-Inv authorization get_health s allowed k h = is_authorized-Inv authorization s h
  serve-Inv authorization (post_change_password old_password new_password) s allowed k h =
      protected-Inv authorization (post_change_password old_password new_password) s refl allowed h
  serve-Inv authorization post_lock s allowed k h =
      protected-Inv authorization post_lock s refl allowed h
  serve-Inv authorization (post_entry req) s allowed k h =
      protected-Inv authorization (post_entry req) s refl allowed h
  serve-Inv authorization (get_entries params) s allowed k h =
      protected-Inv authorization (get_entries params) s refl allowed h
  serve-Inv authorization (get_one id) s allowed k h =
      protected-Inv authorization (get_one id) s refl allowed h
  serve-Inv authorization (patch_one id starred) s allowed k h =
      protected-Inv authorization (patch_one id starred) s refl allowed h
  serve-Inv authorization (delete_one id) s allowed k h =
      protected-Inv authorization (delete_one id) s refl allowed h
  serve-Inv authorization (get_bytes id) s allowed k h =
      protected-Inv authorization (get_bytes id) s refl allowed h
