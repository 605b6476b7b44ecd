-- ===== src/Server/Crypto/Vault/Consistent.antt =====
-- That every operation keeps the vault's state consistent.
use copywraith.Common.{
  ◌≡◌, refl, ap, ◌∙◌, Bool, true, false, not, ◌&&◌, arith, Option, none, some, inl, inr,
  Option-cases, Bool-cases, is_some,
}
use copywraith.Common.Text.{Text, Bytes}
use copywraith.Common.Outcome.{Outcome, ok, err}
use copywraith.Server.Crypto.Primitives.{Primitives}
use copywraith.Server.Crypto.Vault.{
  VaultError, AuthConfig, AuthFile, missing, holds, corrupt, CryptoState, lock, wrap_dek,
  setup_password, conclude, cache_matches, verify_slow, verify_and_unlock, change_password,
  save_wrapped, rewrap, after_verify, is_unlocked, not_configured,
}

-- The file holds the configuration in memory; the key and the digest of the password come and go
-- together, and only with a configuration.
abbrev pub FileAgrees : AuthFile → Option AuthConfig → Type 0
FileAgrees missing c = c ≡ none
FileAgrees (holds d) c = c ≡ some d
FileAgrees corrupt c = ⊥

pub record Consistent (s : CryptoState) : Type 0 where
  pub file : FileAgrees s.auth_file s.auth_config
  pub caches : is_some s.dek ≡ is_some s.password_hash_cache
  pub configured : (not (is_some s.auth_config) && is_some s.dek) ≡ false

module _ (p : Primitives) where
  lock-Consistent : (s : CryptoState) → Consistent s → Consistent (lock s)
  unfolding lock
  lock-Consistent s c = record { file = c.file; caches = refl; configured = ground arith }

  conclude-Consistent :
      (password : Text) (found : Outcome VaultError (Option Bytes)) (s : CryptoState)
      (config : AuthConfig)
      → s.auth_config ≡ some config
      → Consistent s
      → Consistent (conclude p password found s).1
  unfolding conclude
  conclude-Consistent password (err e) s config h c = c
  conclude-Consistent password (ok none) s config h c = c
  conclude-Consistent password (ok (some dek)) s config h c = record {
    file = c.file;
    caches = refl;
    configured = rw h refl;
  }

  verify_and_unlock-Consistent :
      (password : Text) (s : CryptoState)
      → Consistent s
      → Consistent (verify_and_unlock p password s).1
  unfolding verify_and_unlock
  verify_and_unlock-Consistent password s c = elim (Option-cases s.auth_config) [
    | inl n ↦ rw (n, verify_and_unlock) c
    | inr (config, e) ↦ elim (Bool-cases (cache_matches p password s.password_hash_cache)) [
      | inl y ↦ rw (e, y, verify_and_unlock) c
      | inr m ↦
          rw (e, m, verify_and_unlock)
            (conclude-Consistent password (verify_slow p password config) s config e c)
    ]
  ]

  save_wrapped-Consistent :
      (write_ok : Bool) (wrapped : Outcome VaultError AuthConfig) (dek : Bytes) (password : Text)
      (s : CryptoState)
      → Consistent s
      → Consistent (save_wrapped p write_ok wrapped dek password s).1
  unfolding save_wrapped
  save_wrapped-Consistent write_ok (err e) dek password s c = c
  save_wrapped-Consistent true (ok config) dek password s c = record {
    file = refl;
    caches = refl;
    configured = refl;
  }
  save_wrapped-Consistent false (ok config) dek password s c = c

  -- What follows the verification in a change, by what the old password unwrapped.
  changed_Consistent :
      (write_ok : Bool) (salt nonce : Bytes) (old new : Text)
      (found : Outcome VaultError (Option Bytes)) (s : CryptoState) (config : AuthConfig)
      → s.auth_config ≡ some config
      → Consistent s
      → Consistent (after_verify p write_ok salt nonce new s (conclude p old found (lock s))).1
  unfolding after_verify conclude rewrap lock
  changed_Consistent write_ok salt nonce old new (err e) s config h c = record {
    file = c.file;
    caches = refl;
    configured = ground arith;
  }
  changed_Consistent write_ok salt nonce old new (ok none) s config h c = c
  changed_Consistent write_ok salt nonce old new (ok (some dek)) s config h c =
      save_wrapped-Consistent write_ok (wrap_dek p new salt nonce dek) dek new _
        (record { file = c.file; caches = refl; configured = rw h refl })

  pub change_password-steps :
      (write_ok : Bool) (salt nonce : Bytes) (old new : Text) (s : CryptoState)
      (config : AuthConfig)
      → s.auth_config ≡ some config
      → change_password p write_ok salt nonce old new s
        ≡ after_verify p write_ok salt nonce new s
            (conclude p old (verify_slow p old config) (lock s))
  unfolding change_password verify_and_unlock lock
  change_password-steps write_ok salt nonce old new s config h =
      ap
        (λ (c : Option AuthConfig).
          after_verify p write_ok salt nonce new s
            (elim c as (λ _. Outcome VaultError Bool × CryptoState) [
              | none ↦ (err not_configured, lock s)
              | some d ↦ conclude p old (verify_slow p old d) (lock s)
            ]))
        h

  -- By the fields of the state, so that the configuration can be split.
  abbrev state : AuthFile → Option AuthConfig → Option Bytes → Option Bytes → CryptoState
  state file config dek cache = record {
    auth_file = file;
    auth_config = config;
    dek = dek;
    password_hash_cache = cache;
  }

  setup_password-Consistent :
      (write_ok : Bool) (salt nonce new_dek : Bytes) (new : Text) (file : AuthFile)
      (config : Option AuthConfig) (dek cache : Option Bytes)
      → Consistent (state file config dek cache)
      → Consistent
          (setup_password p write_ok salt nonce new_dek new (state file config dek cache)).1
  unfolding setup_password
  setup_password-Consistent write_ok salt nonce new_dek new file none dek cache c =
      save_wrapped-Consistent write_ok (wrap_dek p new salt nonce new_dek) new_dek new _ c
  setup_password-Consistent write_ok salt nonce new_dek new file (some d) dek cache c = c

  change_password-Consistent :
      (write_ok : Bool) (salt nonce : Bytes) (old new : Text) (file : AuthFile)
      (config : Option AuthConfig) (dek cache : Option Bytes)
      → Consistent (state file config dek cache)
      → Consistent (change_password p write_ok salt nonce old new (state file config dek cache)).1
  unfolding change_password verify_and_unlock after_verify
  change_password-Consistent write_ok salt nonce old new file none dek cache c = lock-Consistent _ c
  change_password-Consistent write_ok salt nonce old new file (some d) dek cache c =
      rw (change_password-steps write_ok salt nonce old new (state file (some d) dek cache) d refl)
        (changed_Consistent write_ok salt nonce old new (verify_slow p old d) _ d refl c)

  -- Every operation keeps the state consistent, on every branch: errors of the derivation, of the
  -- file and of the format, a refused password, and success.
  pub operations-Consistent :
      (write_ok : Bool) (salt nonce dek : Bytes) (old new : Text) (s : CryptoState)
      → Consistent s
      → Consistent (lock s)
        × Consistent (setup_password p write_ok salt nonce dek new s).1
        × Consistent (verify_and_unlock p old s).1
        × Consistent (change_password p write_ok salt nonce old new s).1
  operations-Consistent write_ok salt nonce dek old new s c = (
    lock-Consistent s c,
    setup_password-Consistent write_ok salt nonce dek new s.auth_file s.auth_config s.dek
        s.password_hash_cache c,
    verify_and_unlock-Consistent old s c,
    change_password-Consistent write_ok salt nonce old new s.auth_file s.auth_config s.dek
        s.password_hash_cache c,
  )

  conclude-unlocks :
      (password : Text) (found : Outcome VaultError (Option Bytes)) (s : CryptoState)
      → (conclude p password found s).0 ≡ ok true
      → is_some (conclude p password found s).1.dek ≡ true
  unfolding conclude
  conclude-unlocks password (err e) s h = cc
  conclude-unlocks password (ok none) s h = cc
  conclude-unlocks password (ok (some dek)) s h = refl

  matched-some :
      (password : Text) (cache : Option Bytes)
      → cache_matches p password cache ≡ true
      → is_some cache ≡ true
  unfolding cache_matches
  matched-some password none h = h
  matched-some password (some d) h = refl

  unlocks_by_fields :
      (password : Text) (file : AuthFile) (config : Option AuthConfig) (dek cache : Option Bytes)
      → is_some dek ≡ is_some cache
      → (verify_and_unlock p password (state file config dek cache)).0 ≡ ok true
      → is_some (verify_and_unlock p password (state file config dek cache)).1.dek ≡ true
  unfolding verify_and_unlock
  unlocks_by_fields password file none dek cache c = λ h. cc
  unlocks_by_fields password file (some d) dek cache c =
      elim (Bool-cases (cache_matches p password cache)) [
        | inl y ↦ rw y (λ h. c ∙ matched-some password cache y)
        | inr n ↦ rw n (conclude-unlocks password (verify_slow p password d) _)
      ]

  -- An accepted password leaves a consistent vault unlocked, also where only its digest was
  -- compared.
  pub verify_and_unlock-unlocks :
      (password : Text) (s : CryptoState)
      → Consistent s
      → (verify_and_unlock p password s).0 ≡ ok true
      → is_unlocked (verify_and_unlock p password s).1 ≡ true
  unfolding is_unlocked
  verify_and_unlock-unlocks password s c h =
      unlocks_by_fields password s.auth_file s.auth_config s.dek s.password_hash_cache c.caches h
