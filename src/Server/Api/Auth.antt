-- ===== src/Server/Api/Auth.antt =====
-- The handlers under /api/auth of server/src/api.rs, and /api/health.
use copywraith.Common.{ℕ, Bool, true, false, not, ◌&&◌, Option, none, some, ltb, if◌then◌else◌}
use copywraith.Common.Text.{Text, Bytes, byte_len}
use copywraith.Common.Outcome.{Outcome, ok, err}
use copywraith.Server.Crypto.Vault.{
  VaultError, CryptoState, is_initialized, is_unlocked, get_dek, lock, setup_password,
  verify_and_unlock, change_password,
}
use copywraith.Server.Records.{Store}
use copywraith.Server.Store.{Result, count_entries}
use copywraith.Server.Store.Migrate.{encrypt_all_entries, encrypt_all_blobs}
use copywraith.Server.Api.{
  World, AppState, Answer, unauthorized, bad_request, internal, internally, authorized,
  is_authorized, bearer_password_problem,
}

pub record AuthStatus : Type 0 where
  pub initialized : Bool
  pub unlocked : Bool

unfoldable pub auth_status : AppState → AuthStatus
unfolding is_initialized is_unlocked
auth_status s = record { initialized = is_initialized s.crypto; unlocked = is_unlocked s.crypto }

unfoldable pub after_rows : World → Bytes → Result (Unit {0}) × Store → Result (Unit {0}) × Store
unfolding encrypt_all_blobs
after_rows w dek (err e, s) = (err e, s)
after_rows w dek (ok done, s) = encrypt_all_blobs w.primitives w.disk w.file_nonces dek s

unfoldable pub migrate_existing_data : World → Bytes → Store → Result (Unit {0}) × Store
unfolding after_rows encrypt_all_entries
migrate_existing_data w dek s =
    after_rows w dek (encrypt_all_entries w.primitives w.row_nonces dek s)

unfoldable pub acceptable : Text → Bool
unfolding byte_len bearer_password_problem
acceptable password = not (ltb (byte_len password) 8) && not (bearer_password_problem password)

unfoldable pub migrated : CryptoState → Result (Unit {0}) × Store → Answer (Unit {0}) × AppState
migrated c (outcome, storage) = (internally outcome, record { crypto = c; storage = storage })

-- `get_dek` after the set-up, and the migration under that key.
unfoldable pub migrate_under :
    World → Store → CryptoState → Option Bytes → Answer (Unit {0}) × AppState
unfolding migrated migrate_existing_data
migrate_under w storage c none = (err internal, record { crypto = c; storage = storage })
migrate_under w storage c (some dek) = migrated c (migrate_existing_data w dek storage)

unfoldable pub after_setup :
    World → Store → Outcome VaultError (Unit {0}) × CryptoState → Answer (Unit {0}) × AppState
unfolding get_dek migrate_under
after_setup w storage (err e, c) = (err internal, record { crypto = c; storage = storage })
after_setup w storage (ok done, c) = migrate_under w storage c (get_dek c)

unfoldable pub auth_setup : World → Text → AppState → Answer (Unit {0}) × AppState
unfolding acceptable is_initialized setup_password after_setup
auth_setup w password s =
    if not (acceptable password)
    then (err bad_request, s)
    else if is_initialized s.crypto
    then (err bad_request, s)
    else after_setup w s.storage
        (setup_password w.primitives w.auth_write_ok w.salt w.nonce w.fresh_dek password s.crypto)

unlocked_answer : Outcome VaultError Bool → Answer (Unit {0})
unlocked_answer (err e) = err internal
unlocked_answer (ok false) = err unauthorized
unlocked_answer (ok true) = ok tt

unfoldable pub auth_unlock : World → Text → AppState → Answer (Unit {0}) × AppState
unfolding is_initialized verify_and_unlock unlocked_answer
auth_unlock w password s =
    if not (is_initialized s.crypto)
    then (err bad_request, s)
    else (let (outcome, c) = verify_and_unlock w.primitives password s.crypto in
        (unlocked_answer outcome, record s { crypto = c }))

unfoldable pub change_answered : World → Text → Text → AppState → Answer (Unit {0}) × AppState
unfolding acceptable change_password
change_answered w old_password new_password s =
    if not (acceptable new_password)
    then (err bad_request, s)
    else (let (outcome, c) =
          change_password w.primitives w.auth_write_ok w.salt w.nonce old_password new_password
            s.crypto in
        (internally outcome, record s { crypto = c }))

unfoldable pub auth_change_password :
    World → Option Text → Text → Text → AppState → Answer (Unit {0}) × AppState
unfolding authorized change_answered
auth_change_password w authorization old_password new_password =
    authorized w authorization (change_answered w old_password new_password)

unfoldable pub locked : AppState → Answer (Unit {0}) × AppState
unfolding lock
locked s = (ok tt, record s { crypto = lock s.crypto })

unfoldable pub auth_lock : World → Option Text → AppState → Answer (Unit {0}) × AppState
unfolding authorized locked
auth_lock w authorization = authorized w authorization locked

-- The number of entries is told to an authorised caller.
unfoldable pub health : World → Option Text → AppState → Option ℕ × AppState
unfolding is_authorized count_entries
health w authorization s =
    let (allowed, c) = is_authorized w.primitives authorization s.crypto in
    (if allowed then some (count_entries s.storage) else none, record s { crypto = c })
