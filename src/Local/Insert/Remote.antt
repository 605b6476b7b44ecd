-- ===== src/Local/Insert/Remote.antt =====
-- Pulling the same entry again.
use copywraith.Local.Table.{Write, Row, Store, Result, has_id, has_hash, insert_row}
use copywraith.Common.{
  subst, ℕ, ◌≡◌, refl, ap, Bool, true, false, ◌||◌, Option, List, [], ◌∷◌, ◌++◌, arith, inl, inr,
  Bool-cases, any,
}
use copywraith.Common.Text.{Text, Bytes, same_refl}
use copywraith.Common.Outcome.{ok, err}
use copywraith.Model.Flavors.{ContentType, Flavors}
use copywraith.Local.Insert.Valid.{added-state}
use copywraith.Local.Insert.{Identity, write_blob, store_row, insert_remote_entry, added}

any-append : (p : Row → Bool) (xs ys : List Row) → any p (xs ++ ys) ≡ (any p xs || any p ys)
any-append p [] ys = refl
any-append p (x ∷ xs) ys = ground (arith, any-append p xs ys)

module _ (sha256 : Bytes → Bytes) (contains_sensitive_data : Text → Bool) where
  -- A row that was stored is found by its keys.
  stored-known :
      (id content_hash : Text) (w : Result (Option Text × Option ℕ) × Store)
      (row : Option Text × Option ℕ → Row)
      → ((b : Option Text × Option ℕ) → (row b).content_hash ≡ content_hash)
      → (added (store_row sha256 contains_sensitive_data w row)).0 ≡ ok true
      → any
          (λ r. has_hash content_hash r || has_id id r)
          (store_row sha256 contains_sensitive_data w row).1.rows
        ≡ true
  unfolding store_row insert_row
  stored-known id content_hash (err e, t) row keys = λ h. cc
  stored-known id content_hash (ok b, t) row keys =
      elim (Bool-cases
        (any (has_id (row b).id) t.rows || any (has_hash (row b).content_hash) t.rows)) [
          | inl taken ↦ rw (taken, store_row) (λ h. cc)
          | inr free ↦
              rw (free, store_row)
                (λ h.
                  rw
                    (
                      any-append (λ r. has_hash content_hash r || has_id id r) t.rows (row b ∷ []),
                      keys b,
                      same_refl content_hash,
                    )
                    (ground arith))
        ]

  module _ (remote : Identity) (content_type : ContentType) (flavors : Flavors)
      (blob : Option Bytes) (content_hash : Text) (source_app : Option Text) (starred : Bool) where
    abbrev pull : Write → Store → Result Bool × Store
    pull write s =
        insert_remote_entry sha256 contains_sensitive_data remote write content_type flavors blob
          content_hash source_app starred s

    abbrev known : Store → Bool
    known s = any (λ r. has_hash content_hash r || has_id remote.id r) s.rows

    pull_again : (write : Write) (s : Store) → known s ≡ true → pull write s ≡ (ok false, s)
    unfolding insert_remote_entry
    pull_again write s h = rw (h, pull, insert_remote_entry) refl

    pull-known :
        (write : Write) (s : Store) → (pull write s).0 ≡ ok true → known (pull write s).1 ≡ true
    unfolding insert_remote_entry
    pull-known write s = elim (Bool-cases (known s)) [
      | inl y ↦ rw (y, pull, insert_remote_entry) (λ h. cc)
      | inr n ↦
          rw (n, pull, insert_remote_entry)
            (λ h. rw (added-state sha256 contains_sensitive_data _) (
              stored-known remote.id content_hash
                (write_blob sha256 contains_sensitive_data write blob s) _ (λ b. refl) h))
    ]

  -- An entry that was stored is not stored again: pulling it a second time, whether or not its blob
  -- could be written then, reports no change and leaves the store as it is.
  pub insert_remote_entry-again :
      (remote : Identity) (write again : Write) (content_type : ContentType) (flavors : Flavors)
      (blob : Option Bytes) (content_hash : Text) (source_app : Option Text) (starred : Bool)
      (s t : Store)
      → insert_remote_entry sha256 contains_sensitive_data remote write content_type flavors blob
          content_hash source_app starred s
        ≡ (ok true, t)
      → insert_remote_entry sha256 contains_sensitive_data remote again content_type flavors blob
          content_hash source_app starred t
        ≡ (ok false, t)
  insert_remote_entry-again remote write again content_type flavors blob content_hash source_app
        starred s t h =
      pull_again remote content_type flavors blob content_hash source_app starred again t (
        subst (λ u. known remote content_type flavors blob content_hash source_app starred u ≡ true)
          (ap (λ r. r.1) h)
          (pull-known remote content_type flavors blob content_hash source_app starred write s
            (ap (λ r. r.0) h)))
