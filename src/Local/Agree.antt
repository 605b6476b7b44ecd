-- ===== src/Local/Agree.antt =====
-- What every operation of the client's store keeps of a row whose push is under way: while it has
-- the pushed timestamp, it has the pushed star.
use copywraith.Local.Table.{Write, Row, Store, Stamp, at, unparsable, has_id, has_hash}
use copywraith.Local.Insert.Valid.{rows-write_blob, All-store_row, added-state, created-state}
use copywraith.Local.Insert.{write_blob, new_row, Identity, insert_entry, insert_remote_entry}
use copywraith.Common.{
  sym, ◌∙◌, ℕ, ◌≡◌, ◌≢◌, refl, ◌⊎◌, inl, inr, Bool, true, ◌&&◌, ◌||◌, Option, List, arith, All, any,
  find, Bool-cases, Option-cases,
}
use copywraith.Local.Storage.{
  ack_row, toggle_star, apply_remote_star, delete_entry, mark_synced_if_unchanged,
}
use copywraith.Local.Storage.Valid.{rows-delete_entry}
use copywraith.Common.Text.{Text, Bytes}
use copywraith.Model.Flavors.{ContentType, Flavors}
use copywraith.Common.Table.{update_where}
use copywraith.Common.Table.Laws.{All-update_where, All-delete_where}

-- What is known of the pushed row: as long as it has the pushed timestamp it has the pushed star.
abbrev pub Agrees : Text → ℕ → Bool → Row → Type 0
Agrees id pushed starred r = r.id ≡ id → r.updated_at ≡ at pushed → r.starred ≡ starred

module _ (id : Text) (pushed : ℕ) (starred : Bool) where
  -- A write that moves the timestamp elsewhere.
  Agrees-moved :
      (p : Row → Bool) (f : Row → Row) (now : ℕ) (rs : List Row)
      → now ≢ pushed
      → ((r : Row) → (f r).updated_at ≡ at now)
      → All (Agrees id pushed starred) rs
      → All (Agrees id pushed starred) (update_where p f rs)
  Agrees-moved p f now rs ne moved =
      All-update_where p f (λ r h i e. absurd (ne (ground (arith, moved r)))) rs

  -- A write to other columns.
  Agrees-kept :
      (p : Row → Bool) (f : Row → Row) (rs : List Row)
      → ((r : Row) → (f r).id ≡ r.id)
      → ((r : Row) → (f r).updated_at ≡ r.updated_at)
      → ((r : Row) → (f r).starred ≡ r.starred)
      → All (Agrees id pushed starred) rs
      → All (Agrees id pushed starred) (update_where p f rs)
  Agrees-kept p f rs ki ku ks =
      All-update_where p f (λ r h i e. ks r ∙ h (sym (ki r) ∙ i) (sym (ku r) ∙ e)) rs

  abbrev pub AllAgree : Store → Type 0
  AllAgree s = All (Agrees id pushed starred) s.rows

  pub toggle_star-AllAgree :
      (now : ℕ) (other : Text) (s : Store)
      → now ≢ pushed
      → AllAgree s
      → AllAgree (toggle_star now other s).1
  unfolding toggle_star
  toggle_star-AllAgree now other s ne h = elim (Option-cases (find (has_id other) s.rows)) [
    | inl e ↦ rw (e, toggle_star) h
    | inr (r, e) ↦ rw (e, toggle_star) (Agrees-moved (has_id other) _ now s.rows ne (λ q. refl) h)
  ]

  pub apply_remote_star-AllAgree :
      (now : ℕ) (hash : Text) (star : Bool) (s : Store)
      → now ≢ pushed
      → AllAgree s
      → AllAgree (apply_remote_star now hash star s).1
  unfolding apply_remote_star
  apply_remote_star-AllAgree now hash star s ne h =
      let moved =
        Agrees-moved (λ r. has_hash hash r && r.synced)
          (λ r. record r { starred = star; updated_at = at now }) now s.rows ne (λ q. refl) h in
      ground (arith, moved)

  pub delete_entry-AllAgree :
      (removes : Bool) (other : Text) (s : Store)
      → AllAgree s
      → AllAgree (delete_entry removes other s).1
  delete_entry-AllAgree removes other s h =
      rw (rows-delete_entry removes other s)
        (All-delete_where (has_id other) (Agrees id pushed starred) s.rows h)

  ack_row-AllAgree :
      (time : ℕ) (other : Text) (stamp : Stamp) (s : Store)
      → AllAgree s
      → AllAgree (ack_row time other stamp s).1
  unfolding ack_row
  ack_row-AllAgree time other (unparsable t) s h = h
  ack_row-AllAgree time other (at t) s h =
      let kept =
        Agrees-kept (has_id other) (λ r. record r { synced = true }) s.rows (λ r. refl) (λ r. refl)
          (λ r. refl) h in
      ground (arith, kept)

  pub mark_synced-AllAgree :
      (other : Text) (time : ℕ) (s : Store)
      → AllAgree s
      → AllAgree (mark_synced_if_unchanged other time s).1
  unfolding mark_synced_if_unchanged
  mark_synced-AllAgree other time s h = elim (Option-cases (find (has_id other) s.rows)) [
    | inl e ↦ rw (e, mark_synced_if_unchanged) h
    | inr (r, e) ↦ rw (e, mark_synced_if_unchanged) (ack_row-AllAgree time other r.updated_at s h)
  ]

  module _ (sha256 : Bytes → Bytes) (contains_sensitive_data : Text → Bool) where
    pub insert_entry-AllAgree :
        (now : ℕ) (fresh_id : Text) (write : Write) (content_type : ContentType) (flavors : Flavors)
        (blob : Option Bytes) (content_hash : Text) (source_app : Option Text) (s : Store)
        → now ≢ pushed
        → AllAgree s
        → AllAgree
            (insert_entry sha256 contains_sensitive_data now fresh_id write content_type flavors
              blob content_hash source_app s).1
    unfolding insert_entry new_row
    insert_entry-AllAgree now fresh_id write content_type flavors blob content_hash source_app s ne
          h =
        elim (Option-cases (find (has_hash content_hash) s.rows)) [
          | inl e ↦
              rw (e, insert_entry)
                (rw (created-state sha256 contains_sensitive_data _) (
                  All-store_row sha256 contains_sensitive_data (Agrees id pushed starred)
                    (write_blob sha256 contains_sensitive_data write blob s) _
                    (λ b i t. absurd (ne (ground arith)))
                    (rw (rows-write_blob sha256 contains_sensitive_data write blob s) h)))
          | inr (r, e) ↦
              rw (e, insert_entry) (Agrees-moved (has_id r.id) _ now s.rows ne (λ q. refl) h)
        ]

    pub insert_remote_entry-AllAgree :
        (remote : Identity) (write : Write) (content_type : ContentType) (flavors : Flavors)
        (blob : Option Bytes) (content_hash : Text) (source_app : Option Text) (star : Bool)
        (s : Store)
        → (remote.id ≢ id) ⊎ (remote.updated_at ≢ pushed)
        → AllAgree s
        → AllAgree
            (insert_remote_entry sha256 contains_sensitive_data remote write content_type flavors
              blob content_hash source_app star s).1
    unfolding insert_remote_entry new_row
    insert_remote_entry-AllAgree remote write content_type flavors blob content_hash source_app star
          s ne h =
        elim (Bool-cases (any (λ r. has_hash content_hash r || has_id remote.id r) s.rows)) [
          | inl e ↦ rw e h
          | inr e ↦ rw e (
              rw (added-state sha256 contains_sensitive_data _) (
                All-store_row sha256 contains_sensitive_data (Agrees id pushed starred)
                  (write_blob sha256 contains_sensitive_data write blob s) _
                  (λ b i t. absurd (ground (arith, ne)))
                  (rw (rows-write_blob sha256 contains_sensitive_data write blob s) h)))
        ]
