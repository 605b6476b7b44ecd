-- ===== src/Local/Protocol.antt =====
-- A push and its acknowledgement (`push_entry` of src-tauri/src/sync.rs with
-- `mark_synced_if_unchanged` of src-tauri/src/storage.rs), with whatever else the client does to the
-- store while the request is under way.
use copywraith.Local.Table.{Write, unparsable, at, has_id, Stamp, Row, Store}
use copywraith.Common.{
  [], ◌∷◌, inr, inl, ap, Bool-cases, ◌⊎◌, arith, false, Option, true, All, some, find, ◌≡◌, ◌≢◌, ℕ,
  Bool, List,
}
use copywraith.Local.Insert.{insert_remote_entry, Identity, insert_entry}
use copywraith.Common.Text.{same, same_iff, Text, Bytes}
use copywraith.Local.Agree.{
  insert_remote_entry-AllAgree, Agrees, insert_entry-AllAgree, mark_synced-AllAgree,
  delete_entry-AllAgree, apply_remote_star-AllAgree, toggle_star-AllAgree, AllAgree,
}
use copywraith.Local.Table.Laws.{find-some, IsValid}
use copywraith.Common.Table.Laws.{Unique}
use copywraith.Model.Flavors.{Flavors, ContentType}
use copywraith.Common.Outcome.{ok}
use copywraith.Local.Storage.{
  delete_entry, mark_synced_if_unchanged, apply_remote_star, toggle_star, ack_row,
}

module _ (sha256 : Bytes → Bytes) (contains_sensitive_data : Text → Bool) (id : Text)
    (pushed : ℕ) where
  -- One operation of another task, none of which reads the pushed instant from the clock, and none
  -- of which inserts the pushed identifier with that instant.
  pub data Other (s : Store) (u : Store) : Type 0 where
    toggles : (now : ℕ) (other : Text) → now ≢ pushed → u ≡ (toggle_star now other s).1 → Other s u
    reconciles :
        (now : ℕ) (hash : Text) (starred : Bool)
        → now ≢ pushed
        → u ≡ (apply_remote_star now hash starred s).1
        → Other s u
    deletes : (removes : Bool) (other : Text) → u ≡ (delete_entry removes other s).1 → Other s u
    acknowledges :
        (other : Text) (time : ℕ) → u ≡ (mark_synced_if_unchanged other time s).1 → Other s u
    captures :
        (now : ℕ) (fresh_id : Text) (write : Write) (content_type : ContentType) (flavors : Flavors)
        (blob : Option Bytes) (content_hash : Text) (source_app : Option Text)
        → now ≢ pushed
        → u
          ≡ (insert_entry sha256 contains_sensitive_data now fresh_id write content_type flavors
              blob content_hash source_app s).1
        → Other s u
    pulls :
        (remote : Identity) (write : Write) (content_type : ContentType) (flavors : Flavors)
        (blob : Option Bytes) (content_hash : Text) (source_app : Option Text) (starred : Bool)
        → (remote.id ≢ id) ⊎ (remote.updated_at ≢ pushed)
        → u
          ≡ (insert_remote_entry sha256 contains_sensitive_data remote write content_type flavors
              blob content_hash source_app starred s).1
        → Other s u

  -- Any number of them.
  pub data Others (s : Store) : Store → Type 0 where
    none_yet : Others s s
    then_one : {t u : Store} → Others s t → Other t u → Others s u

  Other-AllAgree :
      (starred : Bool) (s u : Store)
      → Other s u
      → AllAgree id pushed starred s
      → AllAgree id pushed starred u
  Other-AllAgree starred s u (toggles now other ne e) h =
      rw e (toggle_star-AllAgree id pushed starred now other s ne h)
  Other-AllAgree starred s u (reconciles now hash star ne e) h =
      rw e (apply_remote_star-AllAgree id pushed starred now hash star s ne h)
  Other-AllAgree starred s u (deletes removes other e) h =
      rw e (delete_entry-AllAgree id pushed starred removes other s h)
  Other-AllAgree starred s u (acknowledges other time e) h =
      rw e (mark_synced-AllAgree id pushed starred other time s h)
  Other-AllAgree starred s u (captures now fresh ok_write ct f b ch app ne e) h = rw e (
      insert_entry-AllAgree id pushed starred sha256 contains_sensitive_data now fresh ok_write ct f
        b ch app s ne h)
  Other-AllAgree starred s u (pulls remote ok_write ct f b ch app star ne e) h = rw e (
      insert_remote_entry-AllAgree id pushed starred sha256 contains_sensitive_data remote ok_write
        ct f b ch app star s ne h)

  Others-AllAgree :
      (starred : Bool) (s : Store) {u : Store}
      → Others s u
      → AllAgree id pushed starred s
      → AllAgree id pushed starred u
  Others-AllAgree starred s none_yet h = h
  Others-AllAgree starred s (then_one {t} {u} r o) h =
      Other-AllAgree starred t u o (Others-AllAgree starred s r h)

  -- In a store with unique identifiers only the pushed row has the pushed identifier.
  AllAgree-at_push :
      (rs : List Row) (r : Row)
      → Unique (λ q. q.id) rs
      → find (has_id id) rs ≡ some r
      → All (Agrees id pushed r.starred) rs
  AllAgree-at_push [] r u e = tt
  AllAgree-at_push (q ∷ qs) r u e = elim (Bool-cases (has_id id q)) [
    | inl t ↦
        let same_row : q ≡ r = ground arith in
        (λ i k. ap (λ x. x.starred) same_row, others qs ((same_iff q.id id).0 t) u.0)
    | inr f ↦
        (λ i k. absurd (ground (arith, same_iff q.id id)), AllAgree-at_push qs r u.1 (rw f at e))
  ]
    where
      others :
          (ps : List Row)
          → q.id ≡ id
          → All (λ p. same p.id q.id ≡ false) ps
          → All (Agrees id pushed r.starred) ps
      others [] i h = tt
      others (p ∷ ps) i h =
          (λ j k. absurd (ground (arith, same_iff p.id q.id, h.0)), others ps i h.1)

  acked_stamp :
      (stamp : Stamp) (u : Store) → (ack_row pushed id stamp u).0 ≡ ok true → stamp ≡ at pushed
  unfolding ack_row
  acked_stamp (unparsable t) u e = cc
  acked_stamp (at t) u e = ground arith

  -- No change of a star is lost: if the acknowledgement of a push marks the row synced, the row has
  -- the star that was pushed, whatever toggles, captures, deletions, pulls and other
  -- acknowledgements came in between, as long as the clock did not return the pushed instant again
  -- and no pull brought the pushed identifier back with it.
  pub acknowledged_star :
      (s u : Store) (before after : Row)
      → IsValid s
      → find (has_id id) s.rows ≡ some before
      → Others s u
      → find (has_id id) u.rows ≡ some after
      → (mark_synced_if_unchanged id pushed u).0 ≡ ok true
      → after.starred ≡ before.starred
  unfolding mark_synced_if_unchanged
  acknowledged_star s u before after v e r f acked =
      let agrees = Others-AllAgree before.starred s r (AllAgree-at_push s.rows before v.ids e) in
      let (agree, same_id) =
        find-some (Agrees id pushed before.starred) (has_id id) u.rows after f agrees in
      agree ((same_iff after.id id).0 same_id)
        (acked_stamp after.updated_at u (rw (f, mark_synced_if_unchanged) at acked))
