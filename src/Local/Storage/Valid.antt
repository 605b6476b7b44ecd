-- ===== src/Local/Storage/Valid.antt =====
-- Every operation on existing rows keeps a store valid, and a deletion removes a blob file exactly
-- when the last row that refers to it goes.
use copywraith.Common.{
  ◌||◌, sym, if◌then◌else◌, ◌≡◌, List, ℕ, refl, inl, inr, Bool, true, false, not, ◌&&◌, Option,
  none, some, arith, any, find, Bool-cases, Option-cases,
}
use copywraith.Local.Table.Laws.{
  remove_file-gone, blob_at-remove_file, IsValid, update-IsValid, files-remove_file,
}
use copywraith.Common.Table.Laws.{All-delete_where, Unique-delete_where}
use copywraith.Local.Table.{
  blob_at, Row, Store, Stamp, at, unparsable, has_id, has_hash, references,
}
use copywraith.Common.Table.{delete_where}
use copywraith.Common.Text.{Text, same, same_iff}
use copywraith.Local.Storage.{
  set_starred, toggle_star, apply_remote_star, delete_entry, drop_blob, mark_synced_if_unchanged,
  ack_row,
}

-- Setting a star keeps the store valid.
pub set_starred-IsValid :
    (id : Text) (starred : Bool) (s : Store) → IsValid s → IsValid (set_starred id starred s)
unfolding set_starred
set_starred-IsValid id starred s =
    update-IsValid (has_id id) (λ r. record r { starred = starred }) s (λ r. refl) (λ r. refl)
      (λ r. refl)

-- Toggling a star keeps the store valid, also for an unknown identifier.
pub toggle_star-IsValid :
    (now : ℕ) (id : Text) (s : Store) → IsValid s → IsValid (toggle_star now id s).1
unfolding toggle_star
toggle_star-IsValid now id s v = elim (Option-cases (find (has_id id) s.rows)) [
  | inl e ↦ rw (e, toggle_star) v
  | inr (r, e) ↦
      rw (e, toggle_star)
        (update-IsValid (has_id id)
          (λ q. record q { starred = not r.starred; synced = false; updated_at = at now }) s
          (λ q. refl) (λ q. refl) (λ q. refl) v)
]

-- Taking over the server's star keeps the store valid, on every branch.
pub apply_remote_star-IsValid :
    (now : ℕ) (hash : Text) (starred : Bool) (s : Store)
    → IsValid s
    → IsValid (apply_remote_star now hash starred s).1
unfolding apply_remote_star
apply_remote_star-IsValid now hash starred s v =
    let u =
      update-IsValid (λ r. has_hash hash r && r.synced)
        (λ r. record r { starred = starred; updated_at = at now }) s (λ r. refl) (λ r. refl)
        (λ r. refl) v in
    ground (arith, u)

ack_row-IsValid :
    (pushed : ℕ) (id : Text) (stamp : Stamp) (s : Store)
    → IsValid s
    → IsValid (ack_row pushed id stamp s).1
unfolding ack_row
ack_row-IsValid pushed id (unparsable t) s v = v
ack_row-IsValid pushed id (at t) s v =
    let u =
      update-IsValid (has_id id) (λ r. record r { synced = true }) s (λ r. refl) (λ r. refl)
        (λ r. refl) v in
    ground (arith, u)

-- An acknowledgement keeps the store valid, on every branch.
pub mark_synced_if_unchanged-IsValid :
    (id : Text) (pushed : ℕ) (s : Store)
    → IsValid s
    → IsValid (mark_synced_if_unchanged id pushed s).1
unfolding mark_synced_if_unchanged
mark_synced_if_unchanged-IsValid id pushed s v = elim (Option-cases (find (has_id id) s.rows)) [
  | inl e ↦ rw (e, mark_synced_if_unchanged) v
  | inr (r, e) ↦ rw (e, mark_synced_if_unchanged) (ack_row-IsValid pushed id r.updated_at s v)
]

rows-drop_blob :
    (removes : Bool) (hash : Option Text) (s : Store) → (drop_blob removes hash s).rows ≡ s.rows
unfolding drop_blob
rows-drop_blob removes none s = refl
rows-drop_blob removes (some hash) s = ground arith

pub rows-delete_entry :
    (removes : Bool) (id : Text) (s : Store)
    → (delete_entry removes id s).1.rows ≡ delete_where (has_id id) s.rows
unfolding delete_entry
rows-delete_entry removes id s = elim (Option-cases (find (has_id id) s.rows)) [
  | inl e ↦ rw (e, delete_entry)
  | inr (r, e) ↦ rw (e, delete_entry) (rows-drop_blob removes r.blob_hash _)
]

unused : (used kept : Bool) → used || not kept ≡ false → used ≡ false
unused used kept h = ground arith

drop_blob-IsValid :
    (removes : Bool) (hash : Option Text) (s : Store)
    → IsValid s
    → IsValid (drop_blob removes hash s)
unfolding drop_blob
drop_blob-IsValid removes none s v = v
drop_blob-IsValid removes (some hash) s v =
    elim (Bool-cases (any (references hash) s.rows || not removes)) [
      | inl e ↦ rw e v
      | inr e ↦ rw e (record {
        ids = v.ids;
        hashes = v.hashes;
        files = files-remove_file hash s.blobs s.rows (unused _ _ e) v.files;
      })
    ]

-- Deleting an entry keeps the store valid, whether or not its file goes with it, and whether or not
-- that can be removed.
pub delete_entry-IsValid :
    (removes : Bool) (id : Text) (s : Store) → IsValid s → IsValid (delete_entry removes id s).1
unfolding delete_entry
delete_entry-IsValid removes id s v =
    let left = record s { rows = delete_where (has_id id) s.rows } in
    let w : IsValid left = record {
      ids = Unique-delete_where (has_id id) (λ r. r.id) s.rows v.ids;
      hashes = Unique-delete_where (has_id id) (λ r. r.content_hash) s.rows v.hashes;
      files = All-delete_where (has_id id) _ s.rows v.files;
    } in
    elim (Option-cases (find (has_id id) s.rows)) [
      | inl e ↦ rw (e, delete_entry) w
      | inr (r, e) ↦ rw (e, delete_entry) (drop_blob-IsValid removes r.blob_hash left w)
    ]

-- The rows that are left when the rows with an identifier go.
abbrev pub without_id : Text → Store → List Row
without_id id s = delete_where (has_id id) s.rows

blob_at-drop_blob :
    (removes : Bool) (hash name : Text) (s : Store)
    → blob_at name (drop_blob removes (some hash) s).blobs ≡ (
        if removes && (same hash name && not (any (references hash) s.rows))
        then none
        else blob_at name s.blobs)
unfolding drop_blob
blob_at-drop_blob false hash name s = ground arith
blob_at-drop_blob true hash name s = elim (Bool-cases (any (references hash) s.rows)) [
  | inl y ↦ rw y (ground arith)
  | inr n ↦ elim (Bool-cases (same hash name)) [
    | inl e ↦ rw (n, e) (rw (sym ((same_iff hash name).0 e)) (remove_file-gone hash s.blobs))
    | inr d ↦ rw (n, d) (blob_at-remove_file hash name s.blobs d)
  ]
]

-- Deleting a row that has a blob: its file is gone afterwards if no row that is left refers to it and
-- the file can be removed; every other file reads as before, as does this one otherwise; and the rows
-- with another identifier stay.
pub delete_entry-blob :
    (removes : Bool) (id hash name : Text) (s : Store) (r : Row)
    → find (has_id id) s.rows ≡ some r
    → r.blob_hash ≡ some hash
    → ((delete_entry removes id s).0 ≡ true)
      × ((delete_entry removes id s).1.rows ≡ without_id id s)
      × (blob_at name (delete_entry removes id s).1.blobs ≡ (
          if removes && (same hash name && not (any (references hash) (without_id id s)))
          then none
          else blob_at name s.blobs))
unfolding delete_entry
delete_entry-blob removes id hash name s r e b = (
  rw (e, delete_entry) refl,
  rows-delete_entry removes id s,
  rw (e, delete_entry, b)
      (blob_at-drop_blob removes hash name (record s { rows = without_id id s })),
)
