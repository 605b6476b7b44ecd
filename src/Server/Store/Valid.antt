-- ===== src/Server/Store/Valid.antt =====
-- Well-formed stores of the server, and that its operations keep them, on every branch.
use copywraith.Local.Table.{Write, written, not_opened, broken_off, blob_at, remove_file}
use copywraith.Common.{
  take, ℕ, ◌≡◌, refl, sym, subst, Bool, true, false, not, ◌||◌, Option, none, some, List, [], ◌∷◌,
  ◌++◌, arith, All, All-append, any, find, length, is_none, Bool-cases, Option-cases, inl, inr,
}
use copywraith.Common.Table.{update_where, delete_where}
use copywraith.Common.Table.Laws.{
  Unique, All-update_where, Unique-update_where, All-delete_where, Unique-delete_where,
  fresh_of_any, Unique-concat,
}
use copywraith.Common.Text.{Text, Bytes, same_refl}
use copywraith.Common.Outcome.{Outcome, ok, err}
use copywraith.Content.Hash.{hash_bytes, is_valid_hash}
use copywraith.Local.Table.Laws.{HasFile, HasFile-cons, HasFile-remove_file}
use copywraith.Model.Flavors.{ContentType, Flavors}
use copywraith.Model.Entry.{ClipboardEntry}
use copywraith.Server.Crypto.Primitives.{Primitives}
use copywraith.Server.Crypto.Cipher.{CipherError}
use copywraith.Server.Records.{Row, Store, Texts}
use copywraith.Server.Store.{
  Result, BlobColumns, has_id, has_hash, references, insert_row, save_blob, stored_blob,
  write_bytes, write_blob, new_entry, new_row, insert_new, after_blob, touch_entry, create_new,
  create_entry, update_entry_starred, drop_blob, delete_entry,
}

-- Unique identifiers and content hashes, and a file for each blob that a row refers to.
pub record IsValid (s : Store) : Type 0 where
  pub ids : Unique (λ r. r.id) s.rows
  pub hashes : Unique (λ r. r.content_hash) s.rows
  pub files : All (λ r. HasFile s.blobs r.blob_hash) s.rows

pub update-IsValid :
    (p : Row → Bool) (f : Row → Row) (s : Store)
    → ((r : Row) → (f r).id ≡ r.id)
    → ((r : Row) → (f r).content_hash ≡ r.content_hash)
    → ((r : Row) → (f r).blob_hash ≡ r.blob_hash)
    → IsValid s
    → IsValid (record s { rows = update_where p f s.rows })
update-IsValid p f s id hash blob v = record {
  ids = Unique-update_where p f (λ r. r.id) id s.rows v.ids;
  hashes = Unique-update_where p f (λ r. r.content_hash) hash s.rows v.hashes;
  files = All-update_where p f (λ r h. subst (HasFile s.blobs) (sym (blob r)) h) s.rows v.files;
}

pub update_entry_starred-IsValid :
    (now : ℕ) (id : Text) (starred : Bool) (s : Store)
    → IsValid s
    → IsValid (update_entry_starred now id starred s).1
unfolding update_entry_starred
update_entry_starred-IsValid now id starred s v =
    update-IsValid (has_id id) (λ r. record r { starred = starred; updated_at = now }) s (λ r. refl)
      (λ r. refl) (λ r. refl) v

files-remove_file :
    (hash : Text) (files : List (Text × Bytes)) (rs : List Row)
    → any (references hash) rs ≡ false
    → All (λ r. HasFile files r.blob_hash) rs
    → All (λ r. HasFile (remove_file hash files) r.blob_hash) rs
files-remove_file hash files [] e h = tt
files-remove_file hash files (r ∷ rs) e h = elim (Bool-cases (references hash r)) [
  | inl t ↦ absurd (ground arith)
  | inr u ↦ (
    HasFile-remove_file hash files r.blob_hash u h.0,
    files-remove_file hash files rs (rw u at e) h.1,
  )
]

unused : (used kept : Bool) → used || not kept ≡ false → used ≡ false
unused used kept h = ground arith

drop_blob-IsValid :
    (removes : Bool) (hash : Option Text) (s : Store)
    → IsValid s
    → IsValid (drop_blob removes hash s)
unfolding drop_blob
drop_blob-IsValid removes none s v = v
drop_blob-IsValid removes (some hash) s v =
    elim (Bool-cases (any (references hash) s.rows || not removes)) [
      | inl e ↦ rw e v
      | inr e ↦ rw e (record {
        ids = v.ids;
        hashes = v.hashes;
        files = files-remove_file hash s.blobs s.rows (unused _ _ e) v.files;
      })
    ]

pub delete_entry-IsValid :
    (removes : Bool) (id : Text) (s : Store) → IsValid s → IsValid (delete_entry removes id s).1
unfolding delete_entry
delete_entry-IsValid removes id s v =
    let left = record s { rows = delete_where (has_id id) s.rows } in
    let w : IsValid left = record {
      ids = Unique-delete_where (has_id id) (λ r. r.id) s.rows v.ids;
      hashes = Unique-delete_where (has_id id) (λ r. r.content_hash) s.rows v.hashes;
      files = All-delete_where (has_id id) _ s.rows v.files;
    } in
    elim (Option-cases (find (has_id id) s.rows)) [
      | inl e ↦ rw (e, delete_entry) w
      | inr (r, e) ↦ rw (e, delete_entry) (drop_blob-IsValid removes r.blob_hash left w)
    ]

files-cons :
    (name bytes : Bytes) (files : List (Text × Bytes)) (rs : List Row)
    → All (λ r. HasFile files r.blob_hash) rs
    → All (λ r. HasFile ((name, bytes) ∷ files) r.blob_hash) rs
files-cons name bytes files [] h = tt
files-cons name bytes files (r ∷ rs) h =
    (HasFile-cons name bytes files r.blob_hash h.0, files-cons name bytes files rs h.1)

blob_at-head :
    (hash : Text) (bytes : Bytes) (files : List (Text × Bytes))
    → blob_at hash ((hash, bytes) ∷ files) ≡ some bytes
unfolding blob_at
blob_at-head hash bytes files = rw (same_refl hash)

-- What writing a blob leaves: a valid store with the same rows that holds the file it names.
abbrev Written : Store → Result BlobColumns × Store → Type 0
Written s (ok (hash, size), t) = IsValid t × (t.rows ≡ s.rows) × HasFile t.blobs hash
Written s (err e, t) = IsValid t × (t.rows ≡ s.rows)

cons-IsValid :
    (hash : Text) (bytes : Bytes) (s : Store)
    → IsValid s
    → IsValid (record s { blobs = (hash, bytes) ∷ s.blobs })
cons-IsValid hash bytes s v = record {
  ids = v.ids;
  hashes = v.hashes;
  files = files-cons hash bytes s.blobs s.rows v.files;
}

save_blob-Written :
    (write : Write) (hash : Text) (size : ℕ) (o : Outcome CipherError Bytes) (s : Store)
    → IsValid s
    → Written s (save_blob write hash size o s)
unfolding save_blob
save_blob-Written write hash size (err e) s v = (v, refl)
save_blob-Written written hash size (ok bytes) s v =
    (cons-IsValid hash bytes s v, refl, λ e. cc (blob_at-head hash bytes s.blobs))
save_blob-Written not_opened hash size (ok bytes) s v = (v, refl)
save_blob-Written (broken_off n) hash size (ok bytes) s v =
    (cons-IsValid hash (take n bytes) s v, refl)

file_of_some :
    (hash : Text) (files : List (Text × Bytes))
    → not (is_none (blob_at hash files)) ≡ true
    → HasFile files (some hash)
file_of_some hash files h = ground arith

insert_new-IsValid :
    (e : ClipboardEntry) (content_hash : Text) (stored : Outcome CipherError Texts) (s : Store)
    → HasFile s.blobs e.blob_hash
    → IsValid s
    → IsValid (insert_new e content_hash stored s).1
unfolding insert_new insert_row new_row
insert_new-IsValid e content_hash (err c) s file v = v
insert_new-IsValid e content_hash (ok t) s file v =
    elim (Bool-cases (any (has_id e.id) s.rows || any (has_hash content_hash) s.rows)) [
      | inl taken ↦ rw (taken, insert_new) v
      | inr free ↦
          let row = new_row e content_hash t in
          let id_free : any (has_id e.id) s.rows ≡ false = ground arith in
          let hash_free : any (has_hash content_hash) s.rows ≡ false = ground arith in
          let inserted : IsValid (record s { rows = s.rows ++ row ∷ [] }) = record {
            ids =
                Unique-concat (λ q. q.id) row s.rows (fresh_of_any (λ q. q.id) e.id s.rows id_free)
                  v.ids;
            hashes =
                Unique-concat (λ q. q.content_hash) row s.rows
                  (fresh_of_any (λ q. q.content_hash) content_hash s.rows hash_free) v.hashes;
            files = All-append _ s.rows (row ∷ []) v.files (file, tt);
          } in
          rw (free, insert_new) inserted
    ]

after_blob-IsValid :
    (entry : BlobColumns → ClipboardEntry) (content_hash : Text)
    (stored : Outcome CipherError Texts) (s : Store) (w : Result BlobColumns × Store)
    → ((b : BlobColumns) → (entry b).blob_hash ≡ b.0)
    → Written s w
    → IsValid (after_blob entry content_hash stored w).1
unfolding after_blob
after_blob-IsValid entry content_hash stored s (err e, t) same_blob (v, rows) = v
after_blob-IsValid entry content_hash stored s (ok b, t) same_blob (v, rows, file) =
    insert_new-IsValid (entry b) content_hash stored t (rw (same_blob b) file) v

module _ (p : Primitives) where
  write_bytes-Written :
      (write : Write) (nonce : Bytes) (dek : Option Bytes) (bytes : Bytes) (s : Store)
      → IsValid s
      → Written s (write_bytes p write nonce dek bytes s)
  unfolding write_bytes
  write_bytes-Written write nonce dek bytes s v =
      let hash = hash_bytes p.sha256 bytes in
      elim (Bool-cases (not (is_valid_hash hash))) [
        | inl bad ↦ rw bad (v, refl)
        | inr good ↦ rw good (elim (Bool-cases (not (is_none (blob_at hash s.blobs)))) [
          | inl there ↦ rw there (v, refl, file_of_some hash s.blobs there)
          | inr missing ↦
              rw missing
                (save_blob-Written write hash (length bytes) (stored_blob p nonce dek bytes) s v)
        ])
      ]

  write_blob-Written :
      (write : Write) (nonce : Bytes) (dek : Option Bytes) (blob : Option Text) (s : Store)
      → IsValid s
      → Written s (write_blob p write nonce dek blob s)
  unfolding write_blob
  write_blob-Written write nonce dek none s v = (v, refl, tt)
  write_blob-Written write nonce dek (some b64) s v = elim (Option-cases (p.base64_decode b64)) [
    | inl bad ↦ rw (bad, write_blob) (v, refl)
    | inr (bytes, good) ↦ rw (good, write_blob) (write_bytes-Written write nonce dek bytes s v)
  ]

  touch_entry-IsValid :
      (now : ℕ) (starred : Option Bool) (dek : Option Bytes) (r : Row) (s : Store)
      → IsValid s
      → IsValid (touch_entry p now starred dek r s).1
  unfolding touch_entry
  touch_entry-IsValid now starred dek r s v =
      update-IsValid (has_id r.id) _ s (λ q. refl) (λ q. refl) (λ q. refl) v

  -- An upload keeps the server's store well-formed, whether the content is known, the base64 or the
  -- encryption fails, a write is refused, or the entry is created.
  pub create_entry-IsValid :
      (contains_sensitive_data : Text → Bool) (now : ℕ) (fresh_id : Text) (write : Write)
      (nonce : ℕ → Bytes) (content_type : ContentType) (flavors : Flavors)
      (blob_base64 source_app : Option Text) (starred : Option Bool) (content_hash : Text)
      (dek : Option Bytes) (s : Store)
      → IsValid s
      → IsValid
          (create_entry p contains_sensitive_data now fresh_id write nonce content_type flavors
            blob_base64 source_app starred content_hash dek s).1
  unfolding create_entry create_new new_entry
  create_entry-IsValid contains_sensitive_data now fresh_id write nonce content_type flavors
        blob_base64 source_app starred content_hash dek s v =
      elim (Option-cases (find (has_hash content_hash) s.rows)) [
        | inr (r, known) ↦ rw (known, create_entry) (touch_entry-IsValid now starred dek r s v)
        | inl unknown ↦
            rw (unknown, create_entry)
              (after_blob-IsValid _ content_hash _ s
                (write_blob p write (nonce 0) dek blob_base64 s) (λ b. refl)
                (write_blob-Written write (nonce 0) dek blob_base64 s v))
      ]
