-- ===== src/Local/Table/Laws.antt =====
-- Well-formed stores, and what updates and deletions of rows keep.
use copywraith.Common.Table.Laws.{
  All-update_where, fresh_of_any, Unique, Unique-concat, Unique-update_where,
}
use copywraith.Common.{
  subst, true, find, ◌++◌, ◌≡◌, ◌≢◌, refl, inl, inr, Bool, false, Option, none, some, List, [], ◌∷◌,
  arith, All, All-append, any, Bool-cases,
}
use copywraith.Local.Table.{has_hash, has_id, Row, Store, blob_at, remove_file, references}
use copywraith.Common.Table.{update_where}
use copywraith.Common.Text.{Text, Bytes, same, same_iff}

-- A row that refers to a blob refers to a file that is there.
abbrev pub HasFile : List (Text × Bytes) → Option Text → Type 0
HasFile files none = Unit
HasFile files (some hash) = blob_at hash files ≢ none

-- What the schema and the code keep: unique identifiers and content hashes, and a file for each
-- blob that a row refers to.
pub record IsValid (s : Store) : Type 0 where
  pub ids : Unique (λ r. r.id) s.rows
  pub hashes : Unique (λ r. r.content_hash) s.rows
  pub files : All (λ r. HasFile s.blobs r.blob_hash) s.rows

-- An update that touches no key and no blob column keeps a store valid.
pub update-IsValid :
    (p : Row → Bool) (f : Row → Row) (s : Store)
    → ((r : Row) → (f r).id ≡ r.id)
    → ((r : Row) → (f r).content_hash ≡ r.content_hash)
    → ((r : Row) → (f r).blob_hash ≡ r.blob_hash)
    → IsValid s
    → IsValid (record s { rows = update_where p f s.rows })
update-IsValid p f s kid khash kblob v = record {
  ids = Unique-update_where p f (λ r. r.id) kid s.rows v.ids;
  hashes = Unique-update_where p f (λ r. r.content_hash) khash s.rows v.hashes;
  files = All-update_where p f (λ r h. rw (kblob r) h) s.rows v.files;
}

pub blob_at-remove_file :
    (hash other : Text) (files : List (Text × Bytes))
    → same hash other ≡ false
    → blob_at other (remove_file hash files) ≡ blob_at other files
unfolding blob_at remove_file
blob_at-remove_file hash other [] h = refl
blob_at-remove_file hash other ((name, bytes) ∷ files) h = ground (
  arith,
  blob_at-remove_file hash other files h,
  same_iff name hash,
  same_iff name other,
  same_iff hash other,
)

pub remove_file-gone :
    (hash : Text) (files : List (Text × Bytes)) → blob_at hash (remove_file hash files) ≡ none
unfolding blob_at remove_file
remove_file-gone hash [] = refl
remove_file-gone hash ((name, bytes) ∷ files) = ground (arith, remove_file-gone hash files)

pub HasFile-remove_file :
    (hash : Text) (files : List (Text × Bytes)) (o : Option Text)
    → (elim o as (λ _. Bool) [ none ↦ false | some h ↦ same h hash ]) ≡ false
    → HasFile files o
    → HasFile (remove_file hash files) o
HasFile-remove_file hash files none e h = tt
HasFile-remove_file hash files (some other) e h =
    rw
      (blob_at-remove_file hash other files
        (ground (arith, same_iff other hash, same_iff hash other)))
      h

-- A file to which no row refers can go.
pub files-remove_file :
    (hash : Text) (files : List (Text × Bytes)) (rs : List Row)
    → any (references hash) rs ≡ false
    → All (λ r. HasFile files r.blob_hash) rs
    → All (λ r. HasFile (remove_file hash files) r.blob_hash) rs
files-remove_file hash files [] e h = tt
files-remove_file hash files (r ∷ rs) e h = elim (Bool-cases (references hash r)) [
  | inl t ↦ absurd (ground arith)
  | inr u ↦ (
    HasFile-remove_file hash files r.blob_hash u h.0,
    files-remove_file hash files rs (rw u at e) h.1,
  )
]

-- A row whose keys are new and whose blob is on disk can be appended.
pub insert-IsValid :
    (r : Row) (s : Store)
    → any (has_id r.id) s.rows ≡ false
    → any (has_hash r.content_hash) s.rows ≡ false
    → HasFile s.blobs r.blob_hash
    → IsValid s
    → IsValid (record s { rows = s.rows ++ r ∷ [] })
insert-IsValid r s i h f v = record {
  ids = Unique-concat (λ q. q.id) r s.rows (fresh_of_any (λ q. q.id) r.id s.rows i) v.ids;
  hashes =
      Unique-concat (λ q. q.content_hash) r s.rows
        (fresh_of_any (λ q. q.content_hash) r.content_hash s.rows h) v.hashes;
  files = All-append _ s.rows (r ∷ []) v.files (f, tt);
}

-- A file that is added hides none.
pub HasFile-cons :
    (name : Text) (bytes : Bytes) (files : List (Text × Bytes)) (o : Option Text)
    → HasFile files o
    → HasFile ((name, bytes) ∷ files) o
unfolding blob_at
HasFile-cons name bytes files none h = tt
HasFile-cons name bytes files (some hash) h = ground (arith, h)

pub files-cons :
    (name : Text) (bytes : Bytes) (files : List (Text × Bytes)) (rs : List Row)
    → All (λ r. HasFile files r.blob_hash) rs
    → All (λ r. HasFile ((name, bytes) ∷ files) r.blob_hash) rs
files-cons name bytes files [] h = tt
files-cons name bytes files (r ∷ rs) h =
    (HasFile-cons name bytes files r.blob_hash h.0, files-cons name bytes files rs h.1)

-- The row that a search finds passes its test, and has what all rows have.
pub find-some :
    (P : Row → Type 0) (p : Row → Bool) (rs : List Row) (r : Row)
    → find p rs ≡ some r
    → All P rs
    → P r × (p r ≡ true)
find-some P p [] r e h = cc
find-some P p (q ∷ qs) r e h = elim (Bool-cases (p q)) [
  | inl t ↦ let same_row : q ≡ r = ground arith in subst (λ x. P x × (p x ≡ true)) same_row (h.0, t)
  | inr f ↦ find-some P p qs r (rw f at e) h.1
]
