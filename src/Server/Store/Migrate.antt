-- ===== src/Server/Store/Migrate.antt =====
-- `encrypt_all_entries` and `encrypt_all_blobs` of server/src/storage.rs. Each row and each file is
-- encrypted under nonces of its own, named by its identifier. An error stops the pass; what it has
-- rewritten stays rewritten.
pub mod Laws
pub mod Blobs
pub mod Settles
pub mod Genuine
use copywraith.Local.Table.{Write, written, not_opened, broken_off}
use copywraith.Common.{
  take, ℕ, Bool, true, false, not, ◌&&◌, ◌||◌, Option, none, some, List, [], ◌∷◌, if◌then◌else◌,
}
use copywraith.Common.Text.{Text, Bytes}
use copywraith.Common.Outcome.{Outcome, ok, err}
use copywraith.Server.Crypto.Primitives.{Primitives}
use copywraith.Server.Crypto.Cipher.{
  CipherError, encrypt_blob, is_encrypted_text, is_encrypted_blob,
}
use copywraith.Server.Records.{Row, Store, Texts, texts_of, with_texts, encrypt_texts}
use copywraith.Server.Records.Columns.{all_settled}
use copywraith.Server.Store.{Result, cipher, read_failed, write_failed, has_id}
use copywraith.Common.Table.{update_where}

-- `changed` of the source.
abbrev pub changed : Texts → Bool
changed t = not (all_settled t)

abbrev pub FileNonces : Type 0
FileNonces = Text → Bytes

abbrev pub RowNonces : Type 0
RowNonces = Text → ℕ → Bytes

unfoldable pub update_texts : Row → Texts → List Row → List Row
unfolding update_where all_settled
update_texts r t table =
    if changed (texts_of r) then update_where (has_id r.id) (with_texts t) table else table

encrypt_row : Row → Outcome CipherError Texts → List Row → Result (Unit {0}) × List Row
unfolding update_texts
encrypt_row r (err e) table = (err (cipher e), table)
encrypt_row r (ok t) table = (ok tt, update_texts r t table)

and_then :
    (List Row → Result (Unit {0}) × List Row)
    → Result (Unit {0}) × List Row
    → Result (Unit {0}) × List Row
and_then rest (err e, table) = (err e, table)
and_then rest (ok done, table) = rest table

abbrev pub Files : Type 0
Files = List (Text × Bytes)

after_file : Text × Bytes → Result (Unit {0}) × Files → Result (Unit {0}) × Files
after_file f (outcome, files) = (outcome, f ∷ files)

-- What the disk does during the pass: whether the directory can be listed, and by the name of a file
-- whether its directory entry and its bytes can be read, and how its write ends.
pub record Disk : Type 0 where
  pub lists : Bool
  pub reads : Text → Bool
  pub writes : Text → Write

-- One file that is not encrypted yet is rewritten in place; a write that broke off has lost the rest of
-- its bytes.
rewrite_file :
    Write
    → Text
    → Bytes
    → Outcome CipherError Bytes
    → Files
    → Result (Unit {0}) × Files
    → Result (Unit {0}) × Files
unfolding after_file
rewrite_file write name bytes (err e) files rest = (err (cipher e), (name, bytes) ∷ files)
rewrite_file written name bytes (ok encrypted) files rest = after_file (name, encrypted) rest
rewrite_file not_opened name bytes (ok encrypted) files rest =
    (err write_failed, (name, bytes) ∷ files)
rewrite_file (broken_off n) name bytes (ok encrypted) files rest =
    (err write_failed, (name, take n encrypted) ∷ files)

module _ (p : Primitives) where
  -- The rows that were read at the start, one after the other.
  unfoldable pub encrypt_loop :
      RowNonces → Bytes → List Row → List Row → Result (Unit {0}) × List Row
  unfolding encrypt_row and_then encrypt_texts
  encrypt_loop nonces dek [] table = (ok tt, table)
  encrypt_loop nonces dek (r ∷ rows) table =
      and_then (encrypt_loop nonces dek rows)
        (encrypt_row r (encrypt_texts p (nonces r.id) dek (texts_of r)) table)

  unfoldable pub encrypt_all_entries : RowNonces → Bytes → Store → Result (Unit {0}) × Store
  unfolding encrypt_loop
  encrypt_all_entries nonces dek s =
      let (outcome, rows) = encrypt_loop nonces dek s.rows s.rows in
      (outcome, record s { rows = rows })

  unfoldable pub encrypt_files : Disk → FileNonces → Bytes → Files → Result (Unit {0}) × Files
  unfolding is_encrypted_blob encrypt_blob rewrite_file after_file
  encrypt_files disk nonces dek [] = (ok tt, [])
  encrypt_files disk nonces dek ((name, bytes) ∷ files) =
      let rest = encrypt_files disk nonces dek files in
      if not (disk.reads name)
      then (err read_failed, (name, bytes) ∷ files)
      else if is_encrypted_blob bytes
      then after_file (name, bytes) rest
      else rewrite_file (disk.writes name) name bytes (encrypt_blob p (nonces name) dek bytes) files
          rest

  unfoldable pub encrypt_all_blobs : Disk → FileNonces → Bytes → Store → Result (Unit {0}) × Store
  unfolding encrypt_files
  encrypt_all_blobs disk nonces dek s =
      let (outcome, blobs) = encrypt_files disk nonces dek s.blobs in
      if disk.lists then (outcome, record s { blobs = blobs }) else (err read_failed, s)
