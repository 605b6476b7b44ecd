-- ===== src/Server/Store/Migrate/Blobs.antt =====
-- What the migration of the blob files does, also where it stops at an error.
use copywraith.Local.Table.{broken_off}
use copywraith.Common.{ℕ, take, ◌⊎◌, ◌≡◌, true, [], ◌∷◌}
use copywraith.Server.Store.{read_failed, Result, write_failed}
use copywraith.Server.Store.Migrate.{Disk, Files, FileNonces}
use copywraith.Common.Text.{Text, Bytes}
use copywraith.Common.Outcome.{Outcome, ok, err}
use copywraith.Server.Crypto.Primitives.{Primitives, Lawful}
use copywraith.Server.Crypto.Cipher.{CipherError, encrypt_blob, decrypt_blob}
use copywraith.Server.Records.{Store}
use copywraith.Server.Records.Columns.{Seals}
use copywraith.Server.Store.AtRest.{file_is_encrypted}

-- A file's name with what the key reveals of its bytes.
unfoldable pub revealed_file :
    (p : Primitives) → Bytes → Text × Bytes → Text × Outcome CipherError Bytes
unfolding decrypt_blob
revealed_file p dek (name, bytes) = (name, decrypt_blob p dek bytes)

module _ (p : Primitives) (lawful : Lawful p) (dek : Bytes) (seals : Seals p dek) where
  -- A file that the pass has dealt with reveals what it revealed before, and is marked.
  abbrev pub Rewritten : Text × Bytes → Text × Bytes → Type 0
  Rewritten f g = (revealed_file p dek g ≡ revealed_file p dek f) × (file_is_encrypted g ≡ true)

  abbrev pub AllRewritten : Files → Files → Type 0
  AllRewritten [] [] = Unit
  AllRewritten (f ∷ files) (g ∷ after) = Rewritten f g × AllRewritten files after
  AllRewritten _ _ = ⊥

  module _ (disk : Disk) (nonces : FileNonces) where
    -- What a write that broke off leaves of a file: the beginning of its encryption.
    abbrev pub Torn : Text × Bytes → Text × Bytes → Type 0
    Torn (name, bytes) (name', left) =
        (n : ℕ) × (stored : Bytes) × (disk.writes name ≡ broken_off n)
        × (encrypt_blob p (nonces name) dek bytes ≡ ok stored)
        × (left ≡ take n stored)

    -- A pass that stopped has dealt with the files up to one, which keeps its bytes or is torn; the
    -- files behind it are as they were.
    abbrev pub StoppedAt : Files → Files → Type 0
    StoppedAt (f ∷ files) (g ∷ after) =
        (Rewritten f g × StoppedAt files after)
        ⊎ ((g.0 ≡ f.0) × (after ≡ files) × ((g.1 ≡ f.1) ⊎ Torn f g))
    StoppedAt _ _ = ⊥

    abbrev pub Stopped : Result (Unit {0}) → Type 0
    Stopped outcome = (outcome ≡ err read_failed) ⊎ (outcome ≡ err write_failed)

    abbrev Migrates : Files → Result (Unit {0}) × Files → Type 0
    Migrates files (outcome, after) =
        ((outcome ≡ ok tt) × AllRewritten files after) ⊎ (Stopped outcome × StoppedAt files after)
