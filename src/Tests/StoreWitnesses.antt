-- ===== src/Tests/StoreWitnesses.antt =====
-- The theorems about server/src/storage.rs, the clipboard's paths and the shortcuts at concrete
-- inputs.
use copywraith.Common.Outcome.{◌>>=◌, ok}
use copywraith.Local.Table.{written, broken_off}
use copywraith.Common.{
  if◌then◌else◌, ◌≡◌, refl, ap, true, false, none, some, List, [], ◌∷◌, ◌++◌, all, map, All,
  unwrap_or, arith,
}
use copywraith.Server.Store.Migrate.{Disk, encrypt_all_entries}
use copywraith.Common.Text.{same, Text, Bytes, codes, as_bytes, contains}
use copywraith.Common.Utf8.{from_utf8, is_scalar}
use copywraith.Common.Utf8.Laws.{from_utf8-as_bytes}
use copywraith.Model.Flavors.{file, parse_file_list}
use copywraith.Model.Entry.{ClipboardEntry}
use copywraith.Server.Crypto.Cipher.{enc_text_prefix}
use copywraith.Server.Records.{Row, Store, row_to_entry, shown_entry}
use copywraith.Server.Records.Columns.{all_settled}
use copywraith.Server.Records.Reading.{shown_entry-file_list}
use copywraith.Server.Store.AtRest.{row_is_settled}
use copywraith.Server.Store.Migrate.Laws.{
  revealed_row, encrypt_all_entries-encrypts, encrypt_all_entries-keeps,
}
use copywraith.Clipboard.Paths.{clipboard_file_path, file_uri}
use copywraith.Clipboard.Paths.RoundTrip.{ArePathChars, clipboard_file_path-file_uri}
use copywraith.Tests.Plain.{plain, plain-Lawful, plain-Seals, dek32, nonce12, tag}

-- A disk on which every operation succeeds.
abbrev pub good_disk : Disk
good_disk = record { lists = true; reads = λ name. true; writes = λ name. written }

abbrev pub clear_row : Row
clear_row = record {
  id = codes "01";
  content_type = codes "text";
  text_content = some (codes "hé");
  text_plain = some (codes "hé");
  text_html = none;
  text_rtf = none;
  search_text = some (codes "hé");
  blob_hash = none;
  blob_size = none;
  content_hash = codes "aa";
  source_app = none;
  starred = false;
  sensitive = false;
  created_at = 5;
  updated_at = 5;
}

abbrev pub later_row : Row
later_row = record clear_row {
  id = codes "02";
  text_content = none;
  text_plain = none;
  search_text = none;
  content_hash = codes "bb";
  updated_at = 6;
}

abbrev pub clear_store : Store
clear_store = record { rows = clear_row ∷ later_row ∷ []; blobs = (codes "cc", 1 ∷ 2 ∷ []) ∷ [] }

abbrev settled_store : Store
settled_store = record clear_store { rows = later_row ∷ [] }

encrypt_all_entries-encrypts_example :
    (after : List Row) × (encrypt_all_entries plain (λ id slot. nonce12) dek32 clear_store
      ≡ (ok tt, record clear_store { rows = after }))
    × (all row_is_settled after ≡ true)
    × (map (revealed_row plain dek32) after ≡ map (revealed_row plain dek32) clear_store.rows)
unfolding same
encrypt_all_entries-encrypts_example =
    encrypt_all_entries-encrypts plain plain-Lawful dek32 plain-Seals (λ id slot. nonce12)
      (λ id slot. refl) clear_store ((refl, tt), (tt, tt))
      (
        record {
          text_content = (refl, (refl, tt));
          text_plain = (refl, (refl, tt));
          text_html = tt;
          text_rtf = tt;
          search_text = (refl, (refl, tt));
        },
        (
          record {
            text_content = tt;
            text_plain = tt;
            text_html = tt;
            text_rtf = tt;
            search_text = tt;
          },
          tt,
        ),
      )

encrypt_all_entries-keeps_example :
    encrypt_all_entries plain (λ id slot. nonce12) dek32 settled_store ≡ (ok tt, settled_store)
unfolding all_settled
encrypt_all_entries-keeps_example =
    encrypt_all_entries-keeps plain (λ id slot. nonce12) dek32 settled_store refl

-- Two files, the second of which is broken off when it is rewritten.
abbrev torn_disk : Disk
torn_disk = record {
  lists = true;
  reads = λ name. true;
  writes = λ name. if same name (codes "b") then broken_off 3 else written;
}

abbrev two_files : Store
two_files = record clear_store {
  blobs = (codes "a", 1 ∷ []) ∷ (codes "b", 2 ∷ []) ∷ (codes "c", 3 ∷ []) ∷ [];
}

-- What is stored for the file `/a`.
abbrev sealed_path : Text
sealed_path = enc_text_prefix ++ (nonce12 ++ (codes "/a" ++ tag))

abbrev file_row : Row
file_row = record later_row { content_type = codes "file"; text_content = some sealed_path }

abbrev shown_file : ClipboardEntry
shown_file = record {
  id = codes "02";
  content_type = file;
  text_content = some (codes "/a");
  blob_hash = none;
  blob_size = none;
  source_app = none;
  flavors = record {
    text_plain = none;
    text_html = none;
    text_rtf = none;
    file_list = some (sealed_path ∷ []);
  };
  starred = false;
  sensitive = false;
  created_at = 5;
  updated_at = 6;
}

shown_entry-file_list_example :
    (shown_file.flavors.file_list ≡ some (sealed_path ∷ []))
    × (shown_file.text_content ≡ some (codes "/a"))
unfolding shown_entry row_to_entry parse_file_list from_utf8
shown_entry-file_list_example =
    shown_entry-file_list plain dek32 file_row sealed_path (codes "/a") (sealed_path ∷ [])
      shown_file refl refl refl refl refl refl

abbrev lossy : Bytes → Text
lossy bytes = unwrap_or (from_utf8 bytes) []

lossless : (t : Text) → ArePathChars t → lossy (as_bytes t) ≡ t
lossless t h = ap (λ o. unwrap_or o []) (from_utf8-as_bytes t (scalars t h))
  where
    scalars : (u : Text) → ArePathChars u → All (λ c. is_scalar c ≡ true) u
    scalars [] k = tt
    scalars (c ∷ u) k = (k.0.0, scalars u k.1)

clipboard_file_path-file_uri_example :
    clipboard_file_path lossy (file_uri lossy (λ path. false) (codes "/é b")) ≡ codes "/é b"
unfolding contains
clipboard_file_path-file_uri_example =
    clipboard_file_path-file_uri lossy lossless (λ path. false) (codes "é b")
      ((refl, omega arith), ((refl, omega arith), ((refl, omega arith), ((refl, omega arith), tt))))
      refl

abbrev names : List Text
names = codes "Ctrl" ∷ codes "Hyper" ∷ codes "Alt" ∷ []
