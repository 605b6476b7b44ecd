-- ===== src/Lib.antt =====
-- Copywraith keeps a clipboard history on each device and synchronises it with a server. The
-- development models the logic that the crates share, the client's store and synchronisation, and the
-- server's encryption.
--
-- The program's parts and their files:
-- - Content: crates/copywraith-core/src/content.rs. Content.Hash is `hash_bytes`, `hash_text` and
--   `is_valid_hash`; Content.Html `strip_html` with its entities; Content.Rtf `strip_rtf` with
--   `push_rtf_unicode_unit` and `skip_rtf_fallback_chars`; Content.Mask `mask_sensitive`;
--   Content.Image `detect_image_format`. The loops over a character index are scans: a step is given
--   the character and all that follows, and says how many further characters it consumed.
-- - Model: crates/copywraith-core/src/models.rs. Model.Flavors is `ContentType` and
--   `ClipboardFlavors`, Model.Entry `ClipboardEntry`. A ULID is a text, an instant a number.
-- - Sensitive: crates/copywraith-core/src/sensitive.rs. Sensitive.Luhn is `luhn_check`,
--   Sensitive.Tokens `TokenStats` and the run counters, Sensitive.Detect `contains_sensitive_data` and
--   its checks. The regular expressions and `f64` are records of parameters.
-- - Local: src-tauri/src/storage.rs. Local.Table is the entries table as a list of rows with the blob
--   directory beside it, Local.Storage the operations on rows that exist, Local.Insert `insert_entry`,
--   `insert_remote_entry` and `write_blob`. Local.Protocol lets a push and its acknowledgement
--   interleave with any sequence of the other operations, as an indexed data type of steps.
--   Local.Settings is the table of keys and texts that holds the settings and the pull watermark.
-- - Sync: src-tauri/src/sync.rs, with the deadlines and requests of
--   crates/copywraith-core/src/api_types.rs and the settings of src-tauri/src/models.rs. Sync.Endpoint
--   is the choice of servers, Sync.Transfer the deadlines, Sync.Push pushing one entry and a batch,
--   Sync.Fetch a page request over the endpoints, Sync.Ingest what a pulled entry leads to,
--   Sync.Paging one page of a pull, Sync.Pull the loop over the pages with its watermark, and Sync.Key
--   the order of entries.
-- - Server: server/src/crypto.rs in Server.Crypto, with the vault (`CryptoState` and auth.json), the
--   text and blob formats, and `constant_time_eq`. server/src/storage.rs in Server.Records (a row, its
--   encrypted columns, `row_to_entry`), Server.Store (the operations of `Storage` that change it),
--   Server.Store.Migrate (`encrypt_all_entries`, `encrypt_all_blobs`) and Server.Query
--   (`list_entries` with its filters and both searches). server/src/api.rs in Server.Api (guards,
--   errors and masks), Server.Api.Auth and Server.Api.Entries (the handlers), and Server.Api.Serve,
--   where a request of any kind is a step of the server's state. Server.Listing is the abstract cursor
--   listing of a history, as a client sees it.
-- - Clipboard: src-tauri/src/native_clipboard.rs, the translation between paths and file URIs.
-- - Desktop: src-tauri/src/linux/shortcuts.rs, the accelerators and the quoting for gsettings.
-- - Common: names, tests, lists, texts as lists of code points, UTF-8, `Result` as Outcome, and the SQL
--   statements that both stores use as Common.Table.
-- - Tests: runs at fixed inputs, and the theorems applied at concrete inputs.
--
-- The parts meet as in the code: Sync.Push reads Local.Storage for blobs and acknowledges through
-- `mark_synced_if_unchanged`; Sync.Ingest calls Local.Insert and `apply_remote_star`; Local calls
-- Content.Hash and Model, and takes the detector as a parameter. Server.Api.Serve composes the guard,
-- which runs the vault of Server.Crypto, with the operations of Server.Store under the key that the
-- vault then holds; a set-up runs Server.Store.Migrate.
--
-- Numbers are natural numbers; where the source's width matters the wrap-around is written out
-- (`u32` in Server.Api.Entries, Server.Listing and in the parsing of numbers). What servers
-- answer, the clock, random bytes, and what the disk does are arguments; for the server's handlers
-- they are the record `World`. A file is written, not opened, or broken off after some bytes
-- (`Write`), and its removal may fail. SHA-256, base64, Argon2, HKDF, AES-GCM, serde_json, the
-- regular expressions, full-text search, the order of SQLite, the texts of instants, case folding,
-- ULIDs and `f64` are parameters; the laws of the cryptographic ones are the record `Lawful`. What
-- counts as encrypted is what the code takes for it: a text with the mark `ENC:1:` or a blob with
-- the magic number; Server.Store.Migrate.Genuine says where texts with the mark come from. The
-- loop of a pull runs on fuel, one unit for each page, since a server may always say that it has
-- more; once it does not, a unit for each page so far is enough. A pass that needs more ends as
-- `out_of_fuel`, with the cursor as it was. All other loops are structural.
--
-- Not modelled: failures of SQLite, the schema and the backfills of old databases, the client's
-- `get_entries`, the HTTP client and the wake-ups of the sync loop,
-- interleavings of two requests within the server, JSON and the router of axum, the Tauri commands,
-- pasting, D-Bus and the portals, the Android share target and the user interfaces: these are calls of
-- other libraries and platforms, or planned.
pub mod Common
pub mod Content
pub mod Model
pub mod Sensitive
pub mod Local
pub mod Server
pub mod Sync
pub mod Clipboard
pub mod Desktop
mod Tests
