-- ===== src/Server/Query.antt =====
-- `Storage::list_entries` of server/src/storage.rs: the filters, the full-text search over plain
-- columns, and the search in memory over decrypted entries. The text of an instant in RFC 3339, and
-- the order `ORDER BY e.updated_at DESC, e.id DESC` of SQLite, are parameters. Full-text search and case folding are
-- parameters: `fts q` is `none` where SQLite rejects the query, and otherwise tests a text.
pub mod Cursor
use copywraith.Common.{
  ℕ, Bool, true, false, not, ◌&&◌, ◌||◌, Option, none, some, List, [], ◌∷◌, ltb, ◌==◌,
  if◌then◌else◌, length, take, drop, filter, is_some, map,
}
use copywraith.Common.Text.{Text, Bytes, codes, same, lower, starts_with, contains}
use copywraith.Common.Outcome.{Outcome, ok, err, ◌>>=◌}
use copywraith.Model.Flavors.{ContentType, as_str}
use copywraith.Model.Entry.{ClipboardEntry, entry_best_plain_text}
use copywraith.Sync.Key.{text_lt}
use copywraith.Server.Crypto.Primitives.{Primitives}
use copywraith.Server.Crypto.Cipher.{CipherError}
use copywraith.Server.Records.{Row, Store, row_to_entry, decrypt_entry_text_fields, shown_entry}
use copywraith.Server.Store.{Result, from_cipher, bad_search}
use copywraith.Server.Listing.{before_cursor}

pub record Query : Type 0 where
  pub limit : ℕ
  pub offset : ℕ
  pub before_updated_at : Option Text
  pub before_id : Option Text
  pub content_type : Option ContentType
  pub starred_only : Bool
  pub search : Option Text

-- The cursor as the query compares it, text with text: `updated_at < ?`, or equal with `id < ?`.
unfoldable pub is_before : (ℕ → Text) → Option Text → Option Text → Row → Bool
unfolding text_lt same
is_before rfc3339 none id r = true
is_before rfc3339 (some t) none r = text_lt (rfc3339 r.updated_at) t
is_before rfc3339 (some t) (some id) r =
    text_lt (rfc3339 r.updated_at) t || (same (rfc3339 r.updated_at) t && text_lt r.id id)

has_type : Option ContentType → Row → Bool
unfolding as_str
has_type none r = true
has_type (some content_type) r = same r.content_type (as_str content_type)

-- The conditions besides the search.
unfoldable pub selected : (ℕ → Text) → Query → Row → Bool
unfolding has_type is_before
selected rfc3339 q r =
    has_type q.content_type r
    && (not q.starred_only || r.starred)
    && is_before rfc3339 q.before_updated_at q.before_id r

-- The triggers index what is `NOT LIKE 'ENC:1:%'`; LIKE folds ASCII case.
unfoldable pub is_indexed : Option Text → Bool
unfolding starts_with
is_indexed none = false
is_indexed (some t) = not (starts_with (map lower t) (codes "enc:1:"))

unfoldable pub text_matches : (Text → Bool) → Option Text → Bool
unfolding is_indexed
text_matches test none = false
text_matches test (some t) = is_indexed (some t) && test t

abbrev pub Page : Type 0
Page = List ClipboardEntry × ℕ

abbrev pub page_of {ℓ} : {A : Type ℓ} → ℕ → ℕ → List A → List A
page_of limit offset xs = take limit (drop offset xs)

unfoldable pub effective_offset : Query → ℕ
effective_offset q = if is_some q.before_updated_at then 0 else q.offset

module _ (to_lowercase : Text → Text) where
  unfoldable pub contains_term : Text → ClipboardEntry → Bool
  unfolding contains entry_best_plain_text
  contains_term term e = elim (entry_best_plain_text e) [
    | none ↦ false
    | some plain ↦ contains (to_lowercase plain) (to_lowercase term)
  ]

module _ (p : Primitives) where
  -- What decrypts; what does not is skipped.
  decrypted_entries : Bytes → List Row → List ClipboardEntry
  unfolding decrypt_entry_text_fields row_to_entry
  decrypted_entries dek [] = []
  decrypted_entries dek (r ∷ rows) =
      let rest = decrypted_entries dek rows in
      elim (decrypt_entry_text_fields p dek (row_to_entry r)) [ err e ↦ rest | ok e ↦ e ∷ rest ]

  -- The entries of a page; one that does not decrypt is an error.
  unfoldable pub show_rows : Option Bytes → List Row → Outcome CipherError (List ClipboardEntry)
  unfolding shown_entry row_to_entry
  show_rows dek [] = ok []
  show_rows dek (r ∷ rows) = do
    e ← shown_entry p dek (row_to_entry r)
    rest ← show_rows dek rows
    ok (e ∷ rest)

  unfoldable pub query_rows : Query → Option Bytes → List Row → Result Page
  unfolding show_rows effective_offset
  query_rows q dek rows = from_cipher (do
    entries ← show_rows dek (page_of q.limit (effective_offset q) rows)
    ok (entries, length rows))

  module _ (to_lowercase : Text → Text) where
    unfoldable pub search_memory : Query → Text → Bytes → List Row → Page
    unfolding decrypted_entries contains_term effective_offset
    search_memory q term dek rows =
        let found = filter (contains_term to_lowercase term) (decrypted_entries dek rows) in
        (page_of q.limit (effective_offset q) found, length found)

    module _ (fts : Text → Option (Text → Bool)) where
      search_index : Query → Text → List Row → Result Page
      unfolding query_rows text_matches
      search_index q term rows = elim (fts term) [
        | none ↦ err bad_search
        | some test ↦ query_rows q none (filter (λ r. text_matches test r.search_text) rows)
      ]

      search_entries : Query → Option Text → Option Bytes → List Row → Result Page
      unfolding query_rows search_index search_memory
      search_entries q none dek rows = query_rows q dek rows
      search_entries q (some term) none rows = search_index q term rows
      search_entries q (some term) (some dek) rows = ok (search_memory q term dek rows)

      module _ (rfc3339 : ℕ → Text) (newest_first : List Row → List Row) where
        unfoldable pub list_entries : Query → Option Bytes → Store → Result Page
        unfolding search_entries selected
        list_entries q dek s =
            search_entries q q.search dek (filter (selected rfc3339 q) (newest_first s.rows))
