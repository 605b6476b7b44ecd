-- ===== src/Server/Api/Paging.antt =====
-- That GET /api/entries without filters serves the cursor listing of `Server.Listing`.
use mathlib.Core.Option
use copywraith.Common.{
  All, [], ◌∷◌, ltb, ◌==◌, filter, ℕ, ◌≡◌, refl, Bool, false, ◌&&◌, Option, none, some, List, map,
  is_some, is_none,
}
use copywraith.Common.Text.{same, Text}
use copywraith.Sync.Key.{text_lt}
use copywraith.Server.Records.{Row, row_to_entry}
use copywraith.Server.Query.{is_before, show_rows, selected, query_rows, effective_offset}
use copywraith.Common.Outcome.{ok}
use copywraith.Model.Entry.{ClipboardEntry}
use copywraith.Server.Crypto.Vault.{get_dek}
use copywraith.Server.Listing
use copywraith.Server.Listing.{clamp_limit, before_cursor}
use copywraith.Server.Query.Cursor.{query_rows-page}
use copywraith.Server.Query
use copywraith.Server.Api.{World, AppState, respond, project_list_entry}
use copywraith.Server.Api.Entries.{
  ListEntriesParams, ListEntriesResponse, query_of, page_response, read_page,
}

-- A request with a cursor or an offset, and no filter.
abbrev pub unfiltered : ℕ → ℕ → Option Text → Option Text → Bool → ListEntriesParams
unfiltered limit offset before_updated_at before_id include_sensitive = record {
  limit = limit;
  offset = offset;
  before_updated_at = before_updated_at;
  before_id = before_id;
  content_type = none;
  starred_only = false;
  search = none;
  include_sensitive = include_sensitive;
}

abbrev pub listing_response : Bool → Listing.Listing → ListEntriesResponse
unfolding respond project_list_entry
listing_response include_sensitive l = record {
  entries = map (respond (λ e. project_list_entry e include_sensitive)) l.entries;
  total = l.total;
  has_more = l.has_more;
}

-- The text of a row's instant stands to the text of another instant as the instants stand: RFC 3339
-- in UTC sorts as the instants do while years have four digits.
abbrev pub SortsAs : (ℕ → Text) → ℕ → Row → Type 0
SortsAs rfc3339 at r =
    (text_lt (rfc3339 r.updated_at) (rfc3339 at) ≡ ltb r.updated_at at)
    × (same (rfc3339 r.updated_at) (rfc3339 at) ≡ (r.updated_at == at))

is_before-cursor :
    (rfc3339 : ℕ → Text) (at : ℕ) (id : Option Text) (r : Row)
    → SortsAs rfc3339 at r
    → is_before rfc3339 (some (rfc3339 at)) id r ≡ before_cursor (some at) id (row_to_entry r)
unfolding is_before before_cursor row_to_entry
is_before-cursor rfc3339 at none r (earlier, equal) = earlier
is_before-cursor rfc3339 at (some id) r (earlier, equal) = rw (earlier, equal) refl

filter-is_before :
    (rfc3339 : ℕ → Text) (at : ℕ) (id : Option Text) (rows : List Row)
    → All (SortsAs rfc3339 at) rows
    → filter (is_before rfc3339 (some (rfc3339 at)) id) rows
      ≡ filter (λ r. before_cursor (some at) id (row_to_entry r)) rows
filter-is_before rfc3339 at id [] h = refl
filter-is_before rfc3339 at id (r ∷ rows) h =
    rw (is_before-cursor rfc3339 at id r h.0, filter-is_before rfc3339 at id rows h.1) refl

-- What is asked of the cursor of a request, if it has one.
abbrev pub CursorSorts : (ℕ → Text) → Option ℕ → List Row → Type 0
CursorSorts rfc3339 none rows = Unit
CursorSorts rfc3339 (some at) rows = All (SortsAs rfc3339 at) rows

module _ (w : World) (s : AppState) (history : List ClipboardEntry)
    (shows : show_rows w.primitives (get_dek s.crypto) (w.newest_first s.storage.rows)
      ≡ ok history) where
  -- A request without filters, whose cursor is complete and written as the server writes instants, is
  -- answered with the page of the abstract cursor listing of the history that the key reveals, in the
  -- order of the query, and changes nothing, as long as the cursor's text sorts against the rows'
  -- timestamps as the instants do.
  pub read_page-Listing :
      (limit offset : ℕ) (before_updated_at : Option ℕ) (before_id : Option Text)
      (include_sensitive : Bool)
      → (is_some before_id && is_none before_updated_at) ≡ false
      → CursorSorts w.rfc3339 before_updated_at (w.newest_first s.storage.rows)
      → read_page w
          (unfiltered limit offset
            (Option.map w.rfc3339 before_updated_at)
            before_id
            include_sensitive)
          s
        ≡ (
          ok (
              listing_response include_sensitive
                (Listing.list_entries history limit offset before_updated_at before_id)),
          s,
        )
  unfolding read_page Listing.list_entries Query.list_entries selected query_of page_response
      effective_offset before_cursor
  read_page-Listing limit offset none before_id include_sensitive complete sorts =
      rw
        (
          complete,
          query_rows-page w.primitives (get_dek s.crypto)
              (query_of (unfiltered limit offset none before_id include_sensitive)) none before_id
              (clamp_limit limit) offset (w.newest_first s.storage.rows) history refl refl shows,
        )
        refl
  read_page-Listing limit offset (some at) before_id include_sensitive complete sorts =
      rw
        (
          complete,
          filter-is_before w.rfc3339 at before_id (w.newest_first s.storage.rows) sorts,
          query_rows-page w.primitives (get_dek s.crypto)
              (query_of (unfiltered limit offset (some (w.rfc3339 at)) before_id include_sensitive))
              (some at) before_id (clamp_limit limit) 0 (w.newest_first s.storage.rows) history refl
              refl shows,
        )
        refl
