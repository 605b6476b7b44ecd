-- ===== src/Server/Listing.antt =====
-- The abstract cursor listing that GET /api/entries of server/src/api.rs serves for a request with no
-- content type, star or search filter, and `clamp_limit` of crates/copywraith-core/src/api_types.rs.
-- `history` is the table as the query orders it, newest first, and a cursor is an instant here: the
-- query compares its text, see Server.Query.
use copywraith.Common.{
  ℕ, ◌+◌, ◌%◌, ◌^◌, min, max, Bool, true, ◌&&◌, ◌||◌, Option, none, some, List, ltb, ◌==◌,
  if◌then◌else◌, length, take, drop, filter, is_some,
}
use copywraith.Common.Text.{Text}
use copywraith.Model.Entry.{ClipboardEntry}
use copywraith.Sync.Key.{text_lt}

abbrev pub max_limit : ℕ
max_limit = 200

unfoldable pub clamp_limit : ℕ → ℕ
clamp_limit limit = min (max limit 1) max_limit

-- What lies behind a cursor: an earlier instant, or the same with a smaller id where there is an id.
unfoldable pub before_cursor : Option ℕ → Option Text → ClipboardEntry → Bool
unfolding text_lt
before_cursor none id e = true
before_cursor (some t) none e = ltb e.updated_at t
before_cursor (some t) (some id) e = ltb e.updated_at t || (e.updated_at == t && text_lt e.id id)

pub record Listing : Type 0 where
  pub entries : List ClipboardEntry
  pub total : ℕ
  pub has_more : Bool

-- `effective_offset + limit` is a `u32`, and so is the total that it is compared with.
unfoldable pub list_entries : List ClipboardEntry → ℕ → ℕ → Option ℕ → Option Text → Listing
unfolding before_cursor clamp_limit
list_entries history requested offset before_updated_at before_id =
    let limit = clamp_limit requested in
    let effective_offset : ℕ = if is_some before_updated_at then 0 else offset in
    let matching = filter (before_cursor before_updated_at before_id) history in
    record {
      entries = take limit (drop effective_offset matching);
      total = length matching;
      has_more = ltb ((effective_offset + limit) % 2 ^ 32) (length matching % 2 ^ 32);
    }
