-- ===== src/Sync/Paging.antt =====
-- One page of a pull in `pull_new_entries` of src-tauri/src/sync.rs: the loop's variables, the loop
-- over the entries of a page, and how the pull goes on behind it.
use copywraith.Common.{
  ℕ, zero, suc, ◌+◌, Bool, true, false, not, ◌&&◌, ◌||◌, Option, none, some, List, [], ◌∷◌,
  if◌then◌else◌, or_else,
}
use copywraith.Common.Outcome.{Outcome, ok, err}
use copywraith.Model.Entry.{ClipboardEntry}
use copywraith.Sync.Endpoint.{ServerEndpoint}
use copywraith.Sync.Key.{Key, key_of, key_le}
use copywraith.Sync.Fetch.{EntryResponse, Page}

abbrev pub full_page_size : ℕ
full_page_size = 100

abbrev pub probe_page_size : ℕ
probe_page_size = 1

-- The loop's variables. `urls` has the endpoint that answered last in front; `heartbeat` is the
-- endpoint that `note_responding_endpoint` noted.
pub record Pass (S : Type 0) : Type 0 where
  pub urls : List ServerEndpoint
  pub before_cursor : Option Key
  pub page_size : ℕ
  pub pulled : ℕ
  pub newest_seen : Option Key
  pub had_ingest_error : Bool
  pub active_endpoint : Option ServerEndpoint
  pub heartbeat : Option ServerEndpoint
  pub store : S

-- `swap(0, index)`
swap_in : ℕ → ServerEndpoint → List ServerEndpoint → ServerEndpoint × List ServerEndpoint
swap_in i first [] = (first, [])
swap_in zero first (e ∷ es) = (e, first ∷ es)
swap_in (suc i) first (e ∷ es) = let (chosen, rest) = swap_in i first es in (chosen, e ∷ rest)

unfoldable pub swap_to_front : ℕ → List ServerEndpoint → List ServerEndpoint
unfolding swap_in
swap_to_front i [] = []
swap_to_front zero es = es
swap_to_front (suc i) (e ∷ es) = let (chosen, rest) = swap_in i e es in chosen ∷ rest

abbrev pub first_of_list : List ServerEndpoint → Option ServerEndpoint
first_of_list [] = none
first_of_list (e ∷ es) = some e

-- Whether the pass has come to entries that were pulled before.
unfoldable pub reaches_watermark : Bool → Option Key → ClipboardEntry → Bool
unfolding key_le key_of
reaches_watermark initialized none e = false
reaches_watermark initialized (some watermark) e = initialized && key_le (key_of e) watermark

module _ {S : Type 0} (ingest : EntryResponse → S → Outcome (Unit {0}) Bool × S) where
  ingested : Pass S → Outcome (Unit {0}) Bool × S → Pass S
  ingested w (ok true, s) = record w { pulled = w.pulled + 1; store = s }
  ingested w (ok false, s) = record w { store = s }
  ingested w (err _, s) = record w { had_ingest_error = true; store = s }

  unfoldable pub ingest_one : EntryResponse → Pass S → Pass S
  unfolding ingested
  ingest_one r w = ingested w (ingest r w.store)

  -- The loop over a page; whether it reached the watermark.
  unfoldable pub ingest_page : Bool → Option Key → List EntryResponse → Pass S → Bool × Pass S
  unfolding ingest_one reaches_watermark
  ingest_page initialized watermark [] w = (false, w)
  ingest_page initialized watermark (r ∷ rs) w =
      let rest = ingest_page initialized watermark rs (ingest_one r w) in
      if reaches_watermark initialized watermark r.entry then (true, w) else rest

  abbrev last_key : Key → List EntryResponse → Key
  last_key k [] = k
  last_key k (r ∷ rs) = last_key (key_of r.entry) rs

  -- A page is taken: the endpoint that gave it moves to the front.
  noted : ℕ → Pass S → Pass S
  unfolding swap_to_front
  noted index w =
      let urls = swap_to_front index w.urls in
      record w {
        urls = urls;
        active_endpoint = or_else w.active_endpoint (first_of_list urls);
        heartbeat = first_of_list urls;
      }

  -- How the loop goes on behind a page: the cursor is set to its last entry, or the pass ends.
  unfoldable pub next_page : Bool → Key → Bool × Pass S → Option (Pass S) × Pass S
  next_page has_more last (reached, w) =
      if reached || not has_more
      then (none, w)
      else (some (record w { before_cursor = some last; page_size = full_page_size }), w)

  -- The rest of the body of the loop for one page; `none` where the loop ends.
  unfoldable pub take_page : Bool → Option Key → Page → ℕ → Pass S → Option (Pass S) × Pass S
  unfolding noted ingest_page next_page key_of
  take_page initialized watermark p index w = elim p.entries [
    | [] ↦ (none, noted index w)
    | r ∷ rs ↦
        let w' = noted index w in
        let w'' = record w' { newest_seen = or_else w'.newest_seen (some (key_of r.entry)) } in
        next_page p.has_more (last_key (key_of r.entry) rs)
          (ingest_page initialized watermark (r ∷ rs) w'')
  ]
