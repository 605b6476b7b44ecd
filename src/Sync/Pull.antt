-- ===== src/Sync/Pull.antt =====
-- `pull_new_entries` of src-tauri/src/sync.rs with its watermark, and `reset_pull_cursor`. What the
-- servers answer in each round, and what ingesting an entry does to a state `S`, are arguments.
pub mod Watermark
pub mod Fuel
use copywraith.Common.{
  ℕ, zero, suc, ◌+◌, ◌-◌, Bool, true, false, not, ◌&&◌, ◌||◌, Option, none, some, List, [], ◌∷◌,
  ltb, leb, ◌==◌, if◌then◌else◌, is_none, is_some, or_else, unwrap_or,
}
use copywraith.Common.Text.{Text}
use copywraith.Common.Outcome.{Outcome, ok, err}
use copywraith.Model.Entry.{ClipboardEntry}
use copywraith.Sync.Endpoint.{ServerEndpoint}
use copywraith.Sync.Key.{Key, key_of, key_lt, key_le}
use copywraith.Sync.Paging.{full_page_size, probe_page_size, Pass, first_of_list, take_page}
use copywraith.Sync.Fetch.{
  EntryResponse, Page, PageReply, PageFetch, page, page_rejected, page_unreachable, SyncState,
  disabled, online, sync_unreachable, SyncEndpointStatus, rejected_status, online_status,
  fetch_loop,
}

-- `PullState`, with the watermark that the settings table holds beside it.
pub record PullState : Type 0 where
  pub generation : ℕ
  pub initialized : Bool
  pub watermark : Option Key
  pub persisted : Option Key

-- `SyncClient::new`
unfoldable pub restored : Option Key → PullState
restored saved = record {
  generation = 0;
  initialized = is_some saved;
  watermark = saved;
  persisted = saved;
}

unfoldable pub reset_pull_cursor : PullState → PullState
reset_pull_cursor s = record {
  generation = s.generation + 1;
  initialized = false;
  watermark = none;
  persisted = none;
}

-- How the loop ended: by itself, or with a status to report at once. `out_of_fuel` is a pass that
-- takes more rounds than were allowed.
pub data PassEnd : Type 0 where
  finished out_of_fuel : PassEnd
  stopped : SyncEndpointStatus → PassEnd

-- What the servers answer, by round, page size and cursor.
-- `recent` says whether the last response is at most 30 seconds old by then, as
-- `recent_responding_status` asks.
pub record Rounds : Type 0 where
  pub pages : ℕ → ℕ → Option Key → ServerEndpoint → PageReply
  pub recent : ℕ → Bool
  pub recent_at_end : Bool

-- The fallback status names the endpoint that responded last, if that was recent.
abbrev pub unreachable_status :
    Bool → Option ServerEndpoint → List ServerEndpoint → SyncEndpointStatus
unreachable_status true (some e) urls = online_status e
unreachable_status _ _ urls = record { state = sync_unreachable; endpoint = first_of_list urls }

module _ {S : Type 0} (ingest : EntryResponse → S → Outcome (Unit {0}) Bool × S) where
  go_on : (Pass S → PassEnd × Pass S) → Option (Pass S) × Pass S → PassEnd × Pass S
  go_on again (none, w) = (finished, w)
  go_on again (some w', w) = again w'

  after_fetch :
      (Pass S → PassEnd × Pass S) → Bool → Bool → Option Key → PageFetch → Pass S → PassEnd × Pass S
  unfolding go_on take_page rejected_status
  after_fetch again recent initialized watermark (page_rejected e r) w =
      (stopped (rejected_status e r), w)
  after_fetch again recent initialized watermark page_unreachable w =
      (stopped (unreachable_status recent w.heartbeat w.urls), w)
  after_fetch again recent initialized watermark (page p index) w =
      go_on again (take_page ingest initialized watermark p index w)

  unfoldable pub pull_loop : Rounds → Bool → Option Key → ℕ → ℕ → Pass S → PassEnd × Pass S
  unfolding after_fetch fetch_loop
  pull_loop get initialized watermark zero round w = (out_of_fuel, w)
  pull_loop get initialized watermark (suc fuel) round w =
      after_fetch (pull_loop get initialized watermark fuel (round + 1)) (get.recent round)
        initialized watermark
        (fetch_loop (get.pages round w.page_size w.before_cursor) none 0 w.urls) w

-- Whether a key lies above the watermark.
abbrev pub advances : Option Key → Key → Bool
advances none k = true
advances (some watermark) k = key_lt watermark k

-- The end of a pass. `s` is the state that the lock gives then, after any resets in between.
promote_key : Option Key → Bool → ℕ → PullState → PullState
unfolding key_lt
promote_key none had_error generation s = s
promote_key (some k) had_error generation s =
    if had_error || not (s.generation == generation)
    then s
    else if advances s.watermark k
    then record s { watermark = some k; persisted = some k; initialized = true }
    else record s { initialized = true }

unfoldable pub promote : {S : Type 0} → ℕ → Pass S → PullState → PullState
unfolding promote_key
promote generation w s = promote_key w.newest_seen w.had_ingest_error generation s

unfoldable pub first_pass :
    {S : Type 0} → List ServerEndpoint → Option ServerEndpoint → PullState → S → Pass S
first_pass urls heartbeat s store = record {
  urls = urls;
  before_cursor = none;
  page_size = if s.initialized && is_some s.watermark then probe_page_size else full_page_size;
  pulled = 0;
  newest_seen = none;
  had_ingest_error = false;
  active_endpoint = none;
  heartbeat = heartbeat;
  store = store;
}

abbrev pub final_status : {S : Type 0} → Bool → Pass S → SyncEndpointStatus
final_status recent w = elim w.active_endpoint [
  | some e ↦ online_status e
  | none ↦ unreachable_status recent w.heartbeat w.urls
]

pub record Pulled (S : Type 0) : Type 0 where
  pub count : ℕ
  pub status : SyncEndpointStatus
  pub state : PullState
  pub store : S

-- `others` is what other tasks did to the cursor during the pass.
conclude : {S : Type 0} → Bool → (PullState → PullState) → PullState → PassEnd × Pass S → Pulled S
unfolding promote
conclude recent others s (finished, w) = record {
  count = w.pulled;
  status = final_status recent w;
  state = promote s.generation w (others s);
  store = w.store;
}
conclude recent others s (stopped st, w) = record {
  count = w.pulled;
  status = st;
  state = others s;
  store = w.store;
}
conclude recent others s (out_of_fuel, w) = record {
  count = w.pulled;
  status = final_status recent w;
  state = others s;
  store = w.store;
}

unfoldable pub pull_new_entries :
    {S : Type 0}
    → (EntryResponse → S → Outcome (Unit {0}) Bool × S)
    → Rounds
    → ℕ
    → (PullState → PullState)
    → List ServerEndpoint
    → Option ServerEndpoint
    → PullState
    → S
    → Pulled S
unfolding conclude pull_loop first_pass
pull_new_entries ingest get fuel others [] heartbeat s store = record {
  count = 0;
  status = record { state = disabled; endpoint = none };
  state = others s;
  store = store;
}
pull_new_entries ingest get fuel others (e ∷ es) heartbeat s store =
    conclude get.recent_at_end others s (
      pull_loop ingest get s.initialized s.watermark fuel 0 (first_pass (e ∷ es) heartbeat s store))
