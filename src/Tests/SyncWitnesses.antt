-- ===== src/Tests/SyncWitnesses.antt =====
-- The theorems about synchronisation at concrete answers of the servers.
use copywraith.Common.{
  ◌≢◌, sym, ap, ◌∙◌, arith, ltb, ◌*◌, ◌<◌, ◌⊎◌, ◌≤◌, ℕ, ◌≡◌, refl, true, false, none, some, Option,
  [], ◌∷◌, Bool, any, not, replicate, List, ◌++◌,
}
use copywraith.Common.Text.{Text, Bytes, codes}
use copywraith.Common.Outcome.{ok, Outcome}
use copywraith.Model.Flavors.{text, no_flavors, Flavors}
use copywraith.Model.Entry.{ClipboardEntry}
use copywraith.Local.Table.{Store}
use copywraith.Sync.Endpoint.{ServerEndpoint, local, vpn, Settings}
use copywraith.Sync.Fetch.{PageReply, EntryResponse, no_answer}
use copywraith.Sync.Push.{Reply, answered, no_connection, push_entry_with_fallback, sync_queue}
use copywraith.Sync.Push.Laws.{
  accepts, refuses, refuses_credentials, reached, is_synced, is_rejected, is_unreachable,
  rejects_credentials, push_entry_with_fallback-synced, push_entry_with_fallback-failure,
}
use copywraith.Sync.Push.Batch.{pauses_early, attempted, sync_queue-pauses, sync_queue_complete}
use copywraith.Sync.Pull.Fuel.{EndsBy, pull_loop-ends}
use copywraith.Sync.Pull.{
  pull_loop, first_pass, out_of_fuel, PullState, Rounds, pull_new_entries, reset_pull_cursor,
}
use copywraith.Sync.Pull.Watermark.{NotBelow, pull_new_entries-NotBelow, pull_new_entries-reset}
use copywraith.Sync.Transfer.{transfer_timeout}
use copywraith.Sync.Transfer.Laws.{transfer_timeout_bounds}

abbrev home : ServerEndpoint
home = record { role = local; url = codes "http://home" }

abbrev tunnel : ServerEndpoint
tunnel = record { role = vpn; url = codes "http://tunnel" }

abbrev both : List ServerEndpoint
both = home ∷ tunnel ∷ []

-- The first address fails inside, the second refuses the key.
abbrev refusing : ServerEndpoint → Reply
refusing e = elim e.role [ local ↦ answered 500 | vpn ↦ answered 401 ]

abbrev accepting : ServerEndpoint → Reply
accepting e = elim e.role [ local ↦ no_connection | vpn ↦ answered 201 ]

push_entry_with_fallback-synced_example :
    is_synced (push_entry_with_fallback accepting both).0 ≡ any (λ e. accepts (accepting e)) both
push_entry_with_fallback-synced_example = push_entry_with_fallback-synced accepting both

push_entry_with_fallback-failure_example :
    (rejects_credentials (push_entry_with_fallback refusing both).0
      ≡ any (λ e. refuses_credentials (refusing e)) both)
    × (is_rejected (push_entry_with_fallback refusing both).0
        ≡ any (λ e. refuses (refusing e)) both)
    × (is_unreachable (push_entry_with_fallback refusing both).0
        ≡ not (any (λ e. reached (refusing e)) both))
push_entry_with_fallback-failure_example = push_entry_with_fallback-failure refusing both refl

abbrev digest : Bytes → Bytes
digest bytes = replicate 32 171

abbrev payload : Text → Flavors → Option Text → Bytes
payload t f hash = []

abbrev plain_base64 : Bytes → Text
plain_base64 bytes = bytes

abbrev entry : Text → ClipboardEntry
entry id = record {
  id = id;
  content_type = text;
  text_content = some (codes "hi");
  blob_hash = none;
  blob_size = none;
  source_app = none;
  flavors = no_flavors;
  starred = false;
  sensitive = false;
  created_at = 1;
  updated_at = 1;
}

abbrev queue : List ClipboardEntry
queue = entry (codes "a") ∷ entry (codes "b") ∷ []

abbrev empty : Store
empty = record { rows = []; blobs = [] }

sync_queue-pauses_example :
    (pauses_early
        (sync_queue digest payload plain_base64 (λ r. refusing) (λ s. s) both queue empty).0
      ≡ false)
    × ((left : List ClipboardEntry) × attempted
              (sync_queue digest payload plain_base64 (λ r. refusing) (λ s. s) both queue empty).0
            ++ left
          ≡ queue)
    × ((sync_queue digest payload plain_base64 (λ r. refusing) (λ s. s) [] queue empty).0 ≡ [])
sync_queue-pauses_example =
    sync_queue-pauses digest payload plain_base64 (λ r. refusing) (λ s. s) both queue empty

sync_queue_complete_example :
    attempted (sync_queue digest payload plain_base64 (λ r. accepting) (λ s. s) both queue empty).0
    ≡ queue
unfolding sync_queue
sync_queue_complete_example =
    sync_queue_complete digest payload plain_base64 (λ r. accepting) (λ s. s) home (tunnel ∷ [])
      queue empty refl

abbrev ignore : EntryResponse → ℕ → Outcome (Unit {0}) Bool × ℕ
ignore r n = (ok true, n)

abbrev silent : Rounds
silent = record {
  pages = λ round size cursor e. no_answer;
  recent = λ round. true;
  recent_at_end = false;
}

abbrev pulled_state : PullState
pulled_state = record {
  generation = 3;
  initialized = true;
  watermark = some (record { updated_at = 5; id = codes "a" });
  persisted = some (record { updated_at = 5; id = codes "a" });
}

pull_new_entries-NotBelow_example :
    NotBelow
      (pull_new_entries ignore silent 4 (λ s. s) both none pulled_state 0).state.watermark
      pulled_state.watermark
pull_new_entries-NotBelow_example =
    pull_new_entries-NotBelow ignore silent 4 (λ s. s) both none pulled_state 0

pull_new_entries-reset_example :
    (pull_new_entries ignore silent 4 reset_pull_cursor both none pulled_state 0).state
    ≡ reset_pull_cursor pulled_state
unfolding reset_pull_cursor
pull_new_entries-reset_example =
    pull_new_entries-reset ignore silent 4 reset_pull_cursor both none pulled_state 0 refl

transfer_timeout_bounds_example :
    (30 ≤ transfer_timeout 1)
    × (transfer_timeout 5000000 ≤ 3600)
    × (transfer_timeout 1 ≤ transfer_timeout 5000000)
    × ((transfer_timeout 5000000 ≡ 3600) ⊎ (5000000 < transfer_timeout 5000000 * (128 * 1024)))
transfer_timeout_bounds_example = transfer_timeout_bounds 1 5000000 (omega arith)

abbrev settings : Settings
settings = record {
  server_url_primary = codes "http://home/";
  server_url_fallback = codes "http://tunnel";
  api_key = [];
  shortcut_toggle_popup = [];
  shortcut_starred_popup = [];
  shortcut_paste_plaintext = [];
  shizuku_clipboard_enabled = false;
}

-- The first page has more, the others have not.
abbrev two_pages : Rounds
two_pages = record {
  pages = λ round size cursor e. PageReply.answered 200 (
      some (record {
        entries = record { entry = entry (codes "a"); blob_url = none } ∷ [];
        has_more = ltb round 1;
      }));
  recent = λ round. true;
  recent_at_end = true;
}

abbrev says_more : PageReply → Bool
says_more (PageReply.answered code (some p)) = p.has_more
says_more _ = false

two_pages-EndsBy : EndsBy 1 two_pages
two_pages-EndsBy round size code cursor e p late h = sym (ap says_more h) ∙ ground arith

pull_loop-ends_example :
    (pull_loop ignore two_pages false none 2 0 (first_pass both none pulled_state 0)).0
    ≢ out_of_fuel
pull_loop-ends_example =
    pull_loop-ends ignore two_pages false none 1 2 0 (first_pass both none pulled_state 0)
      two_pages-EndsBy (omega arith) (omega arith)
