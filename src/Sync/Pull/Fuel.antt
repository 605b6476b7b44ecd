-- ===== src/Sync/Pull/Fuel.antt =====
-- When a pull ends.
use copywraith.Common.{
  ℕ, zero, suc, ◌+◌, ◌≤◌, ◌≡◌, ◌≢◌, refl, Bool, true, false, Option, none, some, List, [], ◌∷◌,
  arith, inl, inr, Bool-cases,
}
use copywraith.Common.Outcome.{Outcome}
use copywraith.Sync.Key.{Key}
use copywraith.Sync.Endpoint.{ServerEndpoint}
use copywraith.Sync.Push.{Rejection, is_success}
use copywraith.Sync.Fetch.{
  EntryResponse, Page, PageReply, invalid_url, no_answer, answered, PageFetch, page, page_rejected,
  page_unreachable, first_rejected, fetch_loop,
}
use copywraith.Sync.Paging.{Pass, take_page, next_page}
use copywraith.Sync.Pull.{PassEnd, out_of_fuel, Rounds, pull_loop, after_fetch, go_on}

-- From a round on, no server says that it has more.
abbrev pub EndsBy : ℕ → Rounds → Type 0
EndsBy last get =
    (round size code : ℕ) (cursor : Option Key) (e : ServerEndpoint) (p : Page)
    → last ≤ round
    → get.pages round size cursor e ≡ answered code (some p)
    → p.has_more ≡ false

-- A page that is fetched has what the pages of all endpoints have.
abbrev FromPage : (Page → Type 0) → PageFetch → Type 0
FromPage P (page p index) = P p
FromPage P _ = Unit

first_rejected-FromPage :
    (P : Page → Type 0) (first : Option (ServerEndpoint × Rejection))
    → FromPage P (first_rejected first)
first_rejected-FromPage P none = tt
first_rejected-FromPage P (some (e, r)) = tt

module _ (P : Page → Type 0) (get : ServerEndpoint → PageReply)
    (good : (e : ServerEndpoint) (code : ℕ) (p : Page) → get e ≡ answered code (some p) → P p) where
  fetch_step :
      (first : Option (ServerEndpoint × Rejection)) (index : ℕ) (e : ServerEndpoint)
      (es : List ServerEndpoint) (reply : PageReply)
      → get e ≡ reply
      → ((f : Option (ServerEndpoint × Rejection)) → FromPage P (fetch_loop get f (index + 1) es))
      → FromPage P (fetch_loop get first index (e ∷ es))
  unfolding fetch_loop
  fetch_step first index e es invalid_url h ih = rw (h, fetch_loop) (ih first)
  fetch_step first index e es no_answer h ih = rw (h, fetch_loop) (ih first)
  fetch_step first index e es (answered code none) h ih = elim (Bool-cases (is_success code)) [
    | inl y ↦ rw (h, fetch_loop, y) (ih _)
    | inr n ↦ rw (h, fetch_loop, n) (ih _)
  ]
  fetch_step first index e es (answered code (some p)) h ih = elim (Bool-cases (is_success code)) [
    | inl y ↦ rw (h, fetch_loop, y) (good e code p h)
    | inr n ↦ rw (h, fetch_loop, n) (ih _)
  ]

  fetch_loop-FromPage :
      (first : Option (ServerEndpoint × Rejection)) (index : ℕ) (es : List ServerEndpoint)
      → FromPage P (fetch_loop get first index es)
  unfolding fetch_loop
  fetch_loop-FromPage first index [] = first_rejected-FromPage P first
  fetch_loop-FromPage first index (e ∷ es) =
      fetch_step first index e es (get e) refl (λ f. fetch_loop-FromPage f (index + 1) es)

module _ {S : Type 0} (ingest : EntryResponse → S → Outcome (Unit {0}) Bool × S) where
  next_page-none : (last : Key) (r : Bool × Pass S) → (next_page ingest false last r).0 ≡ none
  unfolding next_page
  next_page-none last (true, w) = refl
  next_page-none last (false, w) = refl

  take_page-none :
      (initialized : Bool) (watermark : Option Key) (entries : List EntryResponse) (has_more : Bool)
      (index : ℕ) (w : Pass S)
      → has_more ≡ false
      → (take_page ingest initialized watermark
          (record { entries = entries; has_more = has_more })
          index
          w).0
        ≡ none
  unfolding take_page
  take_page-none initialized watermark [] has_more index w h = refl
  take_page-none initialized watermark (r ∷ rs) has_more index w h = rw h (next_page-none _ _)

  module _ (again : Pass S → PassEnd × Pass S) where
    go_on-none :
        (t : Option (Pass S) × Pass S) → t.0 ≡ none → (go_on ingest again t).0 ≢ out_of_fuel
    unfolding go_on
    go_on-none (none, w) h = λ e. cc
    go_on-none (some v, w) h = λ e. cc

    go_on-next :
        (t : Option (Pass S) × Pass S)
        → ((v : Pass S) → (again v).0 ≢ out_of_fuel)
        → (go_on ingest again t).0 ≢ out_of_fuel
    unfolding go_on
    go_on-next (none, w) next = λ e. cc
    go_on-next (some v, w) next = next v

    after_fetch-ends :
        (f : ℕ) (recent initialized : Bool) (watermark : Option Key) (fetched : PageFetch)
        (w : Pass S)
        → (1 ≤ f → (v : Pass S) → (again v).0 ≢ out_of_fuel)
        → (f ≡ 0 → FromPage (λ p. p.has_more ≡ false) fetched)
        → (after_fetch ingest again recent initialized watermark fetched w).0 ≢ out_of_fuel
    unfolding after_fetch
    after_fetch-ends f recent initialized watermark (page_rejected e r) w next no_more = λ e. cc
    after_fetch-ends f recent initialized watermark page_unreachable w next no_more = λ e. cc
    after_fetch-ends zero recent initialized watermark (page p index) w next no_more =
        go_on-none _
          (take_page-none initialized watermark p.entries p.has_more index w (no_more refl))
    after_fetch-ends (suc f) recent initialized watermark (page p index) w next no_more =
        go_on-next (take_page ingest initialized watermark p index w) (next (omega arith))

  -- If no server says that it has more from some round on, a pull with one unit of fuel for each round
  -- up to that one ends by itself or with a status to report.
  pub pull_loop-ends :
      (get : Rounds) (initialized : Bool) (watermark : Option Key) (last fuel round : ℕ)
      (w : Pass S)
      → EndsBy last get
      → 1 ≤ fuel
      → last + 1 ≤ fuel + round
      → (pull_loop ingest get initialized watermark fuel round w).0 ≢ out_of_fuel
  unfolding pull_loop
  pull_loop-ends get initialized watermark last zero round w ends some_fuel enough =
      absurd (omega arith)
  pull_loop-ends get initialized watermark last (suc f) round w ends some_fuel enough =
      after_fetch-ends (pull_loop ingest get initialized watermark f (round + 1)) f
        (get.recent round) initialized watermark _ w
        (λ more v.
          pull_loop-ends get initialized watermark last f (round + 1) v ends more (omega arith))
        (λ out.
          fetch_loop-FromPage (λ p. p.has_more ≡ false)
            (get.pages round w.page_size w.before_cursor)
            (λ e code p h. ends round w.page_size code w.before_cursor e p (omega arith) h) none 0
            w.urls)
