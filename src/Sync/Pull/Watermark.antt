-- ===== src/Sync/Pull/Watermark.antt =====
-- How a pass moves the watermark.
use copywraith.Common.{
  ℕ, ◌≡◌, refl, sym, ◌∙◌, Bool, true, false, not, ◌||◌, Option, none, some, List, [], ◌∷◌, ◌==◌,
  arith, inl, inr, Bool-cases,
}
use copywraith.Common.Outcome.{Outcome}
use copywraith.Sync.Key.{Key, key_lt, key_lt_irrefl, key_lt_trans}
use copywraith.Sync.Endpoint.{ServerEndpoint}
use copywraith.Sync.Fetch.{EntryResponse}
use copywraith.Sync.Paging.{Pass}
use copywraith.Sync.Pull.{
  PullState, PassEnd, finished, out_of_fuel, stopped, Rounds, promote_key, promote, conclude,
  pull_loop, first_pass, pull_new_entries, advances,
}

-- A watermark that is not below another; none is below all.
abbrev pub NotBelow : Option Key → Option Key → Type 0
NotBelow new none = Unit
NotBelow none (some k) = ⊥
NotBelow (some l) (some k) = key_lt l k ≡ false

false-true : false ≡ true → ⊥
false-true h = cc

key_lt_asym : (a b : Key) → key_lt a b ≡ true → key_lt b a ≡ false
key_lt_asym a b h = elim (Bool-cases (key_lt b a)) [
  | inl y ↦ absurd (false-true (sym (key_lt_irrefl a) ∙ key_lt_trans a b a h y))
  | inr n ↦ n
]

NotBelow-refl : (w : Option Key) → NotBelow w w
NotBelow-refl none = tt
NotBelow-refl (some k) = key_lt_irrefl k

-- By the watermark, so that it can be split.
advance-NotBelow : (w : Option Key) (k : Key) → advances w k ≡ true → NotBelow (some k) w
advance-NotBelow none k h = tt
advance-NotBelow (some l) k h = key_lt_asym l k h

promote_key-NotBelow :
    (newest : Option Key) (had_error : Bool) (generation : ℕ) (s : PullState)
    → NotBelow (promote_key newest had_error generation s).watermark s.watermark
unfolding promote_key
promote_key-NotBelow none had_error generation s = NotBelow-refl s.watermark
promote_key-NotBelow (some k) had_error generation s =
    elim (Bool-cases (had_error || not (s.generation == generation))) [
      | inl y ↦ rw (y, promote_key) (NotBelow-refl s.watermark)
      | inr n ↦ elim (Bool-cases (advances s.watermark k)) [
        | inl y ↦ rw (n, promote_key, y) (advance-NotBelow s.watermark k y)
        | inr m ↦ rw (n, promote_key, m) (NotBelow-refl s.watermark)
      ]
    ]

promote_key-stale :
    (newest : Option Key) (had_error : Bool) (generation : ℕ) (s : PullState)
    → (s.generation == generation) ≡ false
    → promote_key newest had_error generation s ≡ s
unfolding promote_key
promote_key-stale none had_error generation s h = refl
promote_key-stale (some k) had_error generation s h = ground arith

module _ {S : Type 0} (ingest : EntryResponse → S → Outcome (Unit {0}) Bool × S) where
  -- Whatever the servers answer, however ingesting ends and whatever other tasks did to the cursor
  -- meanwhile, the watermark that a pass leaves is not below the one it found at its end.
  pub pull_new_entries-NotBelow :
      (get : Rounds) (fuel : ℕ) (others : PullState → PullState) (urls : List ServerEndpoint)
      (heartbeat : Option ServerEndpoint) (s : PullState) (store : S)
      → NotBelow
          (pull_new_entries ingest get fuel others urls heartbeat s store).state.watermark
          (others s).watermark
  unfolding pull_new_entries conclude promote
  pull_new_entries-NotBelow get fuel others [] heartbeat s store =
      NotBelow-refl (others s).watermark
  pull_new_entries-NotBelow get fuel others (e ∷ es) heartbeat s store = go (
      pull_loop ingest get s.initialized s.watermark fuel 0 (first_pass (e ∷ es) heartbeat s store))
    where
      go :
          (r : PassEnd × Pass S)
          → NotBelow (conclude get.recent_at_end others s r).state.watermark (others s).watermark
      go (finished, w) =
          promote_key-NotBelow w.newest_seen w.had_ingest_error s.generation (others s)
      go (stopped st, w) = NotBelow-refl (others s).watermark
      go (out_of_fuel, w) = NotBelow-refl (others s).watermark

  -- A pass during which the cursor was reset leaves the state of the cursor as the reset left it.
  pub pull_new_entries-reset :
      (get : Rounds) (fuel : ℕ) (others : PullState → PullState) (urls : List ServerEndpoint)
      (heartbeat : Option ServerEndpoint) (s : PullState) (store : S)
      → ((others s).generation == s.generation) ≡ false
      → (pull_new_entries ingest get fuel others urls heartbeat s store).state ≡ others s
  unfolding pull_new_entries conclude promote
  pull_new_entries-reset get fuel others [] heartbeat s store h = refl
  pull_new_entries-reset get fuel others (e ∷ es) heartbeat s store h = go (
      pull_loop ingest get s.initialized s.watermark fuel 0 (first_pass (e ∷ es) heartbeat s store))
    where
      go : (r : PassEnd × Pass S) → (conclude get.recent_at_end others s r).state ≡ others s
      go (finished, w) =
          promote_key-stale w.newest_seen w.had_ingest_error s.generation (others s) h
      go (stopped st, w) = refl
      go (out_of_fuel, w) = refl
