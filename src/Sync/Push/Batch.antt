-- ===== src/Sync/Push/Batch.antt =====
-- The batch of `sync_unsynced_entries`: what is attempted, and where it stops.
use copywraith.Common.{
  ◌∙◌, subst, ◌≡◌, refl, inl, inr, Bool, true, false, ◌||◌, Option, List, [], ◌∷◌, ◌++◌, arith, any,
  map, Bool-cases, ap,
}
use copywraith.Common.Text.{Text, Bytes}
use copywraith.Model.Flavors.{Flavors}
use copywraith.Model.Entry.{ClipboardEntry}
use copywraith.Local.Table.{Store}
use copywraith.Sync.Endpoint.{ServerEndpoint}
use copywraith.Sync.Push.{
  synced, unreachable, failed, rejected, sync_queue, PushOutcome, Servers, pauses, push_entry,
  push_batch,
}
use copywraith.Sync.Push.Laws.{rejects_credentials, is_unreachable}

-- A refusal of the credentials, or no endpoint reached.
abbrev pub stops : PushOutcome → Bool
stops o = rejects_credentials o || is_unreachable o

pauses-stops : (o : PushOutcome) → pauses o ≡ stops o
unfolding pauses
pauses-stops synced = refl
pauses-stops unreachable = refl
pauses-stops failed = refl
pauses-stops (rejected r) = ground arith

-- Whether an outcome that stops the batch stands anywhere but at the end.
abbrev pub pauses_early : List (ClipboardEntry × PushOutcome) → Bool
pauses_early [] = false
pauses_early ((e, o) ∷ []) = false
pauses_early ((e, o) ∷ q ∷ rest) = stops o || pauses_early (q ∷ rest)

abbrev pub attempted : List (ClipboardEntry × PushOutcome) → List ClipboardEntry
attempted = map (λ p. p.0)

module _ (sha256 : Bytes → Bytes) (payload_json : Text → Flavors → Option Text → Bytes)
    (base64_encode : Bytes → Text) (servers : Servers) (during : Store → Store)
    (urls : List ServerEndpoint) where
  abbrev batch : List ClipboardEntry → Store → List (ClipboardEntry × PushOutcome)
  batch es s = (push_batch sha256 payload_json base64_encode servers during urls es s).0

  -- An entry that does not pause adds nothing but itself in front.
  pauses_early-cons :
      (e : ClipboardEntry) (o : PushOutcome) (r : List (ClipboardEntry × PushOutcome))
      → stops o ≡ false
      → pauses_early r ≡ false
      → pauses_early ((e, o) ∷ r) ≡ false
  pauses_early-cons e o [] h k = refl
  pauses_early-cons e o (q ∷ r) h k = rw (h, k) refl

  abbrev attempt : ClipboardEntry → Store → PushOutcome × Store
  attempt e s = push_entry sha256 payload_json base64_encode servers during urls e s

  batch-pausing :
      (e : ClipboardEntry) (es : List ClipboardEntry) (s : Store)
      → stops (attempt e s).0 ≡ true
      → batch (e ∷ es) s ≡ ((e, (attempt e s).0) ∷ [])
  unfolding push_batch
  batch-pausing e es s y = rw (pauses-stops (attempt e s).0 ∙ y, batch, push_batch) refl

  batch-going :
      (e : ClipboardEntry) (es : List ClipboardEntry) (s : Store)
      → stops (attempt e s).0 ≡ false
      → batch (e ∷ es) s ≡ ((e, (attempt e s).0) ∷ batch es (attempt e s).1)
  unfolding push_batch
  batch-going e es s n = rw (pauses-stops (attempt e s).0 ∙ n, batch, push_batch) refl

  pauses_early-batch : (es : List ClipboardEntry) (s : Store) → pauses_early (batch es s) ≡ false
  unfolding push_batch
  pauses_early-batch [] s = refl
  pauses_early-batch (e ∷ es) s = elim (Bool-cases (stops (attempt e s).0)) [
    | inl y ↦ rw (batch-pausing e es s y) refl
    | inr n ↦
        rw (batch-going e es s n)
          (pauses_early-cons e _ _ n (pauses_early-batch es (attempt e s).1))
  ]

  attempted-batch :
      (es : List ClipboardEntry) (s : Store)
      → (left : List ClipboardEntry) × attempted (batch es s) ++ left ≡ es
  unfolding push_batch
  attempted-batch [] s = ([], refl)
  attempted-batch (e ∷ es) s = elim (Bool-cases (stops (attempt e s).0)) [
    | inl y ↦ rw (batch-pausing e es s y) (es, refl)
    | inr n ↦
        let (left, front) = attempted-batch es (attempt e s).1 in
        rw (batch-going e es s n) (left, ap (λ xs. e ∷ xs) front)
  ]

  attempted-all :
      (es : List ClipboardEntry) (s : Store)
      → any (λ p. stops p.1) (batch es s) ≡ false
      → attempted (batch es s) ≡ es
  unfolding push_batch
  attempted-all [] s h = refl
  attempted-all (e ∷ es) s h = elim (Bool-cases (stops (attempt e s).0)) [
    | inl y ↦
        let k = subst (λ r. any (λ p. stops p.1) r ≡ false) (batch-pausing e es s y) h in
        ground arith
    | inr n ↦
        let k = subst (λ r. any (λ p. stops p.1) r ≡ false) (batch-going e es s n) h in
        rw (batch-going e es s n)
          (ap (λ xs. e ∷ xs) (attempted-all es (attempt e s).1 (ground arith)))
  ]

module _ (sha256 : Bytes → Bytes) (payload_json : Text → Flavors → Option Text → Bytes)
    (base64_encode : Bytes → Text) (servers : Servers) (during : Store → Store) where
  abbrev pushed :
      List ServerEndpoint → List ClipboardEntry → Store → List (ClipboardEntry × PushOutcome)
  pushed urls es s = (sync_queue sha256 payload_json base64_encode servers during urls es s).0

  -- Behind an outcome that rejects the credentials or reaches no endpoint nothing more is attempted,
  -- what is attempted is the front of the queue in its order, and nothing is without a server.
  pub sync_queue-pauses :
      (urls : List ServerEndpoint) (es : List ClipboardEntry) (s : Store)
      → (pauses_early (pushed urls es s) ≡ false)
        × ((left : List ClipboardEntry) × attempted (pushed urls es s) ++ left ≡ es)
        × (pushed [] es s ≡ [])
  unfolding sync_queue
  sync_queue-pauses [] es s = (refl, (es, refl), refl)
  sync_queue-pauses (url ∷ urls) es s = (
    pauses_early-batch sha256 payload_json base64_encode servers during (url ∷ urls) es s,
    attempted-batch sha256 payload_json base64_encode servers during (url ∷ urls) es s,
    refl,
  )

  -- With a server, every entry of the queue is attempted, in its order, if no attempt rejects the
  -- credentials or reaches no endpoint: a failure or a refusal of one entry does not hold up the rest.
  pub sync_queue_complete :
      (url : ServerEndpoint) (urls : List ServerEndpoint) (es : List ClipboardEntry) (s : Store)
      → any (λ p. stops p.1) (pushed (url ∷ urls) es s) ≡ false
      → attempted (pushed (url ∷ urls) es s) ≡ es
  unfolding sync_queue
  sync_queue_complete url urls es s h =
      attempted-all sha256 payload_json base64_encode servers during (url ∷ urls) es s h
