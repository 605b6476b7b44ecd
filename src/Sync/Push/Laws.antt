-- ===== src/Sync/Push/Laws.antt =====
-- How a push over several endpoints ends.
use copywraith.Common.{
  ◌∙◌, ℕ, ◌≡◌, refl, inl, inr, Bool, true, false, not, ◌&&◌, ◌||◌, Option, none, some, List, [],
  ◌∷◌, arith, any, Bool-cases, ◌==◌,
}
use copywraith.Sync.Endpoint.{ServerEndpoint}
use copywraith.Sync.Push.{
  Rejection, from_status, is_credential_problem, outrank, PushOutcome, synced, unreachable,
  rejected, Reply, answered, no_connection, interrupted, is_success, exhausted, push_loop,
  push_entry_with_fallback,
}

-- What an endpoint's answer is, seen alone.
abbrev pub accepts : Reply → Bool
accepts (answered code) = is_success code
accepts _ = false

abbrev pub refuses_credentials : Reply → Bool
refuses_credentials (answered code) = code == 401 || code == 403
refuses_credentials _ = false

abbrev pub refuses : Reply → Bool
refuses (answered code) = not (is_success code)
refuses _ = false

abbrev pub reached : Reply → Bool
reached no_connection = false
reached _ = true

-- What the loop has seen so far.
abbrev credential : Option Rejection → Bool
credential none = false
credential (some r) = is_credential_problem r

abbrev seen : Option Rejection → Bool
seen none = false
seen (some _) = true

abbrev pub is_synced : PushOutcome → Bool
is_synced synced = true
is_synced _ = false

abbrev pub is_rejected : PushOutcome → Bool
is_rejected (rejected _) = true
is_rejected _ = false

abbrev pub rejects_credentials : PushOutcome → Bool
rejects_credentials (rejected r) = is_credential_problem r
rejects_credentials _ = false

abbrev pub is_unreachable : PushOutcome → Bool
is_unreachable unreachable = true
is_unreachable _ = false

-- The outcome in terms of all answers, for a loop that has seen a rejection or a connection before.
record Ends (post : ServerEndpoint → Reply) (r : Option Rejection) (c : Bool)
    (es : List ServerEndpoint) (o : PushOutcome) : Type 0 where
  success : is_synced o ≡ any (λ e. accepts (post e)) es
  credentials :
      any (λ e. accepts (post e)) es ≡ false
      → rejects_credentials o ≡ (credential r || any (λ e. refuses_credentials (post e)) es)
  rejection :
      any (λ e. accepts (post e)) es ≡ false
      → is_rejected o ≡ (seen r || any (λ e. refuses (post e)) es)
  silence :
      any (λ e. accepts (post e)) es ≡ false
      → is_unreachable o ≡ (
          not (seen r || any (λ e. refuses (post e)) es)
          && not (c || any (λ e. reached (post e)) es))

from_status-credential :
    (code : ℕ) → is_credential_problem (from_status code) ≡ (code == 401 || code == 403)
unfolding from_status is_credential_problem
from_status-credential code = ground arith

outrank-credential :
    (r : Rejection) (earlier : Option Rejection)
    → is_credential_problem (outrank r earlier) ≡ (credential earlier || is_credential_problem r)
unfolding outrank
outrank-credential r none = refl
outrank-credential r (some q) = ground arith

module _ (post : ServerEndpoint → Reply) where
  Ends-none : (r : Option Rejection) (c : Bool) → Ends post r c [] (exhausted r c)
  unfolding exhausted
  Ends-none none true = record {
    success = refl;
    credentials = λ h. refl;
    rejection = λ h. refl;
    silence = λ h. refl;
  }
  Ends-none none false = record {
    success = refl;
    credentials = λ h. refl;
    rejection = λ h. refl;
    silence = λ h. refl;
  }
  Ends-none (some r) c = record {
    success = refl;
    credentials = λ h. ground arith;
    rejection = λ h. refl;
    silence = λ h. refl;
  }

  -- One endpoint more in front, by its answer.
  Ends-answer :
      (r : Option Rejection) (c : Bool) (e : ServerEndpoint) (es : List ServerEndpoint)
      (reply : Reply)
      → post e ≡ reply
      → ((q : Option Rejection) (d : Bool) → Ends post q d es (push_loop post q d es).0)
      → Ends post r c (e ∷ es) (push_loop post r c (e ∷ es)).0
  unfolding push_loop
  Ends-answer r c e es no_connection h ih =
      let i = ih r c in
      rw (h, push_loop)
        (record {
          success = ground (arith, i.success);
          credentials = λ k. ground (arith, i.credentials);
          rejection = λ k. ground (arith, i.rejection);
          silence = λ k. ground (arith, i.silence);
        })
  Ends-answer r c e es interrupted h ih =
      let i = ih r true in
      rw (h, push_loop)
        (record {
          success = ground (arith, i.success);
          credentials = λ k. ground (arith, i.credentials);
          rejection = λ k. ground (arith, i.rejection);
          silence = λ k. ground (arith, i.silence);
        })
  Ends-answer r c e es (answered code) h ih = elim (Bool-cases (is_success code)) [
    | inl y ↦
        rw (h, push_loop, y)
          (record {
            success = rw (h, y) refl;
            credentials = λ k. ground arith;
            rejection = λ k. ground arith;
            silence = λ k. ground arith;
          })
    | inr n ↦
        let q = outrank (from_status code) r in
        let i = ih (some q) true in
        rw (h, push_loop, n)
          (record {
            success = ground (arith, i.success);
            credentials = λ k. ground (
              arith,
              i.credentials,
              from_status-credential code,
              outrank-credential (from_status code) r,
            );
            rejection = λ k. ground (arith, i.rejection);
            silence = λ k. ground (arith, i.silence);
          })
  ]

  push_loop-Ends :
      (r : Option Rejection) (c : Bool) (es : List ServerEndpoint)
      → Ends post r c es (push_loop post r c es).0
  unfolding push_loop
  push_loop-Ends r c [] = Ends-none r c
  push_loop-Ends r c (e ∷ es) = Ends-answer r c e es (post e) refl (λ q d. push_loop-Ends q d es)

-- An answer with a status is an answer.
refusal_reaches :
    (reply : Reply) (a b : Bool)
    → (not a && not b) ≡ not b
    → (not (refuses reply || a) && not (reached reply || b)) ≡ not (reached reply || b)
refusal_reaches no_connection a b h = h
refusal_reaches interrupted a b h = ground arith
refusal_reaches (answered code) a b h = ground arith

refuses-reached :
    (post : ServerEndpoint → Reply) (es : List ServerEndpoint)
    → (not (any (λ e. refuses (post e)) es) && not (any (λ e. reached (post e)) es))
      ≡ not (any (λ e. reached (post e)) es)
refuses-reached post [] = refl
refuses-reached post (e ∷ es) = refusal_reaches (post e) _ _ (refuses-reached post es)

-- A push ends as synced if and only if some endpoint answers with a success status.
pub push_entry_with_fallback-synced :
    (post : ServerEndpoint → Reply) (es : List ServerEndpoint)
    → is_synced (push_entry_with_fallback post es).0 ≡ any (λ e. accepts (post e)) es
unfolding push_entry_with_fallback
push_entry_with_fallback-synced post es = (push_loop-Ends post none false es).success

-- A push that no endpoint accepts ends as rejected for the credentials if and only if some
-- endpoint answers 401 or 403, whatever the others answer and in whatever order; as rejected if
-- and only if some endpoint answers with a status; and as unreachable if and only if no connection
-- was made to any.
pub push_entry_with_fallback-failure :
    (post : ServerEndpoint → Reply) (es : List ServerEndpoint)
    → any (λ e. accepts (post e)) es ≡ false
    → (rejects_credentials (push_entry_with_fallback post es).0
        ≡ any (λ e. refuses_credentials (post e)) es)
      × (is_rejected (push_entry_with_fallback post es).0 ≡ any (λ e. refuses (post e)) es)
      × (is_unreachable (push_entry_with_fallback post es).0 ≡ not (any (λ e. reached (post e)) es))
unfolding push_entry_with_fallback
push_entry_with_fallback-failure post es h =
    let ends = push_loop-Ends post none false es in
    (ends.credentials h, ends.rejection h, ends.silence h ∙ refuses-reached post es)
