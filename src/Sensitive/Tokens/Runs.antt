-- ===== src/Sensitive/Tokens/Runs.antt =====
-- The loop over lowercase letters finds the runs that a search of all positions finds.
use copywraith.Common.{
  ℕ, suc, ◌+◌, ◌≤◌, ◌<◌, ◌≡◌, Bool, true, false, ◌||◌, [], ◌∷◌, arith, leb, if◌then◌else◌,
}
use copywraith.Common.Text.{Bytes, is_lower}
use copywraith.Sensitive.Tokens.{lowercase_run_from, has_lowercase_run}

-- How many lowercase letters the bytes begin with.
abbrev pub leading_lower : Bytes → ℕ
leading_lower [] = 0
leading_lower (b ∷ bs) = let rest = leading_lower bs in if is_lower b then suc rest else 0

-- Whether `k` lowercase letters stand in a row somewhere.
abbrev pub run_somewhere : ℕ → Bytes → Bool
run_somewhere k [] = false
run_somewhere k (b ∷ bs) = leb k (leading_lower (b ∷ bs)) || run_somewhere k bs

run_somewhere-leading :
    (k : ℕ) (bs : Bytes) → 0 < k → k ≤ leading_lower bs → run_somewhere k bs ≡ true
run_somewhere-leading k [] p h = absurd (omega arith)
run_somewhere-leading k (b ∷ bs) p h = ground arith

lowercase_run_from_lem :
    (k run : ℕ) (bs : Bytes)
    → run < k
    → lowercase_run_from k run bs ≡ (leb k (run + leading_lower bs) || run_somewhere k bs)
unfolding lowercase_run_from
lowercase_run_from_lem k run [] h = ground arith
lowercase_run_from_lem k run (b ∷ bs) h = ground (
  arith,
  lowercase_run_from_lem k (run + 1) bs,
  lowercase_run_from_lem k 0 bs,
  run_somewhere-leading k bs,
)

-- For a positive length, the loop answers true exactly when that many lowercase letters stand in a
-- row at some position of the candidate.
pub has_lowercase_run_lem :
    (bs : Bytes) (k : ℕ) → 0 < k → has_lowercase_run bs k ≡ run_somewhere k bs
unfolding has_lowercase_run
has_lowercase_run_lem bs k h =
    ground (arith, lowercase_run_from_lem k 0 bs, run_somewhere-leading k bs)
