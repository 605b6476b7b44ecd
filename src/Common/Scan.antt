-- ===== src/Common/Scan.antt =====
-- A `while i < len` loop over a text whose index never moves back. The body sees the current
-- character and all that follows it, and says how many further characters it consumed: an index
-- that moves by k + 1 in the source is a `k` here.
use Prim.Native.Nat.{ℕ, zero, suc}
use mathlib.Core.Path.{◌≡◌, refl, ap}
use mathlib.Core.List.{[], ◌∷◌, ◌++◌}
use copywraith.Common.Lists.{length, drop}
use copywraith.Common.Text.{Text}

module _ {ℓ} {S : Type ℓ} (body : S → ℕ → Text → S × ℕ) where
  unfoldable pub scan_skip : S → ℕ → Text → S
  scan_skip s k [] = s
  scan_skip s (suc k) (c ∷ cs) = scan_skip s k cs
  scan_skip s zero (c ∷ cs) = let (s', k) = body s c cs in scan_skip s' k cs

  abbrev pub scan : S → Text → S
  scan s cs = scan_skip s 0 cs

  -- Skipped characters are not looked at.
  pub scan_skip-drop : (s : S) (k : ℕ) (cs : Text) → scan_skip s k cs ≡ scan s (drop k cs)
  unfolding scan_skip
  scan_skip-drop s zero cs = refl
  scan_skip-drop s (suc k) [] = refl
  scan_skip-drop s (suc k) (c ∷ cs) = scan_skip-drop s k cs

  -- A body that consumes the whole of `cs` goes on with what follows.
  pub scan_skip-length :
      (s : S) (cs rest : Text) → scan_skip s (length cs) (cs ++ rest) ≡ scan s rest
  unfolding scan_skip
  scan_skip-length s [] rest = refl
  scan_skip-length s (c ∷ cs) rest = scan_skip-length s cs rest

  -- One turn of the loop.
  pub scan_step :
      (s : S) (c : ℕ) (cs : Text) (t : S) (k : ℕ)
      → body s c cs ≡ (t, k)
      → scan s (c ∷ cs) ≡ scan_skip t k cs
  unfolding scan_skip
  scan_step s c cs t k e = ap (λ r. scan_skip r.0 r.1 cs) e
