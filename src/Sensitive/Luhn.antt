-- ===== src/Sensitive/Luhn.antt =====
-- `luhn_check` of sensitive.rs. Its caller passes 19 digits at most, so that the `u32` sum cannot
-- overflow (`luhn_loop-le` in `Sensitive.Luhn.Laws`) and is a plain number here.
pub mod Laws
use copywraith.Common.{
  ℕ, ◌+◌, ◌-◌, ◌*◌, ◌%◌, Bool, true, false, not, List, [], ◌∷◌, ltb, ◌==◌, if◌then◌else◌, reverse,
}

-- What one digit adds.
unfoldable pub luhn_value : Bool → ℕ → ℕ
luhn_value false n = n
luhn_value true n = if ltb 9 (n * 2) then n * 2 - 9 else n * 2

unfoldable pub luhn_loop : ℕ → Bool → List ℕ → ℕ
unfolding luhn_value
luhn_loop sum double [] = sum
luhn_loop sum double (d ∷ ds) = luhn_loop (sum + luhn_value double d) (not double) ds

unfoldable pub luhn_check : List ℕ → Bool
unfolding luhn_loop
luhn_check digits = luhn_loop 0 false (reverse digits) % 10 == 0
