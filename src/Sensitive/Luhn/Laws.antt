-- ===== src/Sensitive/Luhn/Laws.antt =====
-- The checksum as a sum, and the typing errors that it detects.
use mathlib.Core.List.{reverse-append}
use copywraith.Common.{
  ℕ, ◌+◌, ◌*◌, ◌%◌, ◌≤◌, ◌<◌, ◌≡◌, ◌≢◌, ◌⊎◌, ◌∙◌, ap, Bool, true, false, not, List, [], ◌∷◌, ◌++◌,
  arith, ◌==◌, length, reverse, All, append_assoc,
}
use copywraith.Sensitive.Luhn.{luhn_value, luhn_loop, luhn_check}

abbrev luhn_sum : Bool → List ℕ → ℕ
luhn_sum double [] = 0
luhn_sum double (d ∷ ds) = luhn_value double d + luhn_sum (not double) ds

luhn_loop-sum :
    (n : ℕ) (double : Bool) (ds : List ℕ) → luhn_loop n double ds ≡ n + luhn_sum double ds
unfolding luhn_loop
luhn_loop-sum n double [] = omega arith
luhn_loop-sum n double (d ∷ ds) =
    omega (arith, luhn_loop-sum (n + luhn_value double d) (not double) ds)

luhn_value-le : (double : Bool) (d : ℕ) → d ≤ 9 → luhn_value double d ≤ 9
unfolding luhn_value
luhn_value-le true d h = ground arith
luhn_value-le false d h = h

luhn_sum-bound :
    (double : Bool) (ds : List ℕ) → All (λ d. d ≤ 9) ds → luhn_sum double ds ≤ 9 * length ds
luhn_sum-bound double [] h = omega arith
luhn_sum-bound double (d ∷ ds) h =
    omega (arith, luhn_value-le double d h.0, luhn_sum-bound (not double) ds h.1)

-- The checksum of n digits is at most 9 n: at most 171 for the 19 digits of the longest card number,
-- far below the limit of the source's `u32`.
pub luhn_loop-le :
    (double : Bool) (ds : List ℕ) → All (λ d. d ≤ 9) ds → luhn_loop 0 double ds ≤ 9 * length ds
luhn_loop-le double ds h = omega (arith, luhn_loop-sum 0 double ds, luhn_sum-bound double ds h)

-- Whether a digit behind `ds` is doubled.
abbrev doubled_after : Bool → List ℕ → Bool
doubled_after double [] = double
doubled_after double (d ∷ ds) = doubled_after (not double) ds

luhn_sum-append :
    (double : Bool) (xs ys : List ℕ)
    → luhn_sum double (xs ++ ys) ≡ luhn_sum double xs + luhn_sum (doubled_after double xs) ys
luhn_sum-append double [] ys = omega arith
luhn_sum-append double (x ∷ xs) ys = omega (arith, luhn_sum-append (not double) xs ys)

luhn_check-sum : (ds : List ℕ) → luhn_check ds ≡ (luhn_sum false (reverse ds) % 10 == 0)
unfolding luhn_check
luhn_check-sum ds = rw (luhn_loop-sum 0 false (reverse ds)) (ground arith)

luhn_value-injective :
    (double : Bool) (a b : ℕ) → a ≤ 9 → b ≤ 9 → luhn_value double a ≡ luhn_value double b → a ≡ b
unfolding luhn_value
luhn_value-injective true a b ha hb e = ground arith
luhn_value-injective false a b ha hb e = e

-- The reversed list around one digit.
reverse_around : (xs ys : List ℕ) (d : ℕ) → reverse (xs ++ d ∷ ys) ≡ reverse ys ++ d ∷ reverse xs
reverse_around xs ys d =
    reverse-append xs (d ∷ ys)
    ∙ rw (reverse-append (d ∷ []) ys) (append_assoc (reverse ys) (d ∷ []) (reverse xs))

split_sum :
    (xs ys : List ℕ) (d : ℕ)
    → luhn_sum false (reverse (xs ++ d ∷ ys))
      ≡ luhn_sum false (reverse ys)
        + (luhn_value (doubled_after false (reverse ys)) d
            + luhn_sum (not (doubled_after false (reverse ys))) (reverse xs))
split_sum xs ys d =
    ap (luhn_sum false) (reverse_around xs ys d)
    ∙ luhn_sum-append false (reverse ys) (d ∷ reverse xs)

-- A number that passes the check fails it when any one of its digits is changed to another.
pub luhn_check-detects_change :
    (xs ys : List ℕ) (a b : ℕ)
    → a ≤ 9
    → b ≤ 9
    → a ≢ b
    → luhn_check (xs ++ a ∷ ys) ≡ true
    → luhn_check (xs ++ b ∷ ys) ≡ false
luhn_check-detects_change xs ys a b ha hb ne h =
    let p = doubled_after false (reverse ys) in
    ground (
      arith,
      luhn_check-sum (xs ++ a ∷ ys),
      luhn_check-sum (xs ++ b ∷ ys),
      split_sum xs ys a,
      split_sum xs ys b,
      luhn_value-injective p a b,
      luhn_value-le p a ha,
      luhn_value-le p b hb,
    )

transposed :
    (double : Bool) (a b : ℕ)
    → a ≤ 9
    → b ≤ 9
    → a ≢ b
    → (a + b ≢ 9) ⊎ ((0 < a) × (0 < b))
    → (n : ℕ) → (n + (luhn_value double b + luhn_value (not double) a)) % 10 ≡ 0
    → (n + (luhn_value double a + luhn_value (not double) b)) % 10 ≢ 0
unfolding luhn_value
transposed true a b ha hb ne nines n h = ground arith
transposed false a b ha hb ne nines n h = ground arith

split_sum_pair :
    (xs ys : List ℕ) (a b : ℕ)
    → luhn_sum false (reverse (xs ++ a ∷ b ∷ ys))
      ≡ luhn_sum false (reverse ys)
        + (luhn_value (doubled_after false (reverse ys)) b
            + (luhn_value (not (doubled_after false (reverse ys))) a
                + luhn_sum (not (not (doubled_after false (reverse ys)))) (reverse xs)))
split_sum_pair xs ys a b =
    ap (luhn_sum false) (
      reverse-append xs (a ∷ b ∷ ys)
      ∙ rw (reverse-append (a ∷ b ∷ []) ys) (append_assoc (reverse ys) (b ∷ a ∷ []) (reverse xs)))
    ∙ luhn_sum-append false (reverse ys) (b ∷ a ∷ reverse xs)

-- A number that passes the check fails it when two adjacent digits that differ are exchanged,
-- unless the two are 0 and 9.
pub luhn_check-detects_exchange :
    (xs ys : List ℕ) (a b : ℕ)
    → a ≤ 9
    → b ≤ 9
    → a ≢ b
    → (a + b ≢ 9) ⊎ ((0 < a) × (0 < b))
    → luhn_check (xs ++ a ∷ b ∷ ys) ≡ true
    → luhn_check (xs ++ b ∷ a ∷ ys) ≡ false
luhn_check-detects_exchange xs ys a b ha hb ne nines h =
    let p = doubled_after false (reverse ys) in
    let n = luhn_sum false (reverse ys) + luhn_sum (not (not p)) (reverse xs) in
    ground (
      arith,
      luhn_check-sum (xs ++ a ∷ b ∷ ys),
      luhn_check-sum (xs ++ b ∷ a ∷ ys),
      split_sum_pair xs ys a b,
      split_sum_pair xs ys b a,
      transposed p a b ha hb ne nines n,
    )
