-- ===== src/Sensitive/Tokens.antt =====
-- `TokenStats`, `has_lowercase_run` and `has_single_edge_digit_run_with_long_alpha` of
-- sensitive.rs, over the bytes of a candidate. A candidate that reaches them is printable ASCII.
pub mod Laws
pub mod Runs
use copywraith.Common.{
  ℕ, zero, suc, ◌+◌, ◌-◌, Bool, true, false, not, ◌&&◌, ◌||◌, List, [], ◌∷◌, ltb, leb, ◌==◌,
  if◌then◌else◌, length, all, replicate, take, drop, filter,
}
use copywraith.Common.Text.{Bytes, is_digit, is_upper, is_lower, is_alphabetic}

-- The counters of `TokenStats::new`; the entropy is computed from them in `Sensitive.Detect`.
pub record Tally : Type 0 where
  pub counts : List ℕ
  pub upper : ℕ
  pub lower : ℕ
  pub digit : ℕ
  pub symbol : ℕ
  pub unique : ℕ
  pub separator_symbols : ℕ

abbrev pub count_at : List ℕ → ℕ → ℕ
count_at [] i = 0
count_at (n ∷ ns) zero = n
count_at (n ∷ ns) (suc i) = count_at ns i

-- `counts[idx] += 1`
abbrev pub bump : List ℕ → ℕ → List ℕ
bump [] i = []
bump (n ∷ ns) zero = (n + 1) ∷ ns
bump (n ∷ ns) (suc i) = n ∷ bump ns i

abbrev is_separator : ℕ → Bool
is_separator b = b == b'-' || b == b'_' || b == b'.'

tally_class : Tally → ℕ → Tally
tally_class t b =
    if is_upper b
    then record t { upper = t.upper + 1 }
    else if is_lower b
    then record t { lower = t.lower + 1 }
    else if is_digit b
    then record t { digit = t.digit + 1 }
    else record t {
      symbol = t.symbol + 1;
      separator_symbols = t.separator_symbols + (if is_separator b then 1 else 0);
    }

unfoldable pub tally_byte : Tally → ℕ → Tally
unfolding tally_class
tally_byte t b =
    tally_class
      (record t {
        unique = if count_at t.counts b == 0 then t.unique + 1 else t.unique;
        counts = bump t.counts b;
      })
      b

abbrev pub empty_tally : Tally
empty_tally = record {
  counts = replicate 128 0;
  upper = 0;
  lower = 0;
  digit = 0;
  symbol = 0;
  unique = 0;
  separator_symbols = 0;
}

unfoldable pub tally_from : Tally → Bytes → Tally
unfolding tally_byte
tally_from t [] = t
tally_from t (b ∷ bs) = tally_from (tally_byte t b) bs

unfoldable pub tally : Bytes → Tally
unfolding tally_from
tally = tally_from empty_tally

abbrev one_if_positive : ℕ → ℕ
one_if_positive n = if ltb 0 n then 1 else 0

unfoldable pub classes : Tally → ℕ
classes t =
    one_if_positive t.upper
    + one_if_positive t.lower
    + one_if_positive t.digit
    + one_if_positive t.symbol

unfoldable pub only_lower_digit_separator_symbols : Tally → Bool
only_lower_digit_separator_symbols t =
    ltb 0 t.lower
    && t.upper == 0
    && ltb 0 t.digit
    && ltb 0 t.symbol
    && t.symbol == t.separator_symbols

-- The loop of `has_lowercase_run`.
unfoldable pub lowercase_run_from : ℕ → ℕ → Bytes → Bool
lowercase_run_from min_len run [] = false
lowercase_run_from min_len run (b ∷ bs) =
    let next : ℕ = if is_lower b then run + 1 else 0 in
    let rest = lowercase_run_from min_len next bs in
    if is_lower b && leb min_len next then true else rest

unfoldable pub has_lowercase_run : Bytes → ℕ → Bool
unfolding lowercase_run_from
has_lowercase_run candidate min_len = lowercase_run_from min_len 0 candidate

-- The variables of the loop over digit runs.
pub record DigitRuns : Type 0 where
  pub digit_runs : ℕ
  pub run_start : ℕ
  pub run_end : ℕ
  pub in_digit_run : Bool

unfoldable pub runs_byte : DigitRuns → ℕ → ℕ → DigitRuns
runs_byte r idx b =
    if is_digit b
    then record {
      digit_runs = if r.in_digit_run then r.digit_runs else r.digit_runs + 1;
      run_start = if r.in_digit_run then r.run_start else idx;
      run_end = idx + 1;
      in_digit_run = true;
    }
    else record r { in_digit_run = false }

unfoldable pub runs_from : DigitRuns → ℕ → Bytes → DigitRuns
unfolding runs_byte
runs_from r idx [] = r
runs_from r idx (b ∷ bs) = runs_from (runs_byte r idx b) (idx + 1) bs

abbrev pub no_runs : DigitRuns
no_runs = record { digit_runs = 0; run_start = 0; run_end = 0; in_digit_run = false }

unfoldable pub has_single_edge_digit_run_with_long_alpha : Bytes → Bool
unfolding runs_from
has_single_edge_digit_run_with_long_alpha bytes =
    let r = runs_from no_runs 0 bytes in
    let prefix_alpha = all is_alphabetic (take r.run_start bytes) in
    let suffix_alpha = all is_alphabetic (drop r.run_end bytes) in
    if not (r.digit_runs == 1) || ltb (r.run_end - r.run_start) 4
    then false
    else (r.run_start == 0 && suffix_alpha && leb 5 (length bytes - r.run_end))
      || (r.run_end == length bytes && prefix_alpha && leb 5 r.run_start)
