-- ===== src/Sensitive/Detect.antt =====
-- `contains_sensitive_data` of sensitive.rs and its checks. The regular expressions (regex crate)
-- and the floating-point operations are parameters.
use copywraith.Common.{
  ℕ, ◌+◌, ◌-◌, ◌*◌, ◌^◌, Bool, false, not, ◌&&◌, ◌||◌, Option, none, some, List, [], ◌∷◌, ltb, leb,
  ◌==◌, if◌then◌else◌, length, any, all, filter, map, reverse, unwrap_or,
}
use copywraith.Common.Text.{
  Text, Bytes, codes, is_digit, lower, trim, starts_with, contains, as_bytes, byte_len,
  from_str_radix,
}
use copywraith.Sensitive.Luhn.{luhn_check}
use copywraith.Sensitive.Tokens.{
  Tally, tally, classes, only_lower_digit_separator_symbols, has_lowercase_run,
  has_single_edge_digit_run_with_long_alpha,
}

-- The compiled patterns: what `captures_iter` yields for the two that are inspected further, and
-- `is_match` for the others.
pub record Patterns : Type 0 where
  pub credit_cards : Text → List Text
  pub ssns : Text → List (Text × Text × Text)
  pub password : Text → Bool
  pub api_keys : Text → Bool
  pub pem : Text → Bool
  pub jwt : Text → Bool
  pub aws : Text → Bool
  pub generic_secret : Text → Bool
  pub uuid : Text → Bool

-- The operations of `f64` that the entropy needs.
pub record Float : Type 1 where
  pub F : Type 0
  pub of_ℕ : ℕ → F
  pub add : F → F → F
  pub mul : F → F → F
  pub div : F → F → F
  pub neg : F → F
  pub log2 : F → F
  pub lt : F → F → Bool
  pub ge : F → F → Bool

unfoldable pub card_digits : Text → List ℕ
card_digits raw = map (λ c. c - b'0') (filter is_digit raw)

unfoldable pub is_card : Text → Bool
unfolding card_digits luhn_check
is_card raw =
    let digits = card_digits raw in
    leb 13 (length digits) && leb (length digits) 19 && luhn_check digits

-- A number issued by the SSA: no area 000, 666 or 900 to 999, no group 00, no serial 0000.
unfoldable pub is_ssn : Text × Text × Text → Bool
unfolding from_str_radix
is_ssn (a, g, n) =
    let area = unwrap_or (from_str_radix (2 ^ 32) 10 a) 0 in
    let group = unwrap_or (from_str_radix (2 ^ 32) 10 g) 0 in
    let serial = unwrap_or (from_str_radix (2 ^ 32) 10 n) 0 in
    if area == 0 || area == 666 || leb 900 area then false else not (group == 0 || serial == 0)

abbrev is_quote : ℕ → Bool
is_quote c = c == b'\'' || c == b'"' || c == b'`'

unquote_by : ℕ → Text → Text → Text
unquote_by first whole [] = whole
unquote_by first whole (last ∷ middle) =
    if is_quote first && first == last then reverse middle else whole

-- A quote is one byte of UTF-8 and part of no other character, so the source's bytes are
-- characters here.
unfoldable pub unquote : Text → Text
unfolding unquote_by
unquote [] = []
unquote (first ∷ rest) = unquote_by first (first ∷ rest) (reverse rest)

unfoldable pub looks_like_url : Text → Bool
unfolding contains starts_with
looks_like_url candidate =
    let lowered = map lower candidate in
    starts_with lowered (codes "http://")
    || starts_with lowered (codes "https://")
    || starts_with lowered (codes "www.")
    || contains lowered (codes "://")

-- What follows the first `@`.
abbrev after_at : Text → Option Text
after_at [] = none
after_at (c ∷ cs) = if c == b'@' then some cs else after_at cs

unfoldable pub looks_like_email : Text → Bool
looks_like_email [] = false
looks_like_email (c ∷ cs) = elim (after_at (c ∷ cs)) [
  | none ↦ false
  | some domain ↦
      not (c == b'@') && any (λ d. d == b'.') domain && not (any (λ d. d == b'/') (c ∷ cs))
]

abbrev is_graphic : ℕ → Bool
is_graphic b = leb 33 b && leb b 126

module _ (float : Float) where
  open float use {F, of_ℕ, add, mul, div, neg, log2, lt, ge}

  unfoldable pub entropy_sum : F → List ℕ → F → F
  entropy_sum len [] sum = sum
  entropy_sum len (count ∷ counts) sum =
      let p = div (of_ℕ count) len in
      entropy_sum len counts (if ltb 0 count then add sum (mul (neg p) (log2 p)) else sum)

  unfoldable pub entropy_bits : Tally → ℕ → F
  unfolding entropy_sum
  entropy_bits t len = mul (entropy_sum (of_ℕ len) t.counts (of_ℕ 0)) (of_ℕ len)

  -- The answer on the counters, once the candidate is printable and no URL, address or UUID.
  unfoldable pub judge_token : Bytes → Tally → F → Bool
  unfolding classes only_lower_digit_separator_symbols has_lowercase_run
  judge_token bytes stats bits =
      let len = length bytes in
      if ltb (classes stats) 2 || stats.upper + stats.lower == len || stats.digit == len
      then false
      else if ltb (stats.unique * 2) len || lt bits (of_ℕ 45)
      then false
      else if ltb 0 stats.symbol
      then leb 3 (classes stats)
        && not (only_lower_digit_separator_symbols stats)
        && ge bits (of_ℕ 45)
      else if stats.lower == 0 && ltb 0 stats.upper && ltb 0 stats.digit
      then leb 16 len
        && leb 10 stats.unique
        && ge bits (of_ℕ 58)
        && not (has_single_edge_digit_run_with_long_alpha bytes)
      else ltb 0 stats.upper
        && ltb 0 stats.lower
        && ltb 0 stats.digit
        && leb 16 len
        && leb 12 stats.unique
        && ge bits (of_ℕ 60)
        && not (has_lowercase_run bytes 4)
        && not (has_single_edge_digit_run_with_long_alpha bytes)

  module _ (patterns : Patterns) where
    open patterns use {credit_cards, ssns, password, api_keys, pem, jwt, aws, generic_secret, uuid}

    unfoldable pub check_standalone_generated_secret : Text → Bool
    unfolding unquote trim looks_like_url looks_like_email judge_token entropy_bits
    check_standalone_generated_secret t =
        let candidate = unquote (trim t) in
        let bytes = as_bytes candidate in
        let len = length bytes in
        let judged = judge_token bytes (tally bytes) (entropy_bits (tally bytes) len) in
        if not (leb 12 len && leb len 128)
        then false
        else if not (all is_graphic bytes)
        then false
        else if looks_like_url candidate || looks_like_email candidate || uuid candidate
        then false
        else judged

    unfoldable pub contains_sensitive_data : Text → Bool
    unfolding is_card is_ssn check_standalone_generated_secret byte_len
    contains_sensitive_data t =
        if ltb (byte_len t) 8
        then false
        else any is_card (credit_cards t)
          || any is_ssn (ssns t)
          || password t
          || api_keys t
          || pem t
          || jwt t
          || aws t
          || generic_secret t
          || check_standalone_generated_secret t
