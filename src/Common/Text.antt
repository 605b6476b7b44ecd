-- ===== src/Common/Text.antt =====
-- Text as the list of its characters' code points, and the parts of Rust's `str` and `char` that
-- the program uses on it.
use copywraith.Common.{ap, ◌∙◌, inr, inl, Bool-cases}
use Prim.Native.Char.{code}
use Prim.Native.String.{String}
use Prim.Native.Nat.{ℕ, ◌+◌, ◌-◌, ◌*◌, ◌/◌, ◌%◌}
use mathlib.Core.Path.{◌≡◌, refl}
use mathlib.Core.Logic.{◌↔◌}
use mathlib.Core.Bool.{Bool, true, false, ◌&&◌, ◌||◌}
use mathlib.Core.List.{List, [], ◌∷◌, ◌++◌, reverse}
use mathlib.Core.Option.{Option, none, some}
use native.Mathlib.Omega.{arith}
use copywraith.Common.Tests.{ltb, leb, ◌==◌, if◌then◌else◌}
use copywraith.Common.Lists.{length, drop}

abbrev pub Text : Type 0
Text = List ℕ

abbrev pub Bytes : Type 0
Bytes = List ℕ

abbrev pub codes : String → Text
codes String.[] = []
codes (String.◌∷◌ c s) = code c ∷ codes s

-- `==` on texts and byte slices
unfoldable pub same : Text → Text → Bool
same [] [] = true
same (x ∷ xs) (y ∷ ys) = x == y && same xs ys
same _ _ = false

pub same_iff : (a b : Text) → (same a b ≡ true) ↔ (a ≡ b)
unfolding same
same_iff (x ∷ a) (y ∷ b) = ground (arith, same_iff a b)
same_iff _ _ = ground arith

pub same_refl : (a : Text) → same a a ≡ true
same_refl a = (same_iff a a).1 refl

-- `char::is_whitespace`: the Unicode property White_Space
abbrev pub is_whitespace : ℕ → Bool
is_whitespace c =
    (leb 9 c && leb c 13)
    || c == 32
    || c == 0x85
    || c == 0xa0
    || c == 0x1680
    || (leb 0x2000 c && leb c 0x200a)
    || c == 0x2028
    || c == 0x2029
    || c == 0x202f
    || c == 0x205f
    || c == 0x3000

abbrev pub is_digit : ℕ → Bool
is_digit c = leb b'0' c && leb c b'9'

abbrev pub is_upper : ℕ → Bool
is_upper c = leb b'A' c && leb c b'Z'

abbrev pub is_lower : ℕ → Bool
is_lower c = leb b'a' c && leb c b'z'

abbrev pub is_alphabetic : ℕ → Bool
is_alphabetic c = is_upper c || is_lower c

-- `is_ascii_hexdigit`
abbrev pub is_hex_digit : ℕ → Bool
is_hex_digit c = is_digit c || (leb b'A' c && leb c b'F') || (leb b'a' c && leb c b'f')

-- `to_ascii_lowercase` of one character
abbrev pub lower : ℕ → ℕ
lower c = if is_upper c then c + 32 else c

-- `trim_start_matches` by a test
unfoldable pub trim_start_by : (ℕ → Bool) → Text → Text
trim_start_by p [] = []
trim_start_by p (c ∷ cs) = let rest = trim_start_by p cs in if p c then rest else c ∷ cs

-- `trim_end_matches` by a test
unfoldable pub trim_end_by : (ℕ → Bool) → Text → Text
unfolding trim_start_by
trim_end_by p cs = reverse (trim_start_by p (reverse cs))

-- `str::trim_start` and `str::trim`
unfoldable pub trim_start : Text → Text
unfolding trim_start_by
trim_start = trim_start_by is_whitespace

unfoldable pub trim : Text → Text
unfolding trim_start_by trim_end_by
trim cs = trim_end_by is_whitespace (trim_start_by is_whitespace cs)

abbrev pub is_empty : Text → Bool
is_empty [] = true
is_empty (_ ∷ _) = false

-- `starts_with`
unfoldable pub starts_with : Text → Text → Bool
starts_with cs [] = true
starts_with [] (p ∷ ps) = false
starts_with (c ∷ cs) (p ∷ ps) = c == p && starts_with cs ps

-- `strip_prefix`
unfoldable pub strip_prefix : Text → Text → Option Text
unfolding starts_with
strip_prefix prefix cs = if starts_with cs prefix then some (drop (length prefix) cs) else none

starts_with-split :
    (cs prefix : Text) → starts_with cs prefix ≡ true → cs ≡ prefix ++ drop (length prefix) cs
unfolding starts_with
starts_with-split cs [] h = refl
starts_with-split [] (p ∷ prefix) h = cc
starts_with-split (c ∷ cs) (p ∷ prefix) h = ground (arith, starts_with-split cs prefix)

some_eq : (a b : Text) → ◌≡◌ {A = Option Text} (some a) (some b) → a ≡ b
some_eq a b h = cc

-- What follows a prefix is the rest of the text.
pub strip_prefix-some :
    (prefix cs rest : Text) → strip_prefix prefix cs ≡ some rest → cs ≡ prefix ++ rest
unfolding strip_prefix
strip_prefix-some prefix cs rest = elim (Bool-cases (starts_with cs prefix)) [
  | inl e ↦ rw e (λ h. starts_with-split cs prefix e ∙ ap (λ r. prefix ++ r) (some_eq _ _ h))
  | inr e ↦ rw e (λ h. cc)
]

-- `contains`
unfoldable pub contains : Text → Text → Bool
unfolding starts_with
contains [] p = is_empty p
contains (c ∷ cs) p = starts_with (c ∷ cs) p || contains cs p

-- `join` of texts by a separator
unfoldable pub join : Text → List Text → Text
join sep [] = []
join sep (t ∷ []) = t
join sep (t ∷ u ∷ ts) = t ++ (sep ++ join sep (u ∷ ts))

-- The UTF-8 bytes of a character, and of a text.
unfoldable pub utf8_char : ℕ → Bytes
utf8_char c =
    if ltb c 0x80
    then c ∷ []
    else if ltb c 0x800
    then (0xc0 + c / 64) ∷ (0x80 + c % 64) ∷ []
    else if ltb c 0x10000
    then (0xe0 + c / 4096) ∷ (0x80 + c / 64 % 64) ∷ (0x80 + c % 64) ∷ []
    else (0xf0 + c / 262144) ∷ (0x80 + c / 4096 % 64) ∷ (0x80 + c / 64 % 64) ∷ (0x80 + c % 64) ∷ []

unfoldable pub as_bytes : Text → Bytes
unfolding utf8_char
as_bytes [] = []
as_bytes (c ∷ cs) = utf8_char c ++ as_bytes cs

-- `str::len`
unfoldable pub byte_len : Text → ℕ
unfolding as_bytes
byte_len cs = length (as_bytes cs)

-- `split_whitespace`: the runs of characters that are not white space
abbrev pub flush : Text → List Text
flush [] = []
flush (c ∷ cs) = (c ∷ cs) ∷ []

unfoldable pub split_onto : Text → Text → List Text
split_onto word [] = flush word
split_onto word (c ∷ cs) =
    let rest = split_onto (if is_whitespace c then [] else word ++ c ∷ []) cs in
    if is_whitespace c then flush word ++ rest else rest

abbrev pub split_whitespace : Text → List Text
split_whitespace = split_onto []

-- The longest prefix whose characters pass a test.
unfoldable pub take_while : (ℕ → Bool) → Text → Text
take_while p [] = []
take_while p (c ∷ cs) = let rest = take_while p cs in if p c then c ∷ rest else []

-- `char::to_digit(radix)` for a radix up to 16
abbrev pub to_digit : ℕ → ℕ → Option ℕ
to_digit radix c =
    let d =
      if is_digit c
      then c - b'0'
      else if leb b'a' c && leb c b'f'
      then c - 87
      else if leb b'A' c && leb c b'F'
      then c - 55
      else 16 in
    if ltb d radix then some d else none

unfoldable pub parse_digits : ℕ → ℕ → Text → Option ℕ
parse_digits radix n [] = some n
parse_digits radix n (c ∷ cs) = elim (to_digit radix c) [
  | none ↦ none
  | some d ↦ parse_digits radix (n * radix + d) cs
]

drop_plus : Text → Text
drop_plus [] = []
drop_plus (c ∷ cs) = if c == b'+' then cs else c ∷ cs

-- `from_str_radix` of an unsigned type whose values lie below `bound`: a leading `+` is taken,
-- a text with no digit, a foreign character and an overflow are errors.
unfoldable pub from_str_radix : ℕ → ℕ → Text → Option ℕ
unfolding parse_digits drop_plus
from_str_radix bound radix cs =
    let digits = drop_plus cs in
    if is_empty digits then none else elim (parse_digits radix 0 digits) [
      | none ↦ none
      | some n ↦ if ltb n bound then some n else none
    ]

-- `char::from_u32`: a Unicode scalar value
abbrev pub from_u32 : ℕ → Option ℕ
from_u32 n = if ltb n 0xd800 || (ltb 0xdfff n && ltb n 0x110000) then some n else none
