-- ===== src/Content/Rtf/Chars.antt =====
-- The character tables and number forms of `strip_rtf`.
use copywraith.Common.{
  ℕ, zero, suc, ◌+◌, ◌-◌, ◌^◌, ◌%◌, min, Bool, false, ◌&&◌, ◌||◌, Option, none, some, List, [], ◌∷◌,
  ltb, leb, ◌==◌, if◌then◌else◌, length, drop,
}
use copywraith.Common.Int.{ℤ, pos, negsuc}
use copywraith.Common.Text.{Text, is_empty, parse_digits}

-- The printable characters of 0x80 to 0x9f, 0xfffd where the code page assigns none.
abbrev cp1252_high : List ℕ
cp1252_high =
    0x20ac ∷ 0xfffd ∷ 0x201a ∷ 0x0192 ∷ 0x201e ∷ 0x2026 ∷ 0x2020 ∷ 0x2021 ∷ 0x02c6 ∷ 0x2030 ∷ 0x0160
    ∷ 0x2039 ∷ 0x0152 ∷ 0xfffd ∷ 0x017d ∷ 0xfffd ∷ 0xfffd ∷ 0x2018 ∷ 0x2019 ∷ 0x201c ∷ 0x201d
    ∷ 0x2022 ∷ 0x2013 ∷ 0x2014 ∷ 0x02dc ∷ 0x2122 ∷ 0x0161 ∷ 0x203a ∷ 0x0153 ∷ 0xfffd ∷ 0x017e
    ∷ 0x0178 ∷ []

at_or : ℕ → List ℕ → ℕ → ℕ
at_or d [] i = d
at_or d (x ∷ xs) zero = x
at_or d (x ∷ xs) (suc i) = at_or d xs i

unfoldable pub cp1252_byte_to_char : ℕ → ℕ
unfolding at_or
cp1252_byte_to_char byte =
    if leb 0x80 byte && ltb byte 0xa0 then at_or 0xfffd cp1252_high (byte - 0x80) else byte

abbrev pub head_is : ℕ → Text → Bool
head_is x [] = false
head_is x (c ∷ cs) = c == x

-- `parse::<i32>` of a parameter, which holds no `+`
unsigned : ℕ → Text → Option ℕ
unfolding parse_digits
unsigned bound cs =
    if is_empty cs
    then none
    else elim (parse_digits 10 0 cs) [ none ↦ none | some n ↦ if leb n bound then some n else none ]

negated : Option ℕ → Option ℤ
negated none = none
negated (some zero) = some (pos 0)
negated (some (suc n)) = some (negsuc n)

unfoldable pub parse_i32 : Text → Option ℤ
unfolding unsigned negated
parse_i32 [] = none
parse_i32 (c ∷ cs) =
    if c == b'-'
    then negated (unsigned (2 ^ 31) cs)
    else elim (unsigned (2 ^ 31 - 1) (c ∷ cs)) [ none ↦ none | some n ↦ some (pos n) ]

-- `(if signed < 0 { signed + 65536 } else { signed }) as u32`
unfoldable pub unit_of : ℤ → ℕ
unit_of (pos n) = n
unit_of (negsuc n) = (2 ^ 32 + 65536 - (n + 1)) % 2 ^ 32

-- What one fallback unit at the head of `chars` takes: a plain character, a hex escape (less where
-- the text ends), or nothing where a group delimiter or another control word ends the run.
unfoldable pub fallback_unit : Text → Option ℕ
fallback_unit [] = none
fallback_unit (c ∷ cs) =
    if c == b'{' || c == b'}'
    then none
    else if c == b'\\'
    then (if head_is b'\'' cs then some (min 4 (length (c ∷ cs))) else none)
    else some 1

-- How many characters the fallback of a `\uN` escape takes, `count` units at most.
unfoldable pub skip_rtf_fallback_chars : Text → ℕ → ℕ
unfolding fallback_unit
skip_rtf_fallback_chars chars zero = 0
skip_rtf_fallback_chars chars (suc count) = elim (fallback_unit chars) [
  | none ↦ 0
  | some k ↦ k + skip_rtf_fallback_chars (drop k chars) count
]
