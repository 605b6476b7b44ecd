-- ===== src/Content/Html.antt =====
-- `strip_html`, `decode_html_entity` and `starts_with_ignore_ascii_case` of content.rs.
pub mod Strip
use copywraith.Common.{
  ℕ, ◌+◌, ◌-◌, Bool, true, false, not, ◌&&◌, ◌||◌, Option, none, some, List, [], ◌∷◌, ◌++◌, ltb,
  ◌==◌, if◌then◌else◌, or_else, take, drop, suc,
}
use copywraith.Common.Text.{
  Text, codes, same, lower, join, split_whitespace, split_onto, strip_prefix, from_str_radix,
  from_u32,
}
use copywraith.Common.Scan.{scan, scan_skip}

-- A tag name is matched without regard to ASCII case.
unfoldable pub starts_with_ignore_ascii_case : Text → Text → Bool
starts_with_ignore_ascii_case chars [] = true
starts_with_ignore_ascii_case [] (p ∷ ps) = false
starts_with_ignore_ascii_case (c ∷ cs) (p ∷ ps) =
    lower c == lower p && starts_with_ignore_ascii_case cs ps

-- `iter().position`
unfoldable pub position : ℕ → Text → Option ℕ
position x [] = none
position x (c ∷ cs) =
    if c == x then some 0 else elim (position x cs) [ none ↦ none | some i ↦ some (suc i) ]

unfoldable pub decode_numeric_html_entity : Text → Option ℕ
unfolding strip_prefix from_str_radix
decode_numeric_html_entity entity =
    let hex = or_else (strip_prefix (codes "#x") entity) (strip_prefix (codes "#X") entity) in
    elim hex [
      | some digits ↦ elim (from_str_radix 0x100000000 16 digits) [
        | none ↦ none
        | some n ↦ from_u32 n
      ]
      | none ↦ elim (strip_prefix (codes "#") entity) [
        | none ↦ none
        | some digits ↦ elim (from_str_radix 0x100000000 10 digits) [
          | none ↦ none
          | some n ↦ from_u32 n
        ]
      ]
    ]

abbrev max_entity_len : ℕ
max_entity_len = 16

-- The entity's name, between `&` and `;`.
unfoldable pub decode_entity_name : Text → Option ℕ
unfolding decode_numeric_html_entity same
decode_entity_name entity =
    if same entity (codes "nbsp")
    then some b' '
    else if same entity (codes "amp")
    then some b'&'
    else if same entity (codes "lt")
    then some b'<'
    else if same entity (codes "gt")
    then some b'>'
    else if same entity (codes "quot")
    then some b'"'
    else if same entity (codes "apos") || same entity (codes "#39")
    then some b'\''
    else decode_numeric_html_entity entity

-- The decoded character, and how many characters the entity takes.
unfoldable pub decode_html_entity : Text → Option (ℕ × ℕ)
unfolding decode_entity_name position
decode_html_entity [] = none
decode_html_entity (c ∷ cs) =
    if not (c == b'&') then none else elim (position b';' (take max_entity_len (c ∷ cs))) [
      | none ↦ none
      | some semicolon ↦
          if ltb semicolon 2 then none else elim (decode_entity_name (take (semicolon - 1) cs)) [
            | none ↦ none
            | some decoded ↦ some (decoded, semicolon + 1)
          ]
    ]

pub record HtmlState : Type 0 where
  pub in_tag : Bool
  pub in_style : Bool
  pub in_script : Bool
  pub result : Text

-- What `<` does to the flags; `rest` starts at the `<`.
unfoldable pub open_tag : HtmlState → Text → HtmlState
unfolding starts_with_ignore_ascii_case
open_tag s rest =
    let t = record s { in_tag = true } in
    if starts_with_ignore_ascii_case rest (codes "<style")
    then record t { in_style = true }
    else if starts_with_ignore_ascii_case rest (codes "<script")
    then record t { in_script = true }
    else if starts_with_ignore_ascii_case rest (codes "</style")
    then record t { in_style = false }
    else if starts_with_ignore_ascii_case rest (codes "</script")
    then record t { in_script = false }
    else t

abbrev push : HtmlState → ℕ → HtmlState
push s c = record s { result = s.result ++ c ∷ [] }

-- A character of visible text.
unfoldable pub visible_char : HtmlState → ℕ → Text → HtmlState × ℕ
unfolding decode_html_entity
visible_char s c cs =
    if c == b'&'
    then elim (decode_html_entity (c ∷ cs)) [
      | none ↦ (push s c, 0)
      | some (decoded, consumed) ↦ (push s decoded, consumed - 1)
    ]
    else (push s c, 0)

-- The body of the loop.
unfoldable pub html_step : HtmlState → ℕ → Text → HtmlState × ℕ
unfolding open_tag visible_char
html_step s c cs =
    if c == b'<'
    then (open_tag s (c ∷ cs), 0)
    else if c == b'>'
    then (record s { in_tag = false }, 0)
    else if not s.in_tag && not s.in_style && not s.in_script
    then visible_char s c cs
    else (s, 0)

abbrev pub html_start : HtmlState
html_start = record { in_tag = false; in_style = false; in_script = false; result = [] }

abbrev pub collapse : Text → Text
collapse t = join (b' ' ∷ []) (split_whitespace t)

unfoldable pub strip_html : Text → Text
unfolding html_step scan_skip split_onto join
strip_html html = collapse (scan html_step html_start html).result
