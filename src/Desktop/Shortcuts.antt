-- ===== src/Desktop/Shortcuts.antt =====
-- `to_gtk_accelerator`, `gtk_key_name` and the helpers for gsettings of
-- src-tauri/src/linux/shortcuts.rs. `AcceleratorError` says what an
-- error's text says.
pub mod Order
use copywraith.Common.Outcome.{Outcome, ok, err, ◌>>=◌, ok_or}
use copywraith.Common.{
  ◌%◌, ◌/◌, ◌+◌, ℕ, zero, suc, ◌-◌, Bool, true, false, not, ◌&&◌, ◌||◌, Option, none, some, List,
  [], ◌∷◌, ◌++◌, ltb, leb, ◌==◌, if◌then◌else◌, length, all, any, filter, map, reverse, unwrap_or,
  or_else,
}
use copywraith.Common.Text.{
  Text, codes, same, trim, lower, is_empty, is_digit, is_alphabetic, starts_with, strip_prefix,
  from_str_radix, join,
}

-- `split` at one character
split_onto_char : ℕ → Text → Text → List Text
split_onto_char sep part [] = part ∷ []
split_onto_char sep part (c ∷ cs) =
    let rest = split_onto_char sep (if c == sep then [] else part ++ c ∷ []) cs in
    if c == sep then part ∷ rest else rest

unfoldable pub split_char : ℕ → Text → List Text
unfolding split_onto_char
split_char sep = split_onto_char sep []

pub record Modifiers : Type 0 where
  pub ctrl : Bool
  pub alt : Bool
  pub shift : Bool
  pub super : Bool

abbrev pub no_modifiers : Modifiers
no_modifiers = record { ctrl = false; alt = false; shift = false; super = false }

unfoldable pub is_one_of : Text → List Text → Bool
unfolding same
is_one_of t names = any (same t) names

pub data Modifier : Type 0 where
  control alternate shifted super_key : Modifier

-- The flag that a modifier's name stands for.
unfoldable pub modifier_of : Text → Option Modifier
unfolding is_one_of
modifier_of name =
    let t = map lower name in
    if is_one_of t
      (codes "cmdorctrl" ∷ codes "commandorcontrol" ∷ codes "ctrl" ∷ codes "control" ∷ [])
    then some control
    else if is_one_of t (codes "alt" ∷ codes "option" ∷ [])
    then some alternate
    else if is_one_of t (codes "shift" ∷ [])
    then some shifted
    else if is_one_of t
        (codes "super" ∷ codes "meta" ∷ codes "cmd" ∷ codes "command" ∷ codes "win" ∷ [])
    then some super_key
    else none

unfoldable pub with_modifier : Modifier → Modifiers → Modifiers
with_modifier control m = record m { ctrl = true }
with_modifier alternate m = record m { alt = true }
with_modifier shifted m = record m { shift = true }
with_modifier super_key m = record m { super = true }

-- The texts of the errors, with what they name in lower case.
pub data AcceleratorError : Type 0 where
  empty_shortcut : AcceleratorError
  unsupported_modifier unsupported_key : Text → AcceleratorError

-- The loop over the modifiers.
unfoldable pub set_modifiers : List Text → Modifiers → Outcome AcceleratorError Modifiers
unfolding modifier_of with_modifier
set_modifiers [] m = ok m
set_modifiers (name ∷ names) m = elim (modifier_of name) [
  | none ↦ err (unsupported_modifier (map lower name))
  | some modifier ↦ set_modifiers names (with_modifier modifier m)
]

abbrev one_char : Option Text → Option Text
one_char none = none
one_char (some t) = if length t == 1 then some t else none

-- `KeyV` and `Digit1`
unfoldable pub without_code_style : Text → Text
unfolding strip_prefix
without_code_style t =
    unwrap_or (one_char (or_else (strip_prefix (codes "key") t) (strip_prefix (codes "digit") t))) t

single_key : Text → Option Text
single_key (c ∷ []) = if is_alphabetic c || is_digit c then some (c ∷ []) else none
single_key _ = none

-- `F1` to `F24`; `number.parse::<u8>()` takes a leading `+`.
decimal : ℕ → Text
decimal n = if ltb n 10 then (48 + n) ∷ [] else (48 + n / 10) ∷ (48 + n % 10) ∷ []

function_number : Option ℕ → Option Text
unfolding decimal
function_number none = none
function_number (some n) = if leb 1 n && leb n 24 then some (codes "F" ++ decimal n) else none

function_key : Text → Option Text
unfolding strip_prefix from_str_radix function_number
function_key t = elim (strip_prefix (codes "f") t) [
  | none ↦ none
  | some number ↦ function_number (from_str_radix 256 10 number)
]

abbrev pub NameTable : Type 0
NameTable = List (List Text × Text)

find_name : Text → NameTable → Option Text
unfolding is_one_of
find_name t [] = none
find_name t ((names, name) ∷ table) =
    let rest = find_name t table in if is_one_of t names then some name else rest

abbrev named_keys : NameTable
named_keys =
    (codes "space" ∷ [], codes "space")
    ∷ (codes "enter" ∷ codes "return" ∷ [], codes "Return")
    ∷ (codes "tab" ∷ [], codes "Tab")
    ∷ (codes "escape" ∷ codes "esc" ∷ [], codes "Escape")
    ∷ (codes "backspace" ∷ [], codes "BackSpace")
    ∷ (codes "delete" ∷ codes "del" ∷ [], codes "Delete")
    ∷ (codes "insert" ∷ [], codes "Insert")
    ∷ (codes "home" ∷ [], codes "Home")
    ∷ (codes "end" ∷ [], codes "End")
    ∷ (codes "pageup" ∷ [], codes "Page_Up")
    ∷ (codes "pagedown" ∷ [], codes "Page_Down")
    ∷ (codes "up" ∷ codes "arrowup" ∷ [], codes "Up")
    ∷ (codes "down" ∷ codes "arrowdown" ∷ [], codes "Down")
    ∷ (codes "left" ∷ codes "arrowleft" ∷ [], codes "Left")
    ∷ (codes "right" ∷ codes "arrowright" ∷ [], codes "Right")
    ∷ (codes "comma" ∷ [], codes "comma")
    ∷ (codes "period" ∷ codes "dot" ∷ [], codes "period")
    ∷ (codes "slash" ∷ [], codes "slash")
    ∷ (codes "backslash" ∷ [], codes "backslash")
    ∷ (codes "minus" ∷ [], codes "minus")
    ∷ (codes "equal" ∷ [], codes "equal")
    ∷ (codes "plus" ∷ [], codes "plus")
    ∷ (codes "semicolon" ∷ [], codes "semicolon")
    ∷ (codes "quote" ∷ [], codes "apostrophe")
    ∷ (codes "backquote" ∷ codes "grave" ∷ [], codes "grave")
    ∷ (codes "bracketleft" ∷ [], codes "bracketleft")
    ∷ (codes "bracketright" ∷ [], codes "bracketright")
    ∷ (codes "printscreen" ∷ [], codes "Print")
    ∷ []

unfoldable pub gtk_key_name : Text → Outcome AcceleratorError Text
unfolding without_code_style single_key function_key find_name
gtk_key_name key =
    let t = without_code_style (map lower key) in
    ok_or (unsupported_key t)
      (or_else (single_key t) (or_else (function_key t) (find_name t named_keys)))

abbrev when : Bool → Text → Text
when b t = if b then t else []

unfoldable pub accelerator : Modifiers → Text → Text
accelerator m key =
    when m.ctrl (codes "<Control>")
    ++ (when m.alt (codes "<Alt>")
        ++ (when m.shift (codes "<Shift>") ++ (when m.super (codes "<Super>") ++ key)))

-- `split_last`
unfoldable pub split_last : List Text → Option (Text × List Text)
split_last [] = none
split_last (t ∷ ts) = elim (split_last ts) [
  | none ↦ some (t, [])
  | some (last, init) ↦ some (last, t ∷ init)
]

unfoldable pub to_gtk_parts : List Text → Text → Outcome AcceleratorError Text
unfolding set_modifiers gtk_key_name accelerator
to_gtk_parts modifiers key = do
  m ← set_modifiers modifiers no_modifiers
  name ← gtk_key_name key
  ok (accelerator m name)

unfoldable pub to_gtk_accelerator : Text → Outcome AcceleratorError Text
unfolding split_char trim split_last to_gtk_parts
to_gtk_accelerator shortcut =
    elim (split_last (filter (λ part. not (is_empty part)) (map trim (split_char b'+' shortcut)))) [
      | none ↦ err empty_shortcut
      | some (key, modifiers) ↦ to_gtk_parts modifiers key
    ]

-- `replace` of one text by another, which is not empty; the number is how many characters of an
-- occurrence are still to be dropped.
unfoldable pub replace_loop : Text → Text → ℕ → Text → Text
unfolding starts_with
replace_loop from to skip [] = []
replace_loop from to (suc skip) (c ∷ cs) = replace_loop from to skip cs
replace_loop from to zero (c ∷ cs) = elim (starts_with (c ∷ cs) from) [
  | true ↦ to ++ replace_loop from to (length from - 1) cs
  | false ↦ c ∷ replace_loop from to 0 cs
]

abbrev pub replace : Text → Text → Text → Text
replace t from to = replace_loop from to 0 t

abbrev is_safe : ℕ → Bool
is_safe c =
    is_alphabetic c
    || is_digit c
    || c == b'_'
    || c == b'-'
    || c == b'.'
    || c == b'/'
    || c == b':'
    || c == b'@'
    || c == b'+'

unfoldable pub shell_quote : Text → Text
unfolding replace_loop
shell_quote value =
    if not (is_empty value) && all is_safe value
    then value
    else codes "'" ++ (replace value (codes "'") (codes "'\\''") ++ codes "'")

unfoldable pub gvariant_string : Text → Text
unfolding replace_loop
gvariant_string value =
    codes "'"
    ++ (replace (replace value (codes "\\") (codes "\\\\")) (codes "'") (codes "\\'") ++ codes "'")

unfoldable pub format_string_array : List Text → Text
unfolding gvariant_string join
format_string_array items =
    codes "[" ++ (join (codes ", ") (map gvariant_string items) ++ codes "]")

-- `strip_suffix`
unfoldable pub strip_suffix : Text → Text → Option Text
unfolding strip_prefix
strip_suffix suffix t = elim (strip_prefix (reverse suffix) (reverse t)) [
  | none ↦ none
  | some front ↦ some (reverse front)
]

between : Text → Text → Text → Option Text
unfolding strip_prefix strip_suffix
between front back t = elim (strip_prefix front t) [
  | none ↦ none
  | some rest ↦ strip_suffix back rest
]

unfoldable pub unquote : Text → Text
unfolding between trim replace_loop
unquote value =
    let t = trim value in
    let stripped =
      unwrap_or (or_else (between (codes "'") (codes "'") t) (between (codes "\"") (codes "\"") t))
        t in
    replace (replace stripped (codes "\\'") (codes "'")) (codes "\\\\") (codes "\\")

abbrev after_type : Text → Text
after_type t = elim (strip_prefix (codes "@as") t) [ none ↦ t | some rest ↦ trim rest ]

unfoldable pub parse_string_array : Text → List Text
unfolding between trim strip_prefix split_char unquote
parse_string_array raw =
    let t = trim raw in
    let untyped = after_type t in
    let inner = unwrap_or (between (codes "[") (codes "]") untyped) untyped in
    filter (λ item. not (is_empty item)) (map unquote (split_char b',' inner))
