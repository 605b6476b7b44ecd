-- ===== src/Content/Rtf.antt =====
-- `strip_rtf` of content.rs, with `cp1252_byte_to_char`, `push_rtf_unicode_unit` and
-- `skip_rtf_fallback_chars`. The source's index is the text that is left; `Scan` says how.
mod Chars
pub mod Strip
use copywraith.Common.{
  ℕ, zero, suc, ◌+◌, ◌-◌, ◌*◌, ◌^◌, ◌%◌, min, Bool, true, false, ◌&&◌, ◌||◌, Option, none, some,
  List, [], ◌∷◌, ◌++◌, ltb, leb, ◌==◌, if◌then◌else◌, length, take, drop, is_some, is_none,
  unwrap_or,
}
use copywraith.Common.Int.{ℤ, pos, negsuc}
use copywraith.Common.Text.{
  Text, codes, same, starts_with, trim, trim_start, is_alphabetic, is_digit, is_empty, take_while,
  from_str_radix, from_u32,
}
use copywraith.Common.Scan.{scan, scan_skip}
unfoldable pub use Chars.{cp1252_byte_to_char, parse_i32, unit_of, skip_rtf_fallback_chars, head_is}

pub record RtfState : Type 0 where
  pub depth : ℕ
  pub skip_depth : Option ℕ
  pub uc_skip : ℕ
  pub pending_high_surrogate : Option ℕ
  pub result : Text

abbrev pub push : RtfState → ℕ → RtfState
push s c = record s { result = s.result ++ c ∷ [] }

abbrev pub push_option : RtfState → Option ℕ → RtfState
push_option s none = s
push_option s (some c) = push s c

low_surrogate : RtfState → Option ℕ → ℕ → RtfState
low_surrogate s none unit = s
low_surrogate s (some high) unit =
    push_option (record s { pending_high_surrogate = none })
      (from_u32 (0x10000 + (high - 0xd800) * 2 ^ 10 + (unit - 0xdc00)))

-- One UTF-16 code unit; the halves of a surrogate pair come in consecutive calls.
unfoldable pub push_rtf_unicode_unit : RtfState → ℕ → RtfState
unfolding low_surrogate
push_rtf_unicode_unit s unit =
    if leb 0xd800 unit && leb unit 0xdbff
    then record s { pending_high_surrogate = some unit }
    else if leb 0xdc00 unit && leb unit 0xdfff
    then low_surrogate s s.pending_high_surrogate unit
    else push_option (record s { pending_high_surrogate = none }) (from_u32 unit)

-- The groups that hold no document text; `rest` is at most 20 characters after the `{`.
unfoldable pub starts_skipped_group : Text → Bool
unfolding starts_with
starts_skipped_group rest =
    starts_with rest (codes "\\fonttbl")
    || starts_with rest (codes "\\colortbl")
    || starts_with rest (codes "\\stylesheet")
    || starts_with rest (codes "\\info")
    || starts_with rest (codes "\\*\\")
    || starts_with rest (codes "\\expandedcolortbl")

-- `{`
unfoldable pub open_group : RtfState → Text → RtfState
unfolding starts_skipped_group
open_group s cs =
    let t = record s { depth = s.depth + 1 } in
    if is_none s.skip_depth && head_is b'\\' cs && starts_skipped_group (take 20 cs)
    then record t { skip_depth = some (s.depth + 1) }
    else t

abbrev option_is : Option ℕ → ℕ → Bool
option_is none n = false
option_is (some m) n = m == n

-- `}`; the depth saturates at 0
unfoldable pub close_group : RtfState → RtfState
close_group s =
    let t = if option_is s.skip_depth s.depth then record s { skip_depth = none } else s in
    record t { depth = s.depth - 1 }

unicode_escape : RtfState → Option ℤ → RtfState
unfolding push_rtf_unicode_unit unit_of
unicode_escape s none = s
unicode_escape s (some n) = push_rtf_unicode_unit s (unit_of n)

-- A control word with its parameter; `rest` is what follows its delimiter. The number is how much
-- of `rest` is consumed.
unfoldable pub control_word : RtfState → Text → Text → Text → RtfState × ℕ
unfolding unicode_escape skip_rtf_fallback_chars parse_i32 from_str_radix same
control_word s word param rest =
    if same word (codes "par") || same word (codes "line")
    then (push s b'\n', 0)
    else if same word (codes "tab")
    then (push s b'\t', 0)
    else if same word (codes "emdash")
    then (push s 0x2014, 0)
    else if same word (codes "endash")
    then (push s 0x2013, 0)
    else if same word (codes "lquote")
    then (push s 0x2018, 0)
    else if same word (codes "rquote")
    then (push s 0x2019, 0)
    else if same word (codes "ldblquote")
    then (push s 0x201c, 0)
    else if same word (codes "rdblquote")
    then (push s 0x201d, 0)
    else if same word (codes "bullet")
    then (push s 0x2022, 0)
    else if same word (codes "uc")
    then (record s { uc_skip = min (unwrap_or (from_str_radix (2 ^ 64) 10 param) 1) 8 }, 0)
    else if same word (codes "u")
    then (unicode_escape s (parse_i32 param), skip_rtf_fallback_chars rest s.uc_skip)
    else (s, 0)

abbrev pub is_param_char : ℕ → Bool
is_param_char c = c == b'-' || is_digit c

-- Reads the control word at the head of `cs`.
unfoldable pub read_control : RtfState → Text → RtfState × ℕ
unfolding control_word take_while
read_control s cs =
    let word = take_while is_alphabetic cs in
    let after_word = drop (length word) cs in
    let param = take_while is_param_char after_word in
    let after_param = drop (length param) after_word in
    let space : ℕ = if head_is b' ' after_param then 1 else 0 in
    let (s', k) = control_word s word param (drop space after_param) in
    (s', length word + length param + space + k)

-- A hex-encoded character; `rest` follows the quote.
unfoldable pub hex_escape : RtfState → Text → RtfState × ℕ
unfolding from_str_radix cp1252_byte_to_char
hex_escape s rest =
    if ltb 1 (length rest)
    then (
      elim (from_str_radix 256 16 (take 2 rest)) [
        | none ↦ s
        | some byte ↦ push s (cp1252_byte_to_char byte)
      ],
      3,
    )
    else (s, 1)

-- What follows a backslash outside a skipped group.
unfoldable pub escape : RtfState → Text → RtfState × ℕ
unfolding hex_escape read_control
escape s [] = (s, 0)
escape s (c ∷ rest) =
    if c == b'\\' || c == b'{' || c == b'}'
    then (push s c, 1)
    else if c == b'\n' || c == b'\r'
    then (s, 1)
    else if c == b'\''
    then hex_escape s rest
    else read_control s (c ∷ rest)

-- The body of the loop.
unfoldable pub rtf_step : RtfState → ℕ → Text → RtfState × ℕ
unfolding open_group close_group escape
rtf_step s c cs =
    if c == b'{'
    then (open_group s cs, 0)
    else if c == b'}'
    then (close_group s, 0)
    else if c == b'\\' && is_none s.skip_depth
    then escape s cs
    else if is_some s.skip_depth
    then (s, 0)
    else if leb 1 s.depth
    then (push s c, 0)
    else (s, 0)

abbrev pub rtf_start : RtfState
rtf_start = record {
  depth = 0;
  skip_depth = none;
  uc_skip = 1;
  pending_high_surrogate = none;
  result = [];
}

-- Where stripping leaves nothing, the original stands.
abbrev or_original : Text → Text → Text
or_original trimmed rtf = if is_empty trimmed then trim rtf else trimmed

unfoldable pub strip_rtf : Text → Text
unfolding rtf_step scan_skip trim trim_start starts_with
strip_rtf rtf =
    if starts_with (trim_start rtf) (codes "{\\rtf")
    then or_original (trim (scan rtf_step rtf_start rtf).result) rtf
    else rtf
