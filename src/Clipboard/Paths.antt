-- ===== src/Clipboard/Paths.antt =====
-- `clipboard_file_path`, `percent_decode`, `file_uri`, `percent_encode_path` and
-- `history_opt_out_denies` of src-tauri/src/native_clipboard.rs. `String::from_utf8_lossy` and the
-- file system (`Path::exists`) are parameters.
pub mod RoundTrip
use copywraith.Common.{
  ℕ, zero, suc, ◌+◌, ◌/◌, ◌%◌, Bool, true, false, not, ◌&&◌, ◌||◌, Option, none, some, List, [],
  ◌∷◌, ◌++◌, ltb, ◌==◌, if◌then◌else◌, all,
}
use copywraith.Common.Text.{
  Text, Bytes, codes, as_bytes, starts_with, strip_prefix, contains, is_digit, is_alphabetic,
  is_hex_digit, from_str_radix,
}

unfoldable pub history_opt_out_denies : Bytes → Bool
history_opt_out_denies value = all (λ byte. byte == 0) value

abbrev non_zero : Option ℕ → Option ℕ
non_zero none = none
non_zero (some byte) = if byte == 0 then none else some byte

-- The byte that `%` and the two bytes behind it stand for.
unfoldable pub escaped : ℕ → Bytes → Option ℕ
unfolding from_str_radix
escaped b (h ∷ l ∷ rest) =
    if b == b'%' && is_hex_digit h && is_hex_digit l
    then non_zero (from_str_radix 256 16 (h ∷ l ∷ []))
    else none
escaped b _ = none

-- The loop of `percent_decode`; the number is how many bytes `index` has jumped over.
unfoldable pub decode_loop : ℕ → Bytes → Bytes
unfolding escaped
decode_loop skip [] = []
decode_loop (suc skip) (b ∷ bytes) = decode_loop skip bytes
decode_loop zero (b ∷ bytes) = elim (escaped b bytes) [
  | some byte ↦ byte ∷ decode_loop 2 bytes
  | none ↦ b ∷ decode_loop 0 bytes
]

unfoldable pub is_unreserved : ℕ → Bool
is_unreserved b =
    is_alphabetic b || is_digit b || b == b'/' || b == b'-' || b == b'.' || b == b'_' || b == b'~'

-- A digit of `{:02X}`
abbrev pub hex_upper : ℕ → ℕ
hex_upper d = if ltb d 10 then 48 + d else 55 + d

unfoldable pub encode_byte : ℕ → Text
unfolding is_unreserved
encode_byte b =
    if is_unreserved b then b ∷ [] else b'%' ∷ hex_upper (b / 16) ∷ hex_upper (b % 16) ∷ []

unfoldable pub encode_bytes : Bytes → Text
unfolding encode_byte
encode_bytes [] = []
encode_bytes (b ∷ bytes) = encode_byte b ++ encode_bytes bytes

unfoldable pub percent_encode_path : Text → Text
unfolding encode_bytes as_bytes
percent_encode_path path = encode_bytes (as_bytes path)

module _ (from_utf8_lossy : Bytes → Text) where
  unfoldable pub percent_decode : Text → Text
  unfolding decode_loop as_bytes
  percent_decode text = from_utf8_lossy (decode_loop 0 (as_bytes text))

  -- The path behind `file://`, with or without `localhost`.
  abbrev local_part : Text → Text
  local_part rest = elim (strip_prefix (codes "localhost") rest) [
    | none ↦ rest
    | some path ↦ if starts_with path (codes "/") then path else rest
  ]

  unfoldable pub clipboard_file_path : Text → Text
  unfolding percent_decode strip_prefix starts_with
  clipboard_file_path entry = elim (strip_prefix (codes "file://") entry) [
    | none ↦ entry
    | some rest ↦
        if not (starts_with (local_part rest) (codes "/"))
        then entry
        else percent_decode (local_part rest)
  ]

  -- `exists` asks the file system.
  unfoldable pub file_uri : (Text → Bool) → Text → Text
  unfolding percent_encode_path percent_decode starts_with contains
  file_uri exists path =
      if starts_with path (codes "file://")
      then path
      else if not (contains path (codes "%"))
      then codes "file://" ++ percent_encode_path path
      else if not (exists path) && exists (percent_decode path)
      then codes "file://" ++ percent_encode_path (percent_decode path)
      else codes "file://" ++ percent_encode_path path
