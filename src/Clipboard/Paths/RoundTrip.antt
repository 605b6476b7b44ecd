-- ===== src/Clipboard/Paths/RoundTrip.antt =====
-- That a path comes back from the URI that stands for it.
use copywraith.Common.Text.{
  strip_prefix, Text, Bytes, codes, as_bytes, utf8_char, is_hex_digit, from_str_radix, starts_with,
  contains,
}
use copywraith.Common.{
  ℕ, ◌/◌, ◌%◌, ◌<◌, ◌≡◌, refl, ap, ◌∙◌, Bool, true, false, not, ◌||◌, none, some, [], ◌∷◌, ◌++◌,
  ltb, ◌==◌, arith, All, All-append, Bool-cases, inl, inr,
}
use copywraith.Common.Utf8.{is_scalar}
use copywraith.Clipboard.Paths.{
  escaped, decode_loop, is_unreserved, hex_upper, encode_byte, encode_bytes, percent_encode_path,
  percent_decode, clipboard_file_path, file_uri,
}

hex_upper-hex : (d : ℕ) → d < 16 → is_hex_digit (hex_upper d) ≡ true
hex_upper-hex d h = ground arith

from_str_radix-hex :
    (b : ℕ)
    → b < 256
    → from_str_radix 256 16 (hex_upper (b / 16) ∷ hex_upper (b % 16) ∷ []) ≡ some b
unfolding from_str_radix
from_str_radix-hex b h = ground arith

escaped-plain : (b : ℕ) (bytes : Bytes) → is_unreserved b ≡ true → escaped b bytes ≡ none
unfolding is_unreserved escaped
escaped-plain b [] h = refl
escaped-plain b (x ∷ []) h = refl
escaped-plain b (x ∷ y ∷ bytes) h = ground arith

-- Bytes of a text without NUL.
abbrev AreBytes : Bytes → Type 0
AreBytes = All (λ b. (0 < b) × (b < 256))

escaped-encoded :
    (b : ℕ) (bytes : Bytes)
    → (0 < b) × (b < 256)
    → escaped b'%' (hex_upper (b / 16) ∷ hex_upper (b % 16) ∷ bytes) ≡ some b
unfolding escaped
escaped-encoded b bytes (low, high) =
    let zero_no : (b == 0) ≡ false = ground arith in
    rw
      (
        hex_upper-hex (b / 16) (omega arith),
        hex_upper-hex (b % 16) (omega arith),
        from_str_radix-hex b high,
        zero_no,
      )
      refl

decode_loop-encode_bytes :
    (bytes : Bytes) → AreBytes bytes → decode_loop 0 (encode_bytes bytes) ≡ bytes
unfolding decode_loop encode_bytes encode_byte
decode_loop-encode_bytes [] h = refl
decode_loop-encode_bytes (b ∷ bytes) h = elim (Bool-cases (is_unreserved b)) [
  | inl plain ↦
      rw (plain, escaped-plain b (encode_bytes bytes) plain, decode_loop)
        (ap (◌∷◌ b) (decode_loop-encode_bytes bytes h.1))
  | inr special ↦
      rw (special, escaped-encoded b (encode_bytes bytes) h.0, decode_loop)
        (ap (◌∷◌ b) (decode_loop-encode_bytes bytes h.1))
]

abbrev IsAscii : Text → Type 0
IsAscii = All (λ c. ltb c 0x80 ≡ true)

as_bytes-IsAscii : (t : Text) → IsAscii t → as_bytes t ≡ t
unfolding as_bytes utf8_char
as_bytes-IsAscii [] h = refl
as_bytes-IsAscii (c ∷ t) h = rw (h.0, as_bytes-IsAscii t h.1) refl

unreserved_ascii : (b : ℕ) → is_unreserved b ≡ true → ltb b 0x80 ≡ true
unfolding is_unreserved
unreserved_ascii b h = ground arith

encode_byte-IsAscii : (b : ℕ) → b < 256 → IsAscii (encode_byte b)
unfolding encode_byte
encode_byte-IsAscii b h = elim (Bool-cases (is_unreserved b)) [
  | inl plain ↦ rw plain (unreserved_ascii b plain, tt)
  | inr special ↦ rw special (refl, (ground arith, (ground arith, tt)))
]

encode_bytes-IsAscii : (bytes : Bytes) → AreBytes bytes → IsAscii (encode_bytes bytes)
unfolding encode_bytes
encode_bytes-IsAscii [] h = tt
encode_bytes-IsAscii (b ∷ bytes) h =
    All-append (λ c. ltb c 0x80 ≡ true) (encode_byte b) (encode_bytes bytes)
      (encode_byte-IsAscii b h.0.1) (encode_bytes-IsAscii bytes h.1)

-- A path's characters: scalar values other than NUL.
abbrev pub ArePathChars : Text → Type 0
ArePathChars = All (λ c. (is_scalar c ≡ true) × (0 < c))

utf8_char-AreBytes : (c : ℕ) → is_scalar c ≡ true → 0 < c → AreBytes (utf8_char c)
unfolding utf8_char
utf8_char-AreBytes c scalar filled = elim (Bool-cases (ltb c 0x80)) [
  | inl one ↦ rw one ((filled, ground arith), tt)
  | inr more ↦ rw more (elim (Bool-cases (ltb c 0x800)) [
    | inl two ↦ rw two ((ground arith, ground arith), ((ground arith, ground arith), tt))
    | inr most ↦ rw most (elim (Bool-cases (ltb c 0x10000)) [
      | inl three ↦ rw three (
        (ground arith, ground arith),
        ((ground arith, ground arith), ((ground arith, ground arith), tt)),
      )
      | inr four ↦ rw four (
        (ground arith, ground arith),
        (
          (ground arith, ground arith),
          ((ground arith, ground arith), ((ground arith, ground arith), tt)),
        ),
      )
    ])
  ])
]

as_bytes-AreBytes : (t : Text) → ArePathChars t → AreBytes (as_bytes t)
unfolding as_bytes
as_bytes-AreBytes [] h = tt
as_bytes-AreBytes (c ∷ t) h =
    All-append (λ b. (0 < b) × (b < 256)) (utf8_char c) (as_bytes t)
      (utf8_char-AreBytes c h.0.0 h.0.1) (as_bytes-AreBytes t h.1)

module _ (from_utf8_lossy : Bytes → Text)
    (lossless : (t : Text) → ArePathChars t → from_utf8_lossy (as_bytes t) ≡ t) where
  percent_decode-percent_encode_path :
      (path : Text)
      → ArePathChars path
      → percent_decode from_utf8_lossy (percent_encode_path path) ≡ path
  unfolding percent_decode percent_encode_path
  percent_decode-percent_encode_path path h =
      let bytes = as_bytes-AreBytes path h in
      ap (λ x. from_utf8_lossy (decode_loop 0 x))
        (as_bytes-IsAscii (encode_bytes (as_bytes path))
          (encode_bytes-IsAscii (as_bytes path) bytes))
      ∙ ap from_utf8_lossy (decode_loop-encode_bytes (as_bytes path) bytes)
      ∙ lossless path h

  clipboard_file_path-encoded :
      (rest : Text)
      → ArePathChars (b'/' ∷ rest)
      → clipboard_file_path from_utf8_lossy (codes "file://" ++ percent_encode_path (b'/' ∷ rest))
        ≡ b'/' ∷ rest
  unfolding clipboard_file_path percent_encode_path encode_bytes encode_byte is_unreserved as_bytes
      strip_prefix starts_with
  clipboard_file_path-encoded rest h = percent_decode-percent_encode_path (b'/' ∷ rest) h

  file_uri-encoded :
      (exists : Text → Bool) (rest : Text)
      → (not (contains (b'/' ∷ rest) (codes "%")) || exists (b'/' ∷ rest)) ≡ true
      → file_uri from_utf8_lossy exists (b'/' ∷ rest)
        ≡ codes "file://" ++ percent_encode_path (b'/' ∷ rest)
  unfolding file_uri starts_with
  file_uri-encoded exists rest plain = elim (Bool-cases (contains (b'/' ∷ rest) (codes "%"))) [
    | inr free ↦ rw (free, file_uri) refl
    | inl has_escape ↦
        rw
          (
            has_escape,
            there (contains (b'/' ∷ rest) (codes "%")) (exists (b'/' ∷ rest)) has_escape plain,
            file_uri,
          )
          refl
  ]
    where
      there : (c e : Bool) → c ≡ true → (not c || e) ≡ true → e ≡ true
      there c e h k = ground arith

  -- An absolute path that is written to the clipboard as a URI is read back as it was, if it holds no
  -- `%` or names a file that exists, whatever else the file system holds.
  pub clipboard_file_path-file_uri :
      (exists : Text → Bool) (rest : Text)
      → ArePathChars (b'/' ∷ rest)
      → (not (contains (b'/' ∷ rest) (codes "%")) || exists (b'/' ∷ rest)) ≡ true
      → clipboard_file_path from_utf8_lossy (file_uri from_utf8_lossy exists (b'/' ∷ rest))
        ≡ b'/' ∷ rest
  clipboard_file_path-file_uri exists rest h plain =
      ap (clipboard_file_path from_utf8_lossy) (file_uri-encoded exists rest plain)
      ∙ clipboard_file_path-encoded rest h
