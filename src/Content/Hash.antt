-- ===== src/Content/Hash.antt =====
-- `hash_bytes`, `hash_text`, `hex_encode` and `is_valid_hash` of content.rs. SHA-256 itself is the
-- sha2 crate's and enters as a parameter.
pub mod Laws
use copywraith.Common.{
  ℕ, ◌+◌, ◌/◌, ◌%◌, Bool, ◌&&◌, List, [], ◌∷◌, ltb, ◌==◌, if◌then◌else◌, length, all,
}
use copywraith.Common.Text.{Text, Bytes, is_hex_digit, as_bytes, byte_len}

-- One digit of `{:02x}`.
unfoldable pub hex_digit : ℕ → ℕ
hex_digit d = if ltb d 10 then b'0' + d else 87 + d

unfoldable pub hex_encode : Bytes → Text
unfolding hex_digit
hex_encode [] = []
hex_encode (b ∷ bs) = hex_digit (b / 16) ∷ hex_digit (b % 16) ∷ hex_encode bs

unfoldable pub is_valid_hash : Text → Bool
unfolding byte_len
is_valid_hash hash = byte_len hash == 64 && all is_hex_digit (as_bytes hash)

module _ (sha256 : Bytes → Bytes) where
  unfoldable pub hash_bytes : Bytes → Text
  hash_bytes bytes = hex_encode (sha256 bytes)

  unfoldable pub hash_text : Text → Text
  hash_text text = hash_bytes (as_bytes text)
