-- ===== src/Server/Crypto/Primitives.antt =====
-- What server/src/crypto.rs takes from other crates, the laws it relies on, and its own
-- comparison of keys.
pub mod Compare
use Prim.Native.Nat.{bit_or, bit_xor}
use copywraith.Common.{
  ℕ, ◌+◌, ◌<◌, ◌≡◌, Bool, false, not, Option, some, ◌∷◌, ◌==◌, if◌then◌else◌, length,
}
use copywraith.Common.Text.{Text, Bytes}

-- `none` is the error of the operation. `seal` and `open` are AES-256-GCM with the tag behind the
-- ciphertext; both refuse a key that is not 32 bytes.
pub record Primitives : Type 0 where
  pub argon2 : Bytes → Bytes → Option Bytes
  pub hkdf : Bytes → Bytes → Option Bytes
  pub seal : Bytes → Bytes → Bytes → Option Bytes
  pub unseal : Bytes → Bytes → Bytes → Option Bytes
  pub sha256 : Bytes → Bytes
  pub base64_encode : Bytes → Text
  pub base64_decode : Text → Option Bytes

-- The documented behaviour of those crates.
pub record Lawful (p : Primitives) : Type 0 where
  pub unseal-seal : (k n m c : Bytes) → p.seal k n m ≡ some c → p.unseal k n c ≡ some m
  pub length-seal : (k n m c : Bytes) → p.seal k n m ≡ some c → length c ≡ length m + 16
  pub decode-encode : (b : Bytes) → p.base64_decode (p.base64_encode b) ≡ some b

abbrev pub IsByte : ℕ → Type 0
IsByte b = b < 256

-- The loop of `constant_time_eq`: `diff |= x ^ y` over the zipped bytes.
unfoldable pub difference : ℕ → Bytes → Bytes → ℕ
difference diff (x ∷ xs) (y ∷ ys) = difference (bit_or diff (bit_xor x y)) xs ys
difference diff _ _ = diff

unfoldable pub constant_time_eq : Bytes → Bytes → Bool
unfolding difference
constant_time_eq a b = if not (length a == length b) then false else difference 0 a b == 0
