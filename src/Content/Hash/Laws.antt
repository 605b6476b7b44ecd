-- ===== src/Content/Hash/Laws.antt =====
-- What a generated hash looks like, and what an accepted hash cannot hold.
use copywraith.Common.{
  ℕ, suc, ◌*◌, ◌/◌, ◌%◌, ◌<◌, ◌≡◌, refl, ap, Bool, true, ◌&&◌, [], ◌∷◌, ◌++◌, arith, ◌==◌, length,
  all, All,
}
use copywraith.Common.Text.{Text, Bytes, is_hex_digit, utf8_char, as_bytes, byte_len}
use copywraith.Content.Hash.{hex_digit, hex_encode, is_valid_hash, hash_bytes}

length-hex_encode : (bs : Bytes) → length (hex_encode bs) ≡ 2 * length bs
unfolding hex_encode
length-hex_encode [] = refl
length-hex_encode (b ∷ bs) = omega (arith, length-hex_encode bs)

hex_digit-is_hex_digit : (d : ℕ) → d < 16 → is_hex_digit (hex_digit d) ≡ true
unfolding hex_digit
hex_digit-is_hex_digit d h = ground arith

hex_digit-utf8_char : (d : ℕ) → d < 16 → utf8_char (hex_digit d) ≡ hex_digit d ∷ []
unfolding hex_digit utf8_char
hex_digit-utf8_char d h = ground arith

as_bytes-hex_encode :
    (bs : Bytes) → All (λ b. b < 256) bs → as_bytes (hex_encode bs) ≡ hex_encode bs
unfolding hex_encode as_bytes
as_bytes-hex_encode [] h = refl
as_bytes-hex_encode (b ∷ bs) h =
    rw (hex_digit-utf8_char (b / 16) (omega arith), hex_digit-utf8_char (b % 16) (omega arith))
      (rw (as_bytes-hex_encode bs h.1))

all-hex_encode : (bs : Bytes) → All (λ b. b < 256) bs → all is_hex_digit (hex_encode bs) ≡ true
unfolding hex_encode
all-hex_encode [] h = refl
all-hex_encode (b ∷ bs) h =
    rw
      (hex_digit-is_hex_digit (b / 16) (omega arith), hex_digit-is_hex_digit (b % 16) (omega arith))
      (all-hex_encode bs h.1)

-- A hash computed from a 32-byte digest passes the validity test, so the branch of `write_blob`
-- that reports an invalid generated hash is never taken.
pub hash_bytes-is_valid_hash :
    (sha256 : Bytes → Bytes) (bytes : Bytes)
    → length (sha256 bytes) ≡ 32
    → All (λ b. b < 256) (sha256 bytes)
    → is_valid_hash (hash_bytes sha256 bytes) ≡ true
unfolding is_valid_hash hash_bytes
hash_bytes-is_valid_hash sha256 bytes len h =
    rw (as_bytes-hex_encode (sha256 bytes) h, length-hex_encode (sha256 bytes), len)
      (all-hex_encode (sha256 bytes) h)

hex_digit-injective : (a b : ℕ) → a < 16 → b < 16 → hex_digit a ≡ hex_digit b → a ≡ b
unfolding hex_digit
hex_digit-injective a b ha hb e = ground arith

-- Two digests of bytes with the same hex text are the same digest.
pub hex_encode-injective :
    (a b : Bytes)
    → All (λ x. x < 256) a
    → All (λ x. x < 256) b
    → hex_encode a ≡ hex_encode b
    → a ≡ b
unfolding hex_encode
hex_encode-injective [] [] ha hb e = refl
hex_encode-injective [] (y ∷ b) ha hb e = cc
hex_encode-injective (x ∷ a) [] ha hb e = cc
hex_encode-injective (x ∷ a) (y ∷ b) ha hb e = ground (
  arith,
  hex_encode-injective a b ha.1 hb.1,
  hex_digit-injective (x / 16) (y / 16),
  hex_digit-injective (x % 16) (y % 16),
)

hex_of_utf8 :
    (c : ℕ) (rest : Bytes)
    → all is_hex_digit (utf8_char c ++ rest) ≡ true
    → (is_hex_digit c ≡ true) × (all is_hex_digit rest ≡ true) × (utf8_char c ≡ c ∷ [])
unfolding utf8_char
hex_of_utf8 c rest h = ground arith

hex_of_bytes :
    (t : Text)
    → all is_hex_digit (as_bytes t) ≡ true
    → All (λ c. is_hex_digit c ≡ true) t × (length (as_bytes t) ≡ length t)
unfolding as_bytes
hex_of_bytes [] h = (tt, refl)
hex_of_bytes (c ∷ cs) h =
    let (digit, rest, one) = hex_of_utf8 c (as_bytes cs) h in
    let (digits, len) = hex_of_bytes cs rest in ((digit, digits), rw one (ap suc len))

and_true : (a b : Bool) → (a && b) ≡ true → (a ≡ true) × (b ≡ true)
and_true a b h = ground arith

-- A text accepted as a hash has 64 characters, all hexadecimal digits: it holds no `/`, no `.` and
-- no character beyond ASCII, so that it names a file of the blob directory and nothing else.
pub is_valid_hash-chars :
    (hash : Text)
    → is_valid_hash hash ≡ true
    → All (λ c. is_hex_digit c ≡ true) hash × (length hash ≡ 64)
unfolding is_valid_hash
is_valid_hash-chars hash h =
    let (sized, digits) = and_true (byte_len hash == 64) (all is_hex_digit (as_bytes hash)) h in
    let (chars, len) = hex_of_bytes hash digits in (chars, ground (arith, len))
