-- ===== src/Server/Crypto/Primitives/Compare.antt =====
-- That `constant_time_eq` of server/src/crypto.rs decides equality, by the binary digits of `|=`
-- and `^`.
use Prim.Native.Nat.{max, digits, differ, bit_or, bit_xor, bit_or-bitwise, bit_xor-bitwise}
use copywraith.Common.{
  ◌↔◌, ℕ, zero, suc, ◌/◌, ◌%◌, ◌≤◌, ◌≡◌, refl, ap, sym, ◌∙◌, true, [], ◌∷◌, length, arith,
}
use copywraith.Common.Text.{Bytes}
use copywraith.Server.Crypto.Primitives.{difference, constant_time_eq}

-- Digits with an operation that is 0 on equal digits only.
differ-zero : (x y : ℕ) → differ x y ≡ 0 → x ≡ y
differ-zero zero y h = sym h
differ-zero (suc x) zero h = h
differ-zero (suc x) (suc y) h = ap suc (differ-zero x y h)

differ_same : (x : ℕ) → differ x x ≡ 0
differ_same zero = refl
differ_same (suc x) = differ_same x

xor_digits-zero : (n a b : ℕ) → a ≤ n → digits (λ y. y) differ n a b ≡ 0 → a ≡ b
xor_digits-zero zero a b p h = omega arith
xor_digits-zero (suc n) zero b p h = sym h
xor_digits-zero (suc n) (suc a) b p h =
    let half = xor_digits-zero n (suc a / 2) (b / 2) (omega arith) (omega arith) in
    let low = differ-zero (suc a % 2) (b % 2) (omega arith) in omega arith

xor_digits_same : (n a : ℕ) → a ≤ n → digits (λ y. y) differ n a a ≡ 0
xor_digits_same zero a p = omega arith
xor_digits_same (suc n) zero p = refl
xor_digits_same (suc n) (suc a) p =
    let half = xor_digits_same n (suc a / 2) (omega arith) in
    let low = differ_same (suc a % 2) in omega arith

or_digits-zero : (n a b : ℕ) → a ≤ n → digits (λ y. y) max n a b ≡ 0 → (a ≡ 0) × (b ≡ 0)
or_digits-zero zero a b p h = (omega arith, h)
or_digits-zero (suc n) zero b p h = (refl, h)
or_digits-zero (suc n) (suc a) b p h =
    let half = or_digits-zero n (suc a / 2) (b / 2) (omega arith) (omega arith) in
    absurd (omega (arith, half.0))

bit_xor-zero : (a b : ℕ) → bit_xor a b ≡ 0 → a ≡ b
bit_xor-zero a b h = xor_digits-zero a a b (omega arith) (sym (λ i. bit_xor-bitwise a b i) ∙ h)

bit_xor_same : (a : ℕ) → bit_xor a a ≡ 0
bit_xor_same a = (λ i. bit_xor-bitwise a a i) ∙ xor_digits_same a a (omega arith)

bit_or-zero : (a b : ℕ) → bit_or a b ≡ 0 → (a ≡ 0) × (b ≡ 0)
bit_or-zero a b h = or_digits-zero a a b (omega arith) (sym (λ i. bit_or-bitwise a b i) ∙ h)

difference-zero :
    (d : ℕ) (a b : Bytes) → length a ≡ length b → difference d a b ≡ 0 → (d ≡ 0) × (a ≡ b)
unfolding difference
difference-zero d [] [] l h = (h, refl)
difference-zero d [] (y ∷ b) l h = absurd (omega arith)
difference-zero d (x ∷ a) [] l h = absurd (omega arith)
difference-zero d (x ∷ a) (y ∷ b) l h =
    let (now, rest) = difference-zero (bit_or d (bit_xor x y)) a b (omega arith) h in
    let (before, here) = bit_or-zero d (bit_xor x y) now in
    (before, rw (bit_xor-zero x y here, rest) refl)

difference_same : (a : Bytes) → difference 0 a a ≡ 0
unfolding difference
difference_same [] = refl
difference_same (x ∷ a) = rw (bit_xor_same x) (difference_same a)

constant_time_eq_sound : (a b : Bytes) → constant_time_eq a b ≡ true → a ≡ b
unfolding constant_time_eq
constant_time_eq_sound a b h = (difference-zero 0 a b (ground arith) (ground arith)).1

pub constant_time_eq_same : (a : Bytes) → constant_time_eq a a ≡ true
unfolding constant_time_eq
constant_time_eq_same a = ground (arith, difference_same a)

-- The comparison of keys accepts two byte strings if and only if they are equal.
pub constant_time_eq_iff : (a b : Bytes) → (constant_time_eq a b ≡ true) ↔ (a ≡ b)
constant_time_eq_iff a b = (constant_time_eq_sound a b, λ e. rw e (constant_time_eq_same b))
