-- ===== src/Common/Utf8/Laws.antt =====
-- The decoder of UTF-8 inverts `as_bytes`.
use copywraith.Common.Tests.{ltb, leb, if◌then◌else◌, Bool-cases}
use copywraith.Common.Lists.{All}
use copywraith.Common.Text.{Text, Bytes, utf8_char, as_bytes}
use copywraith.Common.Utf8.{is_scalar, cons_to, from_utf8, two, three, four}
use native.Mathlib.Omega.{arith}
use Prim.Native.Nat.{ℕ, ◌+◌, ◌-◌, ◌*◌, ◌/◌, ◌%◌, ◌≤◌, ◌<◌}
use mathlib.Core.Bool.{true, ◌&&◌}
use mathlib.Core.Logic.{inl, inr}
use mathlib.Core.List.{[], ◌∷◌, ◌++◌}
use mathlib.Core.Option.{Option, some}
use mathlib.Core.Path.{◌≡◌, refl, ap, ◌∙◌}

two_lem :
    (a b : ℕ) (rest : Option Text)
    → a < 32
    → 2 ≤ a
    → b < 64
    → two (0xc0 + a) (0x80 + b) rest ≡ cons_to (a * 64 + b) rest
unfolding two
two_lem a b rest h k l =
    let e : (0xc0 + a - 0xc0) * 64 + (0x80 + b - 0x80) ≡ a * 64 + b = omega arith in
    rw e (ground arith)

three_lem :
    (a b d : ℕ) (rest : Option Text)
    → a < 16
    → b < 64
    → d < 64
    → 0x800 ≤ a * 4096 + b * 64 + d
    → is_scalar (a * 4096 + b * 64 + d) ≡ true
    → three (0xe0 + a) (0x80 + b) (0x80 + d) rest ≡ cons_to (a * 4096 + b * 64 + d) rest
unfolding three
three_lem a b d rest h k l big scalar =
    let e : (0xe0 + a - 0xe0) * 4096 + (0x80 + b - 0x80) * 64 + (0x80 + d - 0x80)
        ≡ a * 4096 + b * 64 + d =
      omega arith in
    rw (e, scalar) (ground arith)

four_lem :
    (a b d f : ℕ) (rest : Option Text)
    → a < 8
    → b < 64
    → d < 64
    → f < 64
    → 0x10000 ≤ a * 262144 + b * 4096 + d * 64 + f
    → a * 262144 + b * 4096 + d * 64 + f < 0x110000
    → four (0xf0 + a) (0x80 + b) (0x80 + d) (0x80 + f) rest
      ≡ cons_to (a * 262144 + b * 4096 + d * 64 + f) rest
unfolding four
four_lem a b d f rest h k l m big small =
    let e : (0xf0 + a - 0xf0) * 262144
          + (0x80 + b - 0x80) * 4096
          + (0x80 + d - 0x80) * 64
          + (0x80 + f - 0x80)
        ≡ a * 262144 + b * 4096 + d * 64 + f =
      omega arith in
    rw e (ground arith)

-- One character in front, by the number of its bytes.
from_utf8-one : (a : ℕ) (bs : Bytes) → a < 0x80 → from_utf8 (a ∷ bs) ≡ cons_to a (from_utf8 bs)
unfolding from_utf8
from_utf8-one a [] h = ground arith
from_utf8-one a (b ∷ []) h = ground arith
from_utf8-one a (b ∷ d ∷ []) h = ground arith
from_utf8-one a (b ∷ d ∷ e ∷ bs) h = ground arith

lead_two :
    {A : Type 0} (a : ℕ) (x y z : A)
    → a < 32
    → (if ltb (0xc0 + a) 0x80
        then x
        else if leb 0xc0 (0xc0 + a) && ltb (0xc0 + a) 0xe0
        then y
        else z)
      ≡ y
lead_two a x y z h = ground arith

from_utf8-two :
    (a b : ℕ) (bs : Bytes)
    → a < 32
    → from_utf8 ((0xc0 + a) ∷ (0x80 + b) ∷ bs) ≡ two (0xc0 + a) (0x80 + b) (from_utf8 bs)
unfolding from_utf8
from_utf8-two a b [] h = lead_two a _ _ _ h
from_utf8-two a b (d ∷ []) h = lead_two a _ _ _ h
from_utf8-two a b (d ∷ e ∷ bs) h = lead_two a _ _ _ h

lead_three :
    {A : Type 0} (a : ℕ) (x y z w : A)
    → a < 16
    → (if ltb (0xe0 + a) 0x80
        then x
        else if leb 0xc0 (0xe0 + a) && ltb (0xe0 + a) 0xe0
        then y
        else if leb 0xe0 (0xe0 + a) && ltb (0xe0 + a) 0xf0
        then z
        else w)
      ≡ z
lead_three a x y z w h = ground arith

from_utf8-three :
    (a b d : ℕ) (bs : Bytes)
    → a < 16
    → from_utf8 ((0xe0 + a) ∷ (0x80 + b) ∷ (0x80 + d) ∷ bs)
      ≡ three (0xe0 + a) (0x80 + b) (0x80 + d) (from_utf8 bs)
unfolding from_utf8
from_utf8-three a b d [] h = lead_three a _ _ _ _ h
from_utf8-three a b d (e ∷ bs) h = lead_three a _ _ _ _ h

from_utf8-four :
    (a b d f : ℕ) (bs : Bytes)
    → a < 8
    → from_utf8 ((0xf0 + a) ∷ (0x80 + b) ∷ (0x80 + d) ∷ (0x80 + f) ∷ bs)
      ≡ four (0xf0 + a) (0x80 + b) (0x80 + d) (0x80 + f) (from_utf8 bs)
unfolding from_utf8
from_utf8-four a b d f bs h = ground arith

-- The digits of a character to the base 64.
digits_two : (c : ℕ) → c / 64 * 64 + c % 64 ≡ c
digits_two c = omega arith

digits_three : (c : ℕ) → c / 4096 * 4096 + c / 64 % 64 * 64 + c % 64 ≡ c
digits_three c = omega arith

digits_four : (c : ℕ) → c / 262144 * 262144 + c / 4096 % 64 * 4096 + c / 64 % 64 * 64 + c % 64 ≡ c
digits_four c = omega arith

wide :
    (c : ℕ) (bs : Bytes)
    → 0x800 ≤ c
    → c < 0x10000
    → is_scalar c ≡ true
    → from_utf8 ((0xe0 + c / 4096) ∷ (0x80 + c / 64 % 64) ∷ (0x80 + c % 64) ∷ bs)
      ≡ cons_to c (from_utf8 bs)
wide c bs big small scalar =
    from_utf8-three (c / 4096) (c / 64 % 64) (c % 64) bs (omega arith)
    ∙ three_lem (c / 4096) (c / 64 % 64) (c % 64) (from_utf8 bs) (omega arith) (omega arith)
        (omega arith) (omega arith) (rw (digits_three c) scalar)
    ∙ ap (λ n. cons_to n (from_utf8 bs)) (digits_three c)

widest :
    (c : ℕ) (bs : Bytes)
    → 0x10000 ≤ c
    → c < 0x110000
    → from_utf8
        ((0xf0 + c / 262144) ∷ (0x80 + c / 4096 % 64) ∷ (0x80 + c / 64 % 64) ∷ (0x80 + c % 64) ∷ bs)
      ≡ cons_to c (from_utf8 bs)
widest c bs big small =
    from_utf8-four (c / 262144) (c / 4096 % 64) (c / 64 % 64) (c % 64) bs (omega arith)
    ∙ four_lem (c / 262144) (c / 4096 % 64) (c / 64 % 64) (c % 64) (from_utf8 bs) (omega arith)
        (omega arith) (omega arith) (omega arith) (omega arith) (omega arith)
    ∙ ap (λ n. cons_to n (from_utf8 bs)) (digits_four c)

double :
    (c : ℕ) (bs : Bytes)
    → 0x80 ≤ c
    → c < 0x800
    → from_utf8 ((0xc0 + c / 64) ∷ (0x80 + c % 64) ∷ bs) ≡ cons_to c (from_utf8 bs)
double c bs big small =
    from_utf8-two (c / 64) (c % 64) bs (omega arith)
    ∙ two_lem (c / 64) (c % 64) (from_utf8 bs) (omega arith) (omega arith) (omega arith)
    ∙ ap (λ n. cons_to n (from_utf8 bs)) (digits_two c)

from_utf8-utf8_char :
    (c : ℕ) (bs : Bytes)
    → is_scalar c ≡ true
    → from_utf8 (utf8_char c ++ bs) ≡ cons_to c (from_utf8 bs)
unfolding utf8_char
from_utf8-utf8_char c bs scalar = elim (Bool-cases (ltb c 0x80)) [
  | inl y ↦ rw y (from_utf8-one c bs (ground arith))
  | inr n ↦ rw n (elim (Bool-cases (ltb c 0x800)) [
    | inl y ↦ rw y (double c bs (ground arith) (ground arith))
    | inr m ↦ rw m (elim (Bool-cases (ltb c 0x10000)) [
      | inl y ↦ rw y (wide c bs (ground arith) (ground arith) scalar)
      | inr l ↦ rw l (widest c bs (ground arith) (ground arith))
    ])
  ])
]

-- Decoding the bytes of a text of Unicode scalar values gives the text back.
pub from_utf8-as_bytes :
    (t : Text) → All (λ c. is_scalar c ≡ true) t → from_utf8 (as_bytes t) ≡ some t
unfolding as_bytes from_utf8
from_utf8-as_bytes [] h = refl
from_utf8-as_bytes (c ∷ cs) (scalar, rest) =
    from_utf8-utf8_char c (as_bytes cs) scalar ∙ ap (cons_to c) (from_utf8-as_bytes cs rest)
