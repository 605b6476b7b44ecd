-- ===== src/Common/Utf8.antt =====
-- `String::from_utf8`: the strict decoder of UTF-8.
pub mod Laws
use copywraith.Common.Tests.{ltb, leb, if◌then◌else◌}
use copywraith.Common.Text.{Text, Bytes}
use Prim.Native.Nat.{ℕ, ◌+◌, ◌-◌, ◌*◌}
use mathlib.Core.Bool.{Bool, ◌&&◌, ◌||◌}
use mathlib.Core.List.{[], ◌∷◌}
use mathlib.Core.Option.{Option, none, some}

abbrev pub is_scalar : ℕ → Bool
is_scalar c = ltb c 0xd800 || (leb 0xe000 c && ltb c 0x110000)

abbrev is_continuation : ℕ → Bool
is_continuation b = leb 0x80 b && leb b 0xbf

abbrev cons_to : ℕ → Option Text → Option Text
cons_to c none = none
cons_to c (some cs) = some (c ∷ cs)

-- A sequence of two, three or four bytes: its continuation bytes, and a value that needs as many.
two : ℕ → ℕ → Option Text → Option Text
two a b rest =
    let c = (a - 0xc0) * 64 + (b - 0x80) in
    if is_continuation b && leb 0x80 c then cons_to c rest else none

three : ℕ → ℕ → ℕ → Option Text → Option Text
three a b d rest =
    let c = (a - 0xe0) * 4096 + (b - 0x80) * 64 + (d - 0x80) in
    if is_continuation b && is_continuation d && leb 0x800 c && is_scalar c
    then cons_to c rest
    else none

four : ℕ → ℕ → ℕ → ℕ → Option Text → Option Text
four a b d e rest =
    let c = (a - 0xf0) * 262144 + (b - 0x80) * 4096 + (d - 0x80) * 64 + (e - 0x80) in
    if is_continuation b
      && is_continuation d
      && is_continuation e
      && leb 0x10000 c
      && ltb c 0x110000
    then cons_to c rest
    else none

unfoldable pub from_utf8 : Bytes → Option Text
unfolding two three four
from_utf8 [] = some []
from_utf8 (a ∷ []) = if ltb a 0x80 then some (a ∷ []) else none
from_utf8 (a ∷ b ∷ []) =
    let next = from_utf8 (b ∷ []) in
    if ltb a 0x80
    then cons_to a next
    else if leb 0xc0 a && ltb a 0xe0
    then two a b (some [])
    else none
from_utf8 (a ∷ b ∷ d ∷ []) =
    let next = from_utf8 (b ∷ d ∷ []) in
    let last = from_utf8 (d ∷ []) in
    if ltb a 0x80
    then cons_to a next
    else if leb 0xc0 a && ltb a 0xe0
    then two a b last
    else if leb 0xe0 a && ltb a 0xf0
    then three a b d (some [])
    else none
from_utf8 (a ∷ b ∷ d ∷ e ∷ bs) =
    let one_on = from_utf8 (b ∷ d ∷ e ∷ bs) in
    let two_on = from_utf8 (d ∷ e ∷ bs) in
    let three_on = from_utf8 (e ∷ bs) in
    let four_on = from_utf8 bs in
    if ltb a 0x80
    then cons_to a one_on
    else if leb 0xc0 a && ltb a 0xe0
    then two a b two_on
    else if leb 0xe0 a && ltb a 0xf0
    then three a b d three_on
    else if leb 0xf0 a && ltb a 0xf8
    then four a b d e four_on
    else none
