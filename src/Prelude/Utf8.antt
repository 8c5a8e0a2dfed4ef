-- ===== src/Prelude/Utf8.antt =====
-- `str::from_utf8`: whether bytes are UTF-8, by the bytes that may come next.
use Prim.Native.Nat.{ℕ}
use mathlib.Core.Bool.{Bool, true, false, ◌&&◌}
use mathlib.Core.List.{[], ◌∷◌}
use l5m.Prelude.Tests.{leb, ltb, ◌==◌, if◌then◌else◌}
use l5m.Prelude.Lists.{Bytes}

-- Before a character, before one, two or three bytes 80..BF, before a byte of a smaller range and
-- then the number of bytes 80..BF, or after bytes that are no UTF-8.
pub data Expect : Type 0 where
  character one two three invalid : Expect
  within : ℕ → ℕ → Expect → Expect

in_range : ℕ → ℕ → ℕ → Bool
in_range lo hi b = leb lo b && leb b hi

first : ℕ → Expect
unfolding in_range
first b =
    if ltb b 0x80
    then character
    else if in_range 0xC2 0xDF b
    then one
    else if b == 0xE0
    then within 0xA0 0xBF one
    else if b == 0xED
    then within 0x80 0x9F one
    else if in_range 0xE1 0xEF b
    then two
    else if b == 0xF0
    then within 0x90 0xBF two
    else if in_range 0xF1 0xF3 b
    then three
    else if b == 0xF4
    then within 0x80 0x8F two
    else invalid

next : Expect → ℕ → Expect
unfolding first in_range
next character b = first b
next one b = if in_range 0x80 0xBF b then character else invalid
next two b = if in_range 0x80 0xBF b then one else invalid
next three b = if in_range 0x80 0xBF b then two else invalid
next (within lo hi rest) b = if in_range lo hi b then rest else invalid
next invalid b = invalid

is_character : Expect → Bool
is_character character = true
is_character _ = false

valid_from : Expect → Bytes → Bool
unfolding next is_character
valid_from expect [] = is_character expect
valid_from expect (b ∷ bs) = valid_from (next expect b) bs

unfoldable pub is_utf8 : Bytes → Bool
unfolding valid_from
is_utf8 bytes = valid_from character bytes
