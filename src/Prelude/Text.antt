-- ===== src/Prelude/Text.antt =====
-- Text as UTF-8 bytes: its characters, and the white space of `split_whitespace` and `trim`.
use Prim.Native.Nat.{ℕ, suc, compare, Ordering}
use mathlib.Core.Bool.{Bool, true, false, not, ◌&&◌, ◌||◌}
use mathlib.Core.List.{List, [], ◌∷◌}
use l5m.Prelude.Tests.{leb, ltb, ◌==◌, if◌then◌else◌}
use l5m.Prelude.Lists.{Bytes}

-- A byte 10xxxxxx goes on with the character before it.
unfoldable pub is_continuation : ℕ → Bool
is_continuation b = leb 128 b && ltb b 192

-- `b` before the characters of the rest.
unfoldable pub add_byte : ℕ → List Bytes → List Bytes
add_byte b [] = (b ∷ []) ∷ []
add_byte b ([] ∷ gs) = (b ∷ []) ∷ gs
add_byte b ((c ∷ cs) ∷ gs) =
    if is_continuation c then (b ∷ c ∷ cs) ∷ gs else (b ∷ []) ∷ (c ∷ cs) ∷ gs

-- `text.chars()`, each as its bytes.
unfoldable pub chars : Bytes → List Bytes
unfolding is_continuation add_byte
chars [] = []
chars (b ∷ bs) = add_byte b (chars bs)

-- `char::is_whitespace`.
unfoldable pub is_whitespace : Bytes → Bool
is_whitespace (b ∷ []) = (leb 9 b && leb b 13) || b == 32
is_whitespace (b ∷ c ∷ []) = b == 0xC2 && (c == 0x85 || c == 0xA0)
is_whitespace (b ∷ c ∷ d ∷ []) =
    (b == 0xE1 && c == 0x9A && d == 0x80)
    || (b == 0xE2
        && c == 0x80
        && ((leb 0x80 d && leb d 0x8A) || d == 0xA8 || d == 0xA9 || d == 0xAF))
    || (b == 0xE2 && c == 0x81 && d == 0x9F)
    || (b == 0xE3 && c == 0x80 && d == 0x80)
is_whitespace _ = false

-- The words that start in the rest of a text, after a character of a word or not.
words_from : Bool → List Bytes → ℕ
words_from inside [] = 0
words_from inside (g ∷ gs) =
    let rest = words_from (not (is_whitespace g)) gs in
    if not (is_whitespace g) && not inside then suc rest else rest

-- `text.split_whitespace().count()`.
unfoldable pub word_count : Bytes → ℕ
unfolding chars is_whitespace words_from
word_count text = words_from false (chars text)

-- `str::cmp`: by the bytes, the shorter first.
unfoldable pub compare_bytes : Bytes → Bytes → Ordering
compare_bytes [] [] = Ordering.eq
compare_bytes [] (y ∷ ys) = Ordering.lt
compare_bytes (x ∷ xs) [] = Ordering.gt
compare_bytes (x ∷ xs) (y ∷ ys) = elim (compare x y) [
  | Ordering.lt ↦ Ordering.lt
  | Ordering.gt ↦ Ordering.gt
  | Ordering.eq ↦ compare_bytes xs ys
]

starts_with : Bytes → Bytes → Bool
starts_with [] text = true
starts_with (p ∷ ps) [] = false
starts_with (p ∷ ps) (t ∷ ts) = p == t && starts_with ps ts

-- `text.contains(part)`.
unfoldable pub contains : Bytes → Bytes → Bool
unfolding starts_with
contains part [] = starts_with part []
contains part (t ∷ ts) = let rest = contains part ts in starts_with part (t ∷ ts) || rest
