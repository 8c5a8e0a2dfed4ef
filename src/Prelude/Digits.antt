-- ===== src/Prelude/Digits.antt =====
-- Numbers as text: `to_string`, the formats of hexadecimal numbers, and `to_le_bytes`.
use Prim.Native.Nat.{ℕ, zero, suc, ◌+◌, ◌-◌, ◌*◌, ◌/◌, ◌%◌, ◌^◌, ◌<◌}
use mathlib.Core.Path.{◌≡◌, refl, ap, ap₂}
use mathlib.Core.List.{List, [], ◌∷◌, ◌++◌, map}
use native.Mathlib.Omega.{arith}
use native.Mathlib.Nat.{pow-suc}
use l5m.Prelude.Tests.{ltb, if◌then◌else◌}
use l5m.Prelude.Lists.{Bytes, length, from_le}
use l5m.Prelude.Int.{ℤ, pos, negsuc}

-- The digits of `n` in a base, the highest first; `fuel` digits at most.
unfoldable pub digits : ℕ → ℕ → ℕ → List ℕ
digits base zero n = []
digits base (suc fuel) n =
    let rest = digits base fuel (n / base) in if ltb n base then n ∷ [] else rest ++ (n % base) ∷ []

-- '0' to '9', then 'a' and on.
unfoldable pub digit_char : ℕ → ℕ
digit_char d = if ltb d 10 then 48 + d else 87 + d

-- `n.to_string()`; a u128 has 39 digits at most.
unfoldable pub decimal : ℕ → Bytes
unfolding digits digit_char
decimal n = map digit_char (digits 10 39 n)

-- `format!("{n:#x}")`; a u128 has 32 digits at most.
unfoldable pub hex : ℕ → Bytes
unfolding digits digit_char
hex n = 48 ∷ 120 ∷ map digit_char (digits 16 32 n)

-- `format!("{b:02x}")` of each byte.
unfoldable pub hex_bytes : Bytes → Bytes
unfolding digit_char
hex_bytes [] = []
hex_bytes (b ∷ bs) = digit_char (b / 16) ∷ digit_char (b % 16) ∷ hex_bytes bs

-- `to_le_bytes` at a width of `k` bytes.
unfoldable pub to_le : ℕ → ℕ → Bytes
to_le zero n = []
to_le (suc k) n = n % 256 ∷ to_le k (n / 256)

-- The bits of a signed number of `w` bits, as an unsigned one.
unfoldable pub unsigned : ℕ → ℤ → ℕ
unsigned w (pos n) = n
unsigned w (negsuc n) = 2 ^ w - suc n

pub length-to_le : (k n : ℕ) → length (to_le k n) ≡ k
unfolding to_le
length-to_le zero n = refl
length-to_le (suc k) n = ap suc (length-to_le k (n / 256))

-- What `k` bytes can hold comes back.
pub from_le-to_le : (k n : ℕ) → n < 256 ^ k → from_le (to_le k n) ≡ n
unfolding to_le
from_le-to_le zero n h = omega arith
from_le-to_le (suc k) n h =
    omega (arith, pow-suc 256 k, from_le-to_le k (n / 256) (omega (arith, pow-suc 256 k)))

pub length-hex_bytes : (bs : Bytes) → length (hex_bytes bs) ≡ 2 * length bs
unfolding hex_bytes
length-hex_bytes [] = refl
length-hex_bytes (b ∷ bs) = omega (arith, length-hex_bytes bs)

digit_char-injective : (a b : ℕ) → digit_char a ≡ digit_char b → a ≡ b
unfolding digit_char
digit_char-injective a b h = ground arith

-- Two texts with the same hexadecimal form are equal.
pub hex_bytes-injective : (xs ys : Bytes) → hex_bytes xs ≡ hex_bytes ys → xs ≡ ys
unfolding hex_bytes
hex_bytes-injective [] [] h = refl
hex_bytes-injective [] (y ∷ ys) h = absurd (cc)
hex_bytes-injective (x ∷ xs) [] h = absurd (cc)
hex_bytes-injective (x ∷ xs) (y ∷ ys) h =
    let high = digit_char-injective (x / 16) (y / 16) (cc) in
    let low = digit_char-injective (x % 16) (y % 16) (cc) in
    ap₂ (◌∷◌) (omega arith) (hex_bytes-injective xs ys (cc))
