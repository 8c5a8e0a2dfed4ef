-- ===== src/Prelude/Bits.antt =====
-- Bits of a number at variables: the bitwise operations digit by digit, and what each does to one
-- bit.
use Prim.Native.Nat.{
  ℕ, zero, suc, ◌+◌, ◌-◌, ◌*◌, ◌/◌, ◌%◌, ◌^◌, ◌≤◌, ◌<◌, min, max, bit_and, bit_or, digits,
  bit_and-bitwise, bit_or-bitwise,
}
use mathlib.Core.Path.{◌≡◌, refl, ap, ◌∙◌}
use mathlib.Core.Logic.{inl, inr}
use native.Mathlib.Omega.{arith}
use native.Mathlib.Nat.{pow-suc, one-le-pow}
use l5m.Prelude.Tests.{◌==◌, ltb, if◌then◌else◌, Bool-cases}

-- Bit `i` of `w`, as 0 or 1.
unfoldable pub bit : ℕ → ℕ → ℕ
bit zero w = w % 2
bit (suc i) w = bit i (w / 2)

-- The count of digits to go does not matter while it covers the first number.
module _ (z : ℕ → ℕ) (f : ℕ → ℕ → ℕ) where
  enough_digits : (i j x y : ℕ) → x ≤ i → x ≤ j → digits z f i x y ≡ digits z f j x y
  enough_digits zero zero x y h k = refl
  enough_digits zero (suc j) zero y h k = refl
  enough_digits (suc i) zero zero y h k = refl
  enough_digits (suc i) (suc j) zero y h k = refl
  enough_digits zero (suc j) (suc x) y h k = absurd (omega arith)
  enough_digits (suc i) zero (suc x) y h k = absurd (omega arith)
  enough_digits (suc i) (suc j) (suc x) y h k =
      omega (arith, enough_digits i j (suc x / 2) (y / 2) (omega arith) (omega arith))

pub bit_and_step : (x y : ℕ) → bit_and x y ≡ bit_and (x / 2) (y / 2) * 2 + min (x % 2) (y % 2)
bit_and_step zero y = simp bit_and-bitwise (omega arith)
bit_and_step (suc x) y = omega (
  arith,
  bit_and-bitwise (suc x) y,
  bit_and-bitwise (suc x / 2) (y / 2),
  enough_digits (λ _. 0) min x (suc x / 2) (suc x / 2) (y / 2) (omega arith) (omega arith),
)

pub bit_or_step : (x y : ℕ) → bit_or x y ≡ bit_or (x / 2) (y / 2) * 2 + max (x % 2) (y % 2)
bit_or_step zero y = simp bit_or-bitwise (omega arith)
bit_or_step (suc x) y = omega (
  arith,
  bit_or-bitwise (suc x) y,
  bit_or-bitwise (suc x / 2) (y / 2),
  enough_digits (λ d. d) max x (suc x / 2) (suc x / 2) (y / 2) (omega arith) (omega arith),
)

half-bit_and : (a b : ℕ) → bit_and a b / 2 ≡ bit_and (a / 2) (b / 2)
half-bit_and a b = omega (arith, bit_and_step a b)

half-bit_or : (a b : ℕ) → bit_or a b / 2 ≡ bit_or (a / 2) (b / 2)
half-bit_or a b = omega (arith, bit_or_step a b)

pub bit-le : (i w : ℕ) → bit i w ≤ 1
unfolding bit
bit-le zero w = omega arith
bit-le (suc i) w = bit-le i (w / 2)

pub bit-bit_and : (i a b : ℕ) → bit i (bit_and a b) ≡ min (bit i a) (bit i b)
unfolding bit
bit-bit_and zero a b = omega (arith, bit_and_step a b)
bit-bit_and (suc i) a b = rw half-bit_and (bit-bit_and i (a / 2) (b / 2))

pub bit-bit_or : (i a b : ℕ) → bit i (bit_or a b) ≡ max (bit i a) (bit i b)
unfolding bit
bit-bit_or zero a b = omega (arith, bit_or_step a b)
bit-bit_or (suc i) a b = rw half-bit_or (bit-bit_or i (a / 2) (b / 2))

-- Neither operation leaves the width of its arguments.
pub bit_or-lt : (k a b : ℕ) → a < 2 ^ k → b < 2 ^ k → bit_or a b < 2 ^ k
bit_or-lt zero a b h v =
    let a0 : a ≡ 0 = omega arith in let b0 : b ≡ 0 = omega arith in rw (a0, b0) (omega arith)
bit_or-lt (suc k) a b h v = omega (
  arith,
  bit_or_step a b,
  pow-suc 2 k,
  bit_or-lt k (a / 2) (b / 2) (omega (arith, pow-suc 2 k)) (omega (arith, pow-suc 2 k)),
)

pub bit_and-lt : (k a b : ℕ) → a < 2 ^ k → bit_and a b < 2 ^ k
bit_and-lt zero a b h = let a0 : a ≡ 0 = omega arith in rw (a0, bit_and-bitwise) (omega arith)
bit_and-lt (suc k) a b h = omega (
  arith,
  bit_and_step a b,
  pow-suc 2 k,
  bit_and-lt k (a / 2) (b / 2) (omega (arith, pow-suc 2 k)),
)

pub bit-zero : (i : ℕ) → bit i 0 ≡ 0
unfolding bit
bit-zero zero = refl
bit-zero (suc i) = bit-zero i

half-two_pow : (k : ℕ) → 2 ^ suc k / 2 ≡ 2 ^ k
half-two_pow k = omega (arith, pow-suc 2 k)

-- `1 << k` has bit `k` and no other.
pub bit-two_pow : (i k : ℕ) → bit i (2 ^ k) ≡ (if k == i then 1 else 0)
unfolding bit
bit-two_pow zero zero = refl
bit-two_pow zero (suc k) = ground (arith, pow-suc 2 k)
bit-two_pow (suc i) zero = ground (arith, bit-zero i)
bit-two_pow (suc i) (suc k) = rw half-two_pow (ground (arith, bit-two_pow i k))

-- `(1 << k) - 1` has the bits below `k`.
pub bit-ones : (i k : ℕ) → bit i (2 ^ k - 1) ≡ (if ltb i k then 1 else 0)
unfolding bit
bit-ones zero zero = refl
bit-ones zero (suc k) = ground (arith, pow-suc 2 k, one-le-pow k 2)
bit-ones (suc i) zero = ground (arith, bit-zero i)
bit-ones (suc i) (suc k) =
    let half : (2 ^ suc k - 1) / 2 ≡ 2 ^ k - 1 = omega (arith, pow-suc 2 k, one-le-pow k 2) in
    rw half (ground (arith, bit-ones i k))

-- `!w` at a width of `k` bits.
pub bit-complement : (i k w : ℕ) → i < k → w < 2 ^ k → bit i (2 ^ k - 1 - w) ≡ 1 - bit i w
unfolding bit
bit-complement i zero w h v = elim h [ ]
bit-complement zero (suc k) w h v = omega (arith, pow-suc 2 k)
bit-complement (suc i) (suc k) w h v =
    let half : (2 ^ suc k - 1 - w) / 2 ≡ 2 ^ k - 1 - w / 2 = omega (arith, pow-suc 2 k) in
    rw half (bit-complement i k (w / 2) (omega arith) (omega (arith, pow-suc 2 k)))

bit_and-zero : (k a : ℕ) → a ≤ k → bit_and a 0 ≡ 0
bit_and-zero k zero h = refl
bit_and-zero zero (suc a) h = absurd (omega arith)
bit_and-zero (suc k) (suc a) h =
    omega (arith, bit_and_step (suc a) 0, bit_and-zero k (suc a / 2) (omega arith))

-- `w & (1 << k)`: the bit, in its place.
pub bit_and-two_pow : (k w : ℕ) → bit_and w (2 ^ k) ≡ bit k w * 2 ^ k
unfolding bit
bit_and-two_pow zero w = omega (arith, bit_and_step w 1, bit_and-zero (w / 2) (w / 2) (omega arith))
bit_and-two_pow (suc k) w =
    bit_and_step w (2 ^ suc k)
    ∙ (rw (half-two_pow, bit_and-two_pow k (w / 2))
        (omega (arith, pow-suc 2 k, ap (λ (t : ℕ). bit k (w / 2) * t) (pow-suc 2 k))))

-- The number of trailing zeros, with the width for fuel.
unfoldable pub trailing_zeros : ℕ → ℕ → ℕ
trailing_zeros zero w = 0
trailing_zeros (suc k) w =
    let rest = suc (trailing_zeros k (w / 2)) in if w % 2 == 1 then 0 else rest

pub trailing_zeros-lt : (k w : ℕ) → 0 < w → w < 2 ^ k → trailing_zeros k w < k
unfolding trailing_zeros
trailing_zeros-lt zero w p h = absurd (omega arith)
trailing_zeros-lt (suc k) w p h = ground (arith, pow-suc 2 k, trailing_zeros-lt k (w / 2))

-- The lowest set bit is set, and the bits below it are not.
pub bit-trailing_zeros : (k w : ℕ) → 0 < w → w < 2 ^ k → bit (trailing_zeros k w) w ≡ 1
unfolding trailing_zeros bit
bit-trailing_zeros zero w p h = absurd (omega arith)
bit-trailing_zeros (suc k) w p h = ground (arith, pow-suc 2 k, bit-trailing_zeros k (w / 2))

pub bit_below_trailing_zeros : (k w i : ℕ) → i < trailing_zeros k w → bit i w ≡ 0
unfolding trailing_zeros bit
bit_below_trailing_zeros zero w i h = absurd (omega arith)
bit_below_trailing_zeros (suc k) w zero h = ground arith
bit_below_trailing_zeros (suc k) w (suc i) h = ground (arith, bit_below_trailing_zeros k (w / 2) i)

bit_and_self : (k a : ℕ) → a ≤ k → bit_and a a ≡ a
bit_and_self k zero h = refl
bit_and_self zero (suc a) h = absurd (omega arith)
bit_and_self (suc k) (suc a) h =
    omega (arith, bit_and_step (suc a) (suc a), bit_and_self k (suc a / 2) (omega arith))

-- `w & (w - 1)` clears the lowest set bit.
pub bit-clear_lowest :
    (k w i : ℕ)
    → 0 < w
    → w < 2 ^ k
    → bit i (bit_and w (w - 1)) ≡ (if trailing_zeros k w == i then 0 else bit i w)
unfolding trailing_zeros bit
bit-clear_lowest zero w i p h = absurd (omega arith)
bit-clear_lowest (suc k) w zero p h = ground (arith, bit_and_step w (w - 1))
bit-clear_lowest (suc k) w (suc i) p h = elim (Bool-cases (w % 2 == 1)) [
  | inl odd ↦
      let half : (w - 1) / 2 ≡ w / 2 = ground arith in
      rw (half-bit_and, half, bit_and_self (w / 2) (w / 2) (omega arith)) (ground arith)
  | inr even ↦
      let half : (w - 1) / 2 ≡ w / 2 - 1 = ground arith in
      rw (half-bit_and, half) (ground (arith, pow-suc 2 k, bit-clear_lowest k (w / 2) i))
]

-- The number that is left is smaller.
pub clear_lowest-lt : (k w : ℕ) → 0 < w → w < 2 ^ k → bit_and w (w - 1) < w
clear_lowest-lt zero w p h = absurd (omega arith)
clear_lowest-lt (suc k) w p h = elim (Bool-cases (w % 2 == 1)) [
  | inl odd ↦
      let half : (w - 1) / 2 ≡ w / 2 = ground arith in
      let e = bit_and_step w (w - 1) in ground (arith, bit_and_self (w / 2) (w / 2))
  | inr even ↦ ground (arith, pow-suc 2 k, bit_and_step w (w - 1), clear_lowest-lt k (w / 2))
]

-- The number of set bits, with the width for fuel: `count_ones`.
unfoldable pub count_ones : ℕ → ℕ → ℕ
count_ones zero w = 0
count_ones (suc k) w = w % 2 + count_ones k (w / 2)

-- Clearing the lowest set bit, digit by digit.
pub clear_lowest_parts :
    (w : ℕ)
    → 0 < w
    → (bit_and w (w - 1) % 2 ≡ 0)
      × (bit_and w (w - 1) / 2 ≡ (if w % 2 == 1 then w / 2 else bit_and (w / 2) (w / 2 - 1)))
clear_lowest_parts w p = elim (Bool-cases (w % 2 == 1)) [
  | inl odd ↦
      let half : (w - 1) / 2 ≡ w / 2 = ground arith in
      let step = bit_and_step w (w - 1) in
      let self = bit_and_self (w / 2) (w / 2) (omega arith) in
      rw odd (ground (arith, half, step), half-bit_and w (w - 1) ∙ (rw (half, self)))
  | inr even ↦
      let half : (w - 1) / 2 ≡ w / 2 - 1 = ground arith in
      let step = bit_and_step w (w - 1) in
      rw even (ground (arith, step), half-bit_and w (w - 1) ∙ (rw half))
]
