-- ===== src/Prelude/Parse.antt =====
-- `trim`, and numbers from text: `u128::from_str_radix` and `parse`.
use Prim.Native.Nat.{ℕ, zero, suc, ◌+◌, ◌-◌, ◌*◌, ◌/◌, ◌%◌, ◌^◌, ◌≤◌, ◌<◌}
use mathlib.Core.Path.{◌≡◌, refl, ap, ◌∙◌, subst}
use mathlib.Core.Logic.{◌≢◌, ◌⊎◌, inl, inr}
use mathlib.Core.Bool.{◌&&◌, ◌||◌}
use mathlib.Core.Option.{Option, none, some}
use mathlib.Core.List.{List, [], ◌∷◌, ◌++◌, map}
use native.Mathlib.Omega.{arith}
use native.Mathlib.Nat.{pow-suc, pow-zero, div-lt_iff_lt-mul, mod-lt, div-le_self, div-add-mod'}
use l5m.Prelude.Tests.{leb, ltb, ◌==◌, if◌then◌else◌, Bool-cases, Option-cases, lt→ltb, ltb→lt}
use l5m.Prelude.Lists.{Bytes, All, All-append}
use l5m.Prelude.Text.{chars, add_byte, is_continuation, is_whitespace}
use l5m.Prelude.Digits.{digits, digit_char, decimal, hex}

concat : List Bytes → Bytes
concat [] = []
concat (g ∷ gs) = g ++ concat gs

trim_left : List Bytes → List Bytes
trim_left [] = []
trim_left (g ∷ gs) = let rest = trim_left gs in if is_whitespace g then rest else g ∷ gs

trim_right_step : Bytes → List Bytes → List Bytes
trim_right_step g [] = if is_whitespace g then [] else g ∷ []
trim_right_step g (h ∷ hs) = g ∷ h ∷ hs

trim_right : List Bytes → List Bytes
unfolding trim_right_step
trim_right [] = []
trim_right (g ∷ gs) = trim_right_step g (trim_right gs)

-- `text.trim()`.
unfoldable pub trim : Bytes → Bytes
unfolding concat trim_left trim_right
trim text = concat (trim_right (trim_left (chars text)))

-- `char::to_digit`.
unfoldable pub to_digit : ℕ → ℕ → Option ℕ
to_digit base b =
    let d =
      if leb 48 b && leb b 57
      then b - 48
      else if leb 97 b && leb b 122
      then b - 87
      else if leb 65 b && leb b 90
      then b - 55
      else 36 in
    if ltb d base then some d else none

-- `acc * base + d`, if a u128 holds it.
unfoldable pub add_digit : ℕ → ℕ → Option ℕ → Option ℕ
add_digit base acc none = none
add_digit base acc (some d) = if ltb (acc * base + d) (2 ^ 128) then some (acc * base + d) else none

digit_after : ℕ → ℕ → Option ℕ → Option ℕ
unfolding to_digit add_digit
digit_after base b none = none
digit_after base b (some acc) = add_digit base acc (to_digit base b)

-- The number so far, and the digits to come.
unfoldable pub parse_digits : ℕ → Bytes → Option ℕ → Option ℕ
unfolding digit_after
parse_digits base [] acc = acc
parse_digits base (b ∷ bs) acc = parse_digits base bs (digit_after base b acc)

-- A sign "+" before digits is passed over.
unfoldable pub strip_plus : Bytes → Bytes
strip_plus (b ∷ c ∷ cs) = if b == 43 then c ∷ cs else b ∷ c ∷ cs
strip_plus bs = bs

-- `u128::from_str_radix(text, base)`.
unfoldable pub from_str_radix : ℕ → Bytes → Option ℕ
unfolding parse_digits strip_plus
from_str_radix base [] = none
from_str_radix base (b ∷ bs) = parse_digits base (strip_plus (b ∷ bs)) (some 0)

parse_digits-append :
    (base : ℕ) (xs ys : Bytes) (acc : Option ℕ)
    → parse_digits base (xs ++ ys) acc ≡ parse_digits base ys (parse_digits base xs acc)
unfolding parse_digits
parse_digits-append base [] ys acc = refl
parse_digits-append base (x ∷ xs) ys acc = parse_digits-append base xs ys (digit_after base x acc)

to_digit-digit_char : (base d : ℕ) → base ≤ 16 → d < base → to_digit base (digit_char d) ≡ some d
unfolding to_digit digit_char
to_digit-digit_char base d h k = ground arith

map-append : (f : ℕ → ℕ) (xs ys : List ℕ) → map f (xs ++ ys) ≡ map f xs ++ map f ys
map-append f [] ys = refl
map-append f (x ∷ xs) ys = ap (λ zs. f x ∷ zs) (map-append f xs ys)

append_one-ne : (xs : List ℕ) (y : ℕ) → xs ++ y ∷ [] ≢ []
append_one-ne [] y e = absurd (cc)
append_one-ne (x ∷ xs) y e = absurd (cc)

module _ (base : ℕ) (small : base ≤ 16) (positive : 0 < base) where
  last_digit :
      (acc d : ℕ)
      → d < base
      → acc * base + d < 2 ^ 128
      → digit_after base (digit_char d) (some acc) ≡ some (acc * base + d)
  unfolding digit_after add_digit
  last_digit acc d h k =
      ap (add_digit base acc) (to_digit-digit_char base d small h)
      ∙ (rw (lt→ltb (acc * base + d) (2 ^ 128) k) refl)

  quotient_lt : (fuel n : ℕ) → n < base ^ suc fuel → n / base < base ^ fuel
  quotient_lt fuel n h = (div-lt_iff_lt-mul positive).1 (subst (λ m. n < m) (pow-suc base fuel) h)

  quotient_le : (n : ℕ) → n / base ≤ n
  quotient_le n = div-le_self n base

  -- The digits of a number give the number again.
  parse_digits-digits :
      (fuel n : ℕ)
      → n < base ^ fuel
      → n < 2 ^ 128
      → parse_digits base (map digit_char (digits base fuel n)) (some 0) ≡ some n
  unfolding digits parse_digits
  parse_digits-digits zero n h k = ap some (omega (arith, pow-zero base))
  parse_digits-digits (suc fuel) n h k = elim (Bool-cases (ltb n base)) [
    | inl e ↦
        rw (e, digits) (last_digit 0 n (ltb→lt n base e) (omega arith) ∙ ap some (omega arith))
    | inr e ↦
        rw (e, digits)
          (ap (λ bs. parse_digits base bs (some 0))
              (map-append digit_char (digits base fuel (n / base)) (n % base ∷ []))
            ∙ parse_digits-append base (map digit_char (digits base fuel (n / base)))
                (digit_char (n % base) ∷ []) (some 0)
            ∙ ap (parse_digits base (digit_char (n % base) ∷ [])) (
                parse_digits-digits fuel (n / base) (quotient_lt fuel n h)
                  (omega (arith, quotient_le n)))
            ∙ last_digit (n / base) (n % base) (mod-lt n positive)
                (omega (arith, div-add-mod' n base))
            ∙ ap some (div-add-mod' n base))
  ]

  digits-All : (fuel n : ℕ) → All (λ d. d < 16) (digits base fuel n)
  unfolding digits
  digits-All zero n = tt
  digits-All (suc fuel) n = elim (Bool-cases (ltb n base)) [
    | inl e ↦ rw (e, digits) (omega (arith, ltb→lt n base e), tt)
    | inr e ↦
        rw (e, digits)
          (All-append (λ d. d < 16) (digits base fuel (n / base)) (n % base ∷ [])
            (digits-All fuel (n / base)) (omega (arith, mod-lt n positive), tt))
  ]

  digits-ne : (fuel n : ℕ) → digits base (suc fuel) n ≢ []
  unfolding digits
  digits-ne fuel n e = ground (arith, append_one-ne (digits base fuel (n / base)) (n % base))

-- The characters of digits.
IsDigit : ℕ → Type 0
IsDigit b = ((48 ≤ b) × (b ≤ 57)) ⊎ ((97 ≤ b) × (b ≤ 102))

digit_char-IsDigit : (ds : List ℕ) → All (λ d. d < 16) ds → All IsDigit (map digit_char ds)
unfolding IsDigit digit_char
digit_char-IsDigit [] h = tt
digit_char-IsDigit (d ∷ ds) h = (digit d h.0, digit_char-IsDigit ds h.1)
  where
    digit :
        (d : ℕ)
        → d < 16
        → ((48 ≤ digit_char d) × (digit_char d ≤ 57)) ⊎ ((97 ≤ digit_char d) × (digit_char d ≤ 102))
    digit d h = ground arith

abbrev IsPlain : ℕ → Type 0
IsPlain b = (33 ≤ b) × (b < 128)

chars-plain : (bs : Bytes) → All IsPlain bs → chars bs ≡ map (λ b. b ∷ []) bs
unfolding chars add_byte is_continuation
chars-plain [] h = refl
chars-plain (b ∷ []) h = refl
chars-plain (b ∷ c ∷ cs) h = rw (chars-plain (c ∷ cs) h.1) (ground (arith, h.1.0.1))

trim_left-plain :
    (bs : Bytes) → All IsPlain bs → trim_left (map (λ b. b ∷ []) bs) ≡ map (λ b. b ∷ []) bs
unfolding trim_left is_whitespace
trim_left-plain [] h = refl
trim_left-plain (b ∷ bs) h = ground (arith, h.0.0)

trim_right-plain :
    (bs : Bytes) → All IsPlain bs → trim_right (map (λ b. b ∷ []) bs) ≡ map (λ b. b ∷ []) bs
unfolding trim_right trim_right_step is_whitespace
trim_right-plain [] h = refl
trim_right-plain (b ∷ []) h = ground (arith, h.0.0)
trim_right-plain (b ∷ c ∷ cs) h = ap (trim_right_step (b ∷ [])) (trim_right-plain (c ∷ cs) h.1)

concat-single : (bs : Bytes) → concat (map (λ b. b ∷ []) bs) ≡ bs
unfolding concat
concat-single [] = refl
concat-single (b ∷ bs) = ap (λ cs. b ∷ cs) (concat-single bs)

-- Text of visible ASCII characters is not trimmed.
pub trim-plain : (bs : Bytes) → All IsPlain bs → trim bs ≡ bs
unfolding trim
trim-plain bs h =
    ap (λ gs. concat (trim_right (trim_left gs))) (chars-plain bs h)
    ∙ ap (λ gs. concat (trim_right gs)) (trim_left-plain bs h)
    ∙ ap concat (trim_right-plain bs h)
    ∙ concat-single bs

strip_plus-digits : (bs : Bytes) → All IsDigit bs → strip_plus bs ≡ bs
unfolding strip_plus IsDigit
strip_plus-digits [] h = refl
strip_plus-digits (b ∷ []) h = refl
strip_plus-digits (b ∷ c ∷ cs) h = ground (arith, h.0)

digit-IsPlain : (bs : Bytes) → All IsDigit bs → All IsPlain bs
unfolding IsDigit
digit-IsPlain [] h = tt
digit-IsPlain (b ∷ bs) h = (ground (arith, h.0), digit-IsPlain bs h.1)

from_str_radix-ne :
    (base : ℕ) (bs : Bytes)
    → bs ≢ []
    → from_str_radix base bs ≡ parse_digits base (strip_plus bs) (some 0)
unfolding from_str_radix
from_str_radix-ne base [] h = absurd (h refl)
from_str_radix-ne base (b ∷ bs) h = refl

from_str_radix-digits :
    (base fuel n : ℕ)
    → base ≤ 16
    → 0 < base
    → n < base ^ suc fuel
    → n < 2 ^ 128
    → from_str_radix base (map digit_char (digits base (suc fuel) n)) ≡ some n
from_str_radix-digits base fuel n small positive h k =
    let text = map digit_char (digits base (suc fuel) n) in
    let all_digits =
      digit_char-IsDigit (digits base (suc fuel) n) (digits-All base small positive (suc fuel) n) in
    from_str_radix-ne base text
      (map-ne (digits base (suc fuel) n) (digits-ne base small positive fuel n))
    ∙ ap (λ bs. parse_digits base bs (some 0)) (strip_plus-digits text all_digits)
    ∙ parse_digits-digits base small positive (suc fuel) n h k
  where
    map-ne : (ds : List ℕ) → ds ≢ [] → map digit_char ds ≢ []
    map-ne [] h e = h refl
    map-ne (d ∷ ds) h e = absurd (cc)

-- `strip_prefix("0x")`, or `"0X"`.
unfoldable pub strip_hex : Bytes → Option Bytes
strip_hex (b ∷ c ∷ rest) = if b == 48 && (c == 120 || c == 88) then some rest else none
strip_hex _ = none

parse_trimmed : Bytes → Option ℕ
unfolding from_str_radix strip_hex
parse_trimmed text = elim (strip_hex text) [
  | some rest ↦ from_str_radix 16 rest
  | none ↦ from_str_radix 10 text
]

-- `parse_u128`.
unfoldable pub parse_u128 : Bytes → Option ℕ
unfolding trim parse_trimmed
parse_u128 value = parse_trimmed (trim value)

strip_hex-digits : (bs : Bytes) → All IsDigit bs → strip_hex bs ≡ none
unfolding strip_hex IsDigit
strip_hex-digits [] h = refl
strip_hex-digits (b ∷ []) h = refl
strip_hex-digits (b ∷ c ∷ cs) h = ground (arith, h.1.0)

parse_u128-digits : (bs : Bytes) → All IsDigit bs → parse_u128 bs ≡ from_str_radix 10 bs
unfolding parse_u128 parse_trimmed
parse_u128-digits bs h =
    ap parse_trimmed (trim-plain bs (digit-IsPlain bs h))
    ∙ (rw (strip_hex-digits bs h, parse_trimmed) refl)

parse_u128-prefixed :
    (bs : Bytes) → All IsDigit bs → parse_u128 (48 ∷ 120 ∷ bs) ≡ from_str_radix 16 bs
unfolding parse_u128 parse_trimmed strip_hex
parse_u128-prefixed bs h = ap parse_trimmed (
    trim-plain (48 ∷ 120 ∷ bs)
      ((omega arith, omega arith), ((omega arith, omega arith), digit-IsPlain bs h)))

-- A number of 128 bits that is written out in decimal or hexadecimal form is read back.
pub parse_u128-decimal : (n : ℕ) → n < 2 ^ 128 → parse_u128 (decimal n) ≡ some n
unfolding decimal
parse_u128-decimal n h =
    parse_u128-digits (map digit_char (digits 10 39 n))
      (digit_char-IsDigit (digits 10 39 n) (digits-All 10 (omega arith) (omega arith) 39 n))
    ∙ from_str_radix-digits 10 38 n (omega arith) (omega arith) (omega arith) h

pub parse_u128-hex : (n : ℕ) → n < 2 ^ 128 → parse_u128 (hex n) ≡ some n
unfolding hex
parse_u128-hex n h =
    parse_u128-prefixed (map digit_char (digits 16 32 n))
      (digit_char-IsDigit (digits 16 32 n) (digits-All 16 (omega arith) (omega arith) 32 n))
    ∙ from_str_radix-digits 16 31 n (omega arith) (omega arith) (omega arith) h

add_digit-lt : (base acc : ℕ) (d : Option ℕ) {n : ℕ} → add_digit base acc d ≡ some n → n < 2 ^ 128
unfolding add_digit
add_digit-lt base acc none h = absurd (cc)
add_digit-lt base acc (some d) h = ground arith

parse_digits-lt :
    (base : ℕ) (bs : Bytes) (acc : Option ℕ) {n : ℕ}
    → ((m : ℕ) → acc ≡ some m → m < 2 ^ 128)
    → parse_digits base bs acc ≡ some n
    → n < 2 ^ 128
unfolding parse_digits digit_after
parse_digits-lt base [] acc h e = h _ e
parse_digits-lt base (b ∷ bs) none h e = parse_digits-lt base bs none (λ m e. absurd (cc)) e
parse_digits-lt base (b ∷ bs) (some acc) h e =
    parse_digits-lt base bs (add_digit base acc (to_digit base b))
      (λ m e. add_digit-lt base acc (to_digit base b) e) e

from_str_radix-lt : (base : ℕ) (bs : Bytes) {n : ℕ} → from_str_radix base bs ≡ some n → n < 2 ^ 128
unfolding from_str_radix
from_str_radix-lt base [] h = absurd (cc)
from_str_radix-lt base (b ∷ bs) h =
    parse_digits-lt base (strip_plus (b ∷ bs)) (some 0) (λ m e. ground arith) h

-- What is read has 128 bits.
pub parse_u128-lt : (value : Bytes) {n : ℕ} → parse_u128 value ≡ some n → n < 2 ^ 128
unfolding parse_u128 parse_trimmed
parse_u128-lt value h = elim (Option-cases (strip_hex (trim value))) [
  | inl e ↦ from_str_radix-lt 10 (trim value) (rw (e, parse_trimmed) at h)
  | inr (rest, e) ↦ from_str_radix-lt 16 rest (rw (e, parse_trimmed) at h)
]
