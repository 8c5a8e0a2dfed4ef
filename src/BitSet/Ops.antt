-- ===== src/BitSet/Ops.antt =====
-- crates/l5m-core/src/bitset.rs: new, set and clear on sets of indices.
use native.Mathlib.Nat.{pow-le-pow_right}
use l5m.Prelude.{
  ℕ, zero, suc, ◌/◌, ◌%◌, ◌^◌, ◌≤◌, ◌<◌, ◌≡◌, refl, ◌∙◌, false, not, ◌&&◌, ◌||◌, some, bit_and,
  bit_or, ltb, ◌==◌, if◌then◌else◌, length, get_or, length-set, get_or-set, All, All-set,
  All-get_or, replicate, length-replicate, arith,
}
use l5m.Prelude.Bits.{
  bit, bit-le, bit-zero, bit-bit_and, bit-bit_or, bit-two_pow, bit-complement, bit_or-lt,
  bit_and-lt,
}
use l5m.BitSet.{BitSet, div_ceil, new, set, clear, write, word_of, complement}
use l5m.BitSet.View.{holds, IsValid}

pub get_or-replicate : (n i v : ℕ) → get_or (replicate n v) i 0 ≡ (if ltb i n then v else 0)
get_or-replicate zero i v = ground arith
get_or-replicate (suc n) zero v = ground arith
get_or-replicate (suc n) (suc i) v = ground (arith, get_or-replicate n i v)

pub All-replicate : (n v : ℕ) → v < 2 ^ 64 → All (λ w. w < 2 ^ 64) (replicate n v)
All-replicate zero v h = tt
All-replicate (suc n) v h = (h, All-replicate n v h)

-- A fresh set is well formed and holds nothing.
pub new_lem : (size : ℕ) → IsValid (new size) × ((i : ℕ) → holds (new size) i ≡ false)
unfolding new
new_lem size = (
  record {
    enough = length-replicate _ 0;
    bounded = All-replicate _ 0 (omega arith);
    unused = λ i _. empty i;
  },
  empty,
)
  where
    empty : (i : ℕ) → holds (record { size = size; words = replicate (div_ceil size) 0 }) i ≡ false
    empty i = ground (arith, get_or-replicate (div_ceil size) (i / 64) 0, bit-zero (i % 64))

two_pow-lt : (k : ℕ) → k < 64 → 2 ^ k < 2 ^ 64
two_pow-lt k h =
    let le : 2 ^ k ≤ 2 ^ 63 =
      pow-le-pow_right {n = 2} (omega arith) {i = k} {j = 63} (omega arith) in
    omega (arith, le)

-- What a write to the word of index `i` does to the words.
module _ (b : BitSet) (i w : ℕ) (v : IsValid b) (inside : i < b.size) (fits : w < 2 ^ 64) where
  word_in_range : i / 64 < length b.words
  word_in_range = omega (arith, v.enough)

  holds-write :
      (j : ℕ)
      → holds (write b i w) j ≡ (if i / 64 == j / 64 then bit (j % 64) w == 1 else holds b j)
  holds-write j = ground (arith, get_or-set b.words (i / 64) (j / 64) w 0 word_in_range)

  write-IsValid : ((j : ℕ) → b.size ≤ j → holds (write b i w) j ≡ false) → IsValid (write b i w)
  write-IsValid unused = record {
    enough = length-set b.words (i / 64) w ∙ v.enough;
    bounded = All-set (λ w. w < 2 ^ 64) b.words (i / 64) w v.bounded fits;
    unused = unused;
  }

word_fits : (b : BitSet) (i : ℕ) → IsValid b → word_of b i < 2 ^ 64
word_fits b i v = All-get_or (λ w. w < 2 ^ 64) b.words (i / 64) 0 v.bounded (omega arith)

-- On a well formed set, `set` of an index in range returns a well formed set of the same size with
-- that index added and nothing else changed.
pub set_lem :
    (b : BitSet) (i : ℕ)
    → IsValid b
    → i < b.size
    → (b' : BitSet) × (set b i ≡ some b')
      × (b'.size ≡ b.size)
      × IsValid b'
      × ((j : ℕ) → holds b' j ≡ ((i == j) || holds b j))
unfolding set
set_lem b i v h = (
  write b i w',
  ground arith,
  refl,
  write-IsValid b i w' v h fits (λ j past. rw (added j) (ground (arith, v.unused j))),
  added,
)
  where
    w' : ℕ
    w' = bit_or (word_of b i) (2 ^ (i % 64))

    fits : w' < 2 ^ 64
    fits = bit_or-lt 64 _ _ (word_fits b i v) (two_pow-lt (i % 64) (omega arith))

    added : (j : ℕ) → holds (write b i w') j ≡ ((i == j) || holds b j)
    added j = ground (
      arith,
      holds-write b i w' v h fits j,
      bit-bit_or (j % 64) (word_of b i) (2 ^ (i % 64)),
      bit-two_pow (j % 64) (i % 64),
      bit-le (j % 64) (word_of b i),
    )

-- On a well formed set, `clear` of an index in range returns a well formed set of the same size
-- with that index removed and nothing else changed.
pub clear_lem :
    (b : BitSet) (i : ℕ)
    → IsValid b
    → i < b.size
    → (b' : BitSet) × (clear b i ≡ some b')
      × (b'.size ≡ b.size)
      × IsValid b'
      × ((j : ℕ) → holds b' j ≡ (not (i == j) && holds b j))
unfolding clear
clear_lem b i v h = (
  write b i w',
  ground arith,
  refl,
  write-IsValid b i w' v h fits (λ j past. rw (removed j) (ground (arith, v.unused j))),
  removed,
)
  where
    w' : ℕ
    w' = bit_and (word_of b i) (complement (2 ^ (i % 64)))

    fits : w' < 2 ^ 64
    fits = bit_and-lt 64 _ _ (word_fits b i v)

    removed : (j : ℕ) → holds (write b i w') j ≡ (not (i == j) && holds b j)
    removed j = ground (
      arith,
      holds-write b i w' v h fits j,
      bit-bit_and (j % 64) (word_of b i) (complement (2 ^ (i % 64))),
      bit-complement (j % 64) 64 (2 ^ (i % 64)) (omega arith) (two_pow-lt (i % 64) (omega arith)),
      bit-two_pow (j % 64) (i % 64),
      bit-le (j % 64) (word_of b i),
    )
