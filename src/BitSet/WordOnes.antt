-- ===== src/BitSet/WordOnes.antt =====
-- crates/l5m-core/src/bitset.rs: the indices of the set bits of words, as a list and as a filter.
use native.Mathlib.Nat.{suc-add, zero-add, add-zero, pow-suc}
use l5m.Prelude.{
  ℕ, zero, suc, ◌+◌, ◌-◌, ◌*◌, ◌/◌, ◌%◌, ◌^◌, ◌≤◌, ◌<◌, ◌≡◌, refl, ap, ap₂, ◌∙◌, subst, Bool, true,
  false, List, [], ◌∷◌, ◌++◌, bit_and, ◌==◌, if◌then◌else◌, length, length-append, get_or, drop,
  filter, filter-append, append-nil, range, arith,
}
use l5m.Prelude.Bits
use l5m.Prelude.Bits.{
  bit, bit-zero, trailing_zeros, trailing_zeros-lt, bit_and_step, bit_and-lt, clear_lowest_parts,
}
use l5m.BitSet.{BitSet, sum_ones}
use l5m.BitSet.View.{holds, IsValid}

-- The indices of the bits of one word, whose lowest bit has the index `base`.
unfoldable pub word_ones : ℕ → ℕ → ℕ → List ℕ
word_ones zero base w = []
word_ones (suc k) base w =
    let rest = word_ones k (base + 1) (w / 2) in if w % 2 == 1 then base ∷ rest else rest

pub word_ones-zero : (k base : ℕ) → word_ones k base 0 ≡ []
unfolding word_ones
word_ones-zero zero base = refl
word_ones-zero (suc k) base = word_ones-zero k (base + 1)

-- The lowest bit comes first, and clearing it leaves the others.
pub word_ones_lowest :
    (k base w : ℕ)
    → 0 < w
    → w < 2 ^ k
    → word_ones k base w ≡ (base + trailing_zeros k w) ∷ word_ones k base (bit_and w (w - 1))
unfolding word_ones trailing_zeros
word_ones_lowest zero base w p h = absurd (omega arith)
word_ones_lowest (suc k) base w p h =
    ground (arith, pow-suc 2 k, clear_lowest_parts w p, word_ones_lowest k (base + 1) (w / 2))

-- The indices of all words, the first of which has the lowest bit `base`.
unfoldable pub words_ones : ℕ → List ℕ → List ℕ
words_ones base [] = []
words_ones base (w ∷ ws) = word_ones 64 base w ++ words_ones (base + 64) ws

pub words_ones-drop :
    (base n : ℕ) (ws : List ℕ)
    → words_ones base (drop n ws)
      ≡ word_ones 64 base (get_or ws n 0) ++ words_ones (base + 64) (drop (n + 1) ws)
unfolding words_ones
words_ones-drop base zero [] = rw word_ones-zero
words_ones-drop base zero (w ∷ ws) = refl
words_ones-drop base (suc n) [] = rw (suc-add, word_ones-zero)
words_ones-drop base (suc n) (w ∷ ws) = rw suc-add (words_ones-drop base n ws)

length-word_ones : (k base w : ℕ) → length (word_ones k base w) ≤ k
unfolding word_ones
length-word_ones zero base w = omega arith
length-word_ones (suc k) base w = ground (arith, length-word_ones k (base + 1) (w / 2))

pub length-words_ones : (base : ℕ) (ws : List ℕ) → length (words_ones base ws) ≤ 64 * length ws
unfolding words_ones
length-words_ones base [] = omega arith
length-words_ones base (w ∷ ws) = omega (
  arith,
  length-append (word_ones 64 base w) (words_ones (base + 64) ws),
  length-word_ones 64 base w,
  length-words_ones (base + 64) ws,
)

-- The bits of a word as a filter over the places that it has.
range-append : (a m n : ℕ) → range a (m + n) ≡ range a m ++ range (a + m) n
range-append a zero n = rw (zero-add, add-zero)
range-append a (suc m) n =
    let e : a + suc m ≡ a + 1 + m = omega arith in
    rw (suc-add, e) (ap (◌∷◌ a) (range-append (a + 1) m n))

shift_index : (p : ℕ → Bool) (b : Bool) {i j : ℕ} → i ≡ j → p i ≡ b → p j ≡ b
shift_index p b e h = subst (λ k. p k ≡ b) e h

word_ones-filter :
    (p : ℕ → Bool) (k base w : ℕ)
    → ((j : ℕ) → j < k → p (base + j) ≡ (bit j w == 1))
    → word_ones k base w ≡ filter p (range base k)
unfolding word_ones bit
word_ones-filter p zero base w h = refl
word_ones-filter p (suc k) base w h =
    ground (arith, first, word_ones-filter p k (base + 1) (w / 2) tail_bit)
  where
    tail_bit : (j : ℕ) → j < k → p (base + 1 + j) ≡ (bit j (w / 2) == 1)
    tail_bit j lt =
        shift_index p (bit j (w / 2) == 1) {i = base + suc j} {j = base + 1 + j} (omega arith)
          (h (suc j) (omega arith))

    first : p base ≡ (w % 2 == 1)
    first = shift_index p (w % 2 == 1) {i = base + 0} {j = base} (omega arith) (h 0 (omega arith))

words_ones-filter :
    (p : ℕ → Bool) (base : ℕ) (ws : List ℕ)
    → ((i j : ℕ) → i < length ws → j < 64 → p (base + (i * 64 + j)) ≡ (bit j (get_or ws i 0) == 1))
    → words_ones base ws ≡ filter p (range base (64 * length ws))
unfolding words_ones
words_ones-filter p base [] h = refl
words_ones-filter p base (w ∷ ws) h =
    let size : 64 * suc (length ws) ≡ 64 + 64 * length ws = omega arith in
    rw (size, range-append, filter-append)
      (ap₂ ◌++◌
        (word_ones-filter p 64 base w
          (λ j lt. shift_index p _ (omega arith) (h 0 j (omega arith) lt)))
        (words_ones-filter p (base + 64) ws
          (λ i j lt lt'. shift_index p _ (omega arith) (h (suc i) j (omega arith) lt'))))

filter_none : (p : ℕ → Bool) (a n : ℕ) → ((i : ℕ) → a ≤ i → p i ≡ false) → filter p (range a n) ≡ []
filter_none p a zero h = refl
filter_none p a (suc n) h =
    rw (h a (omega arith)) (filter_none p (a + 1) n (λ i le. h i (omega arith)))

pub filter_redundant :
    (p q : ℕ → Bool) (l : List ℕ)
    → ((i : ℕ) → q i ≡ true → p i ≡ true)
    → filter p (filter q l) ≡ filter q l
filter_redundant p q [] h = refl
filter_redundant p q (x ∷ l) h = ground (arith, h x, filter_redundant p q l h)

pub words_ones-holds :
    (b : BitSet) → IsValid b → words_ones 0 b.words ≡ filter (holds b) (range 0 b.size)
words_ones-holds b v =
    words_ones-filter (holds b) 0 b.words (λ i j lt lt'. place i j lt')
    ∙ (rw (size, range-append, filter-append)
        (ap (◌++◌ (filter (holds b) (range 0 b.size)))
            (filter_none (holds b) _ _ (λ i le. v.unused i (omega arith)))
          ∙ append-nil _))
  where
    place : (i j : ℕ) → j < 64 → holds b (0 + (i * 64 + j)) ≡ (bit j (get_or b.words i 0) == 1)
    place i j lt =
        let q : (0 + (i * 64 + j)) / 64 ≡ i = omega arith in
        let r : (0 + (i * 64 + j)) % 64 ≡ j = omega arith in rw (q, r)

    size : 64 * length b.words ≡ b.size + (64 * length b.words - b.size)
    size = omega (arith, v.enough)

count_ones-word_ones : (k base w : ℕ) → length (word_ones k base w) ≡ Bits.count_ones k w
unfolding word_ones Bits.count_ones
count_ones-word_ones zero base w = refl
count_ones-word_ones (suc k) base w = ground (arith, count_ones-word_ones k (base + 1) (w / 2))

pub sum_ones-words_ones : (base : ℕ) (ws : List ℕ) → length (words_ones base ws) ≡ sum_ones ws
unfolding words_ones sum_ones
sum_ones-words_ones base [] = refl
sum_ones-words_ones base (w ∷ ws) = omega (
  arith,
  length-append (word_ones 64 base w) (words_ones (base + 64) ws),
  count_ones-word_ones 64 base w,
  sum_ones-words_ones (base + 64) ws,
)
