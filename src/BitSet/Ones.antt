-- ===== src/BitSet/Ones.antt =====
-- crates/l5m-core/src/bitset.rs: iter_ones and count_ones.
use native.Mathlib.Nat.{suc-add}
use native.Mathlib.Numerals.{add-one}
use l5m.Prelude.{
  ℕ, zero, suc, ◌+◌, ◌-◌, ◌*◌, ◌^◌, ◌≤◌, ◌<◌, ◌≡◌, refl, sym, ap, ap₂, ◌∙◌, ◌⊎◌, inl, inr, Option,
  some, none, List, [], ◌∷◌, ◌++◌, ltb, ◌==◌, if◌then◌else◌, Bool-cases, length, get_or, drop,
  filter, length-filter-le, range, All, All-get_or, arith,
}
use l5m.Prelude.Bits.{bit_and-lt}
use l5m.BitSet.{
  BitSet, BitSetOnes, count_ones, ones, drop_bit, next_word, lowest_index, next, rounds, collect,
  iter_ones,
}
use l5m.BitSet.View.{holds, IsValid}
use l5m.BitSet.WordOnes.{
  word_ones, word_ones-zero, word_ones_lowest, words_ones, words_ones-drop, length-words_ones,
  filter_redundant, words_ones-holds, sum_ones-words_ones,
}

-- What an iterator has left to yield, and the rounds that this takes at most.
module _ (it : BitSetOnes) where
  unseen : List ℕ
  unseen =
      word_ones 64 (it.word_index * 64) it.current_word
      ++ words_ones ((it.word_index + 1) * 64) (drop (it.word_index + 1) it.bitset.words)

  pending : List ℕ
  pending = filter (λ i. ltb i it.bitset.size) unseen

  left : ℕ
  left = length unseen + (length it.bitset.words - it.word_index)

  record Fits : Type 0 where
    word : it.current_word < 2 ^ 64
    words : All (λ w. w < 2 ^ 64) it.bitset.words
    past : length it.bitset.words ≤ it.word_index → it.current_word ≡ 0

get_or_past : (ws : List ℕ) (i : ℕ) → length ws ≤ i → get_or ws i 0 ≡ 0
get_or_past [] i h = refl
get_or_past (w ∷ ws) zero h = absurd (omega arith)
get_or_past (w ∷ ws) (suc i) h = get_or_past ws i (omega arith)

drop_past : (ws : List ℕ) (n : ℕ) → length ws ≤ n → drop (n + 1) ws ≡ []
drop_past [] n h = rw add-one
drop_past (w ∷ ws) zero h = absurd (omega arith)
drop_past (w ∷ ws) (suc n) h = rw suc-add (drop_past ws n (omega arith))

next_word-Fits : (it : BitSetOnes) → Fits it → Fits (next_word it)
unfolding next_word
next_word-Fits it v = record {
  word = All-get_or (λ w. w < 2 ^ 64) it.bitset.words (it.word_index + 1) 0 v.words (omega arith);
  words = v.words;
  past = get_or_past it.bitset.words (it.word_index + 1);
}

unseen-next_word : (it : BitSetOnes) → it.current_word ≡ 0 → unseen (next_word it) ≡ unseen it
unfolding next_word unseen
unseen-next_word it e =
    let n = it.word_index + 1 in
    let base : (n + 1) * 64 ≡ n * 64 + 64 = omega arith in
    let here : word_ones 64 (it.word_index * 64) it.current_word ≡ [] =
      ap (word_ones 64 (it.word_index * 64)) e ∙ word_ones-zero 64 (it.word_index * 64) in
    rw base (
      sym (words_ones-drop (n * 64) n it.bitset.words)
      ∙ sym (ap (λ l. l ++ words_ones (n * 64) (drop n it.bitset.words)) here))

drop_bit-Fits :
    (it : BitSetOnes)
    → Fits it
    → 0 < it.current_word
    → it.word_index < length it.bitset.words
    → Fits (drop_bit it)
unfolding drop_bit
drop_bit-Fits it v p h = record {
  word = bit_and-lt 64 _ _ v.word;
  words = v.words;
  past = λ le. absurd (omega arith);
}

unseen-drop_bit :
    (it : BitSetOnes)
    → Fits it
    → 0 < it.current_word
    → unseen it ≡ lowest_index it ∷ unseen (drop_bit it)
unfolding drop_bit unseen lowest_index
unseen-drop_bit it v p = rw (word_ones_lowest 64 (it.word_index * 64) it.current_word p v.word)

unseen-past : (it : BitSetOnes) → Fits it → length it.bitset.words ≤ it.word_index → unseen it ≡ []
unfolding unseen words_ones
unseen-past it v h =
    let here : word_ones 64 (it.word_index * 64) it.current_word ≡ [] =
      ap (word_ones 64 (it.word_index * 64)) (v.past h) ∙ word_ones-zero 64 (it.word_index * 64) in
    ap₂ ◌++◌ here
      (ap (words_ones ((it.word_index + 1) * 64)) (drop_past it.bitset.words it.word_index h))

-- What a call of `next` returns: nothing if nothing is left, and else the first index, with an
-- iterator that has the rest left.
abbrev Yields : BitSetOnes → Option ℕ × BitSetOnes → Type 0
Yields it r =
    ((pending it ≡ []) × (it' : BitSetOnes) × (r ≡ (none, it')))
    ⊎ ((i : ℕ) × (it' : BitSetOnes) × (r ≡ (some i, it'))
        × (pending it ≡ i ∷ pending it')
        × Fits it'
        × (it'.bitset ≡ it.bitset)
        × (left it' ≤ left it))

-- A round that yields nothing passes the answer on.
Yields-later :
    (it it2 : BitSetOnes) (r : Option ℕ × BitSetOnes)
    → pending it ≡ pending it2
    → left it2 ≤ left it
    → it2.bitset ≡ it.bitset
    → Yields it2 r
    → Yields it r
Yields-later it it2 r p l b (inl (e, it', n)) = inl (p ∙ e, it', n)
Yields-later it it2 r p l b (inr (i, it', e, q, f, s, k)) =
    inr (i, it', e, p ∙ q, f, s ∙ b, omega arith)

module _ (it : BitSetOnes) (v : Fits it) where
  left-next_word :
      it.word_index < length it.bitset.words
      → it.current_word ≡ 0
      → (left (next_word it) < left it) × (pending (next_word it) ≡ pending it)
  unfolding left pending next_word
  left-next_word h e =
      let same = unseen-next_word it e in
      (omega (arith, ap length same), ap (filter (λ i. ltb i it.bitset.size)) same)

  left-drop_bit : 0 < it.current_word → left (drop_bit it) < left it
  unfolding left drop_bit
  left-drop_bit p = omega (arith, ap length (unseen-drop_bit it v p))

  pending-drop_bit :
      0 < it.current_word
      → pending it ≡ (
          if ltb (lowest_index it) it.bitset.size
          then lowest_index it ∷ pending (drop_bit it)
          else pending (drop_bit it))
  unfolding pending drop_bit
  pending-drop_bit p = ap (filter (λ i. ltb i it.bitset.size)) (unseen-drop_bit it v p)

  pending-past : length it.bitset.words ≤ it.word_index → pending it ≡ []
  unfolding pending
  pending-past h = ap (filter (λ i. ltb i it.bitset.size)) (unseen-past it v h)

next-Yields : (fuel : ℕ) (it : BitSetOnes) → Fits it → left it < fuel → Yields it (next fuel it)
unfolding next
next-Yields zero it v h = absurd (omega arith)
next-Yields (suc fuel) it v h = elim (Bool-cases (ltb it.word_index (length it.bitset.words))) [
  | inr done ↦ rw done (inl (pending-past it v (ground arith), it, refl))
  | inl more ↦ elim (Bool-cases (it.current_word == 0)) [
    | inl zero_word ↦
        let e : it.current_word ≡ 0 = ground arith in
        let (l, p) = left-next_word it v (ground arith) e in
        rw (more, zero_word)
          (Yields-later it (next_word it) _ (sym p) (omega arith) refl
            (next-Yields fuel (next_word it) (next_word-Fits it v) (omega arith)))
    | inr some_bit ↦
        let pos : 0 < it.current_word = ground arith in
        let l = left-drop_bit it v pos in
        let p = pending-drop_bit it v pos in
        let f = drop_bit-Fits it v pos (ground arith) in
        elim (Bool-cases (ltb (lowest_index it) it.bitset.size)) [
          | inl inside ↦
              rw (more, some_bit, inside)
                (inr (lowest_index it, drop_bit it, refl, p ∙ (rw inside), f, refl, omega arith))
          | inr outside ↦
              rw (more, some_bit, outside)
                (Yields-later it (drop_bit it) _ (p ∙ (rw outside)) (omega arith) refl
                  (next-Yields fuel (drop_bit it) f (omega arith)))
        ]
  ]
]

collect-pending :
    (fuel : ℕ) (it : BitSetOnes)
    → Fits it
    → left it < rounds it.bitset
    → length (pending it) < fuel
    → collect fuel it ≡ pending it
unfolding collect
collect-pending zero it v l h = absurd (omega arith)
collect-pending (suc fuel) it v l h = elim (next-Yields (rounds it.bitset) it v l) [
  | inl (e, it', n) ↦ rw (n, e)
  | inr (i, it', e, p, f, same, le) ↦
      let words : length it'.bitset.words ≡ length it.bitset.words =
        ap (λ b. length b.words) same in
      let room : left it' < rounds it'.bitset = omega arith in
      rw (e, p) (ap (◌∷◌ i) (collect-pending fuel it' f room (omega (arith, ap length p))))
]

unseen-ones : (b : BitSet) → unseen (ones b) ≡ words_ones 0 b.words
unfolding unseen ones
unseen-ones b = sym (words_ones-drop 0 0 b.words)

ones-Fits : (b : BitSet) → IsValid b → Fits (ones b)
unfolding ones
ones-Fits b v = record {
  word = All-get_or (λ w. w < 2 ^ 64) b.words 0 0 v.bounded (omega arith);
  words = v.bounded;
  past = get_or_past b.words 0;
}

iter_ones-words :
    (b : BitSet) → IsValid b → iter_ones b ≡ filter (λ i. ltb i b.size) (words_ones 0 b.words)
unfolding iter_ones ones pending left
iter_ones-words b v =
    collect-pending (rounds b) (ones b) (ones-Fits b v) room enough
    ∙ ap (filter (λ i. ltb i b.size)) (unseen-ones b)
  where
    fewer : length (words_ones 0 b.words) ≤ 64 * length b.words
    fewer = length-words_ones 0 b.words

    same : length (unseen (ones b)) ≡ length (words_ones 0 b.words)
    same = ap length (unseen-ones b)

    room : length (unseen (ones b)) + (length b.words - 0) < rounds b
    room = omega (arith, same, fewer)

    enough : length (filter (λ i. ltb i b.size) (unseen (ones b))) < rounds b
    enough = omega (arith, length-filter-le (λ i. ltb i b.size) (unseen (ones b)), same, fewer)

-- On a well formed set the iterator yields exactly the indices of the set, in ascending order.
pub iter_ones_lem : (b : BitSet) → IsValid b → iter_ones b ≡ filter (holds b) (range 0 b.size)
iter_ones_lem b v =
    iter_ones-words b v
    ∙ (ap (filter (λ i. ltb i b.size)) (words_ones-holds b v)
        ∙ filter_redundant (λ i. ltb i b.size) (holds b) (range 0 b.size)
            (λ i h. ground (arith, v.unused i)))

-- On a well formed set `count_ones` is the number of the indices that the iterator yields.
count_ones-iter_ones : (b : BitSet) → IsValid b → count_ones b ≡ length (iter_ones b)
unfolding count_ones
count_ones-iter_ones b v =
    sym (sum_ones-words_ones 0 b.words) ∙ ap length (words_ones-holds b v ∙ sym (iter_ones_lem b v))
