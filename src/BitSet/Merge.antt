-- ===== src/BitSet/Merge.antt =====
-- crates/l5m-core/src/bitset.rs: and_assign, or_assign and full on sets of indices.
use l5m.Prelude.{
  ℕ, zero, suc, ◌-◌, ◌/◌, ◌%◌, ◌^◌, ◌≤◌, ◌<◌, ◌≡◌, refl, sym, ap, ◌∙◌, inl, inr, Bool-cases, true,
  false, ◌&&◌, ◌||◌, some, List, [], ◌∷◌, bit_and, bit_or, ltb, ◌==◌, if◌then◌else◌, length, get_or,
  All, replicate, length-replicate, arith,
}
use l5m.Prelude.Bits.{bit-le, bit-zero, bit-bit_and, bit-bit_or, bit-ones, bit_or-lt, bit_and-lt}
use l5m.BitSet.{
  BitSet, div_ceil, u64_max, full, mask_last, clear_unused_bits, zip_words, and_assign, or_assign,
}
use l5m.BitSet.View.{holds, IsValid}
use l5m.BitSet.Ops.{get_or-replicate}
use l5m.BitSet.Ops.{All-replicate}

get_or-zip_words :
    (f : ℕ → ℕ → ℕ) (as' bs : List ℕ) (i : ℕ)
    → length as' ≡ length bs
    → f 0 0 ≡ 0
    → get_or (zip_words f as' bs) i 0 ≡ f (get_or as' i 0) (get_or bs i 0)
unfolding zip_words
get_or-zip_words f [] [] i e z = sym z
get_or-zip_words f [] (b ∷ bs) i e z = absurd (omega arith)
get_or-zip_words f (a ∷ as') [] i e z = absurd (omega arith)
get_or-zip_words f (a ∷ as') (b ∷ bs) zero e z = refl
get_or-zip_words f (a ∷ as') (b ∷ bs) (suc i) e z = get_or-zip_words f as' bs i (omega arith) z

length-zip_words : (f : ℕ → ℕ → ℕ) (as' bs : List ℕ) → length (zip_words f as' bs) ≡ length as'
unfolding zip_words
length-zip_words f [] bs = refl
length-zip_words f (a ∷ as') [] = refl
length-zip_words f (a ∷ as') (b ∷ bs) = ap suc (length-zip_words f as' bs)

All-zip_words :
    (f : ℕ → ℕ → ℕ)
    → ((a b : ℕ) → a < 2 ^ 64 → b < 2 ^ 64 → f a b < 2 ^ 64)
    → (as' bs : List ℕ) → All (λ w. w < 2 ^ 64) as'
    → All (λ w. w < 2 ^ 64) bs
    → All (λ w. w < 2 ^ 64) (zip_words f as' bs)
unfolding zip_words
All-zip_words f keep [] bs h k = tt
All-zip_words f keep (a ∷ as') [] h k = h
All-zip_words f keep (a ∷ as') (b ∷ bs) h k =
    (keep a b h.0 k.0, All-zip_words f keep as' bs h.1 k.1)

-- `and_assign` of well formed sets of one size returns a well formed set of that size which holds
-- their intersection.
pub and_assign_lem :
    (a b : BitSet)
    → IsValid a
    → IsValid b
    → a.size ≡ b.size
    → (c : BitSet) × (and_assign a b ≡ some c)
      × (c.size ≡ a.size)
      × IsValid c
      × ((i : ℕ) → holds c i ≡ (holds a i && holds b i))
unfolding and_assign
and_assign_lem a b va vb e = (met, ground arith, refl, valid, meets)
  where
    same : length a.words ≡ length b.words
    same = va.enough ∙ (ap div_ceil e ∙ sym vb.enough)

    met : BitSet
    met = record a { words = zip_words bit_and a.words b.words }

    meets : (i : ℕ) → holds met i ≡ (holds a i && holds b i)
    meets i = ground (
      arith,
      get_or-zip_words bit_and a.words b.words (i / 64) same refl,
      bit-bit_and (i % 64) (get_or a.words (i / 64) 0) (get_or b.words (i / 64) 0),
      bit-le (i % 64) (get_or a.words (i / 64) 0),
      bit-le (i % 64) (get_or b.words (i / 64) 0),
    )

    valid : IsValid met
    valid = record {
      enough = length-zip_words bit_and a.words b.words ∙ va.enough;
      bounded =
          All-zip_words bit_and (λ x y p q. bit_and-lt 64 x y p) a.words b.words va.bounded
            vb.bounded;
      unused = λ i past. rw (meets i) (ground (arith, va.unused i));
    }

get_or-mask_last :
    (m : ℕ) (ws : List ℕ) (i : ℕ)
    → get_or (mask_last m ws) i 0
      ≡ (if suc i == length ws then bit_and (get_or ws i 0) m else get_or ws i 0)
unfolding mask_last
get_or-mask_last m [] i = ground arith
get_or-mask_last m (w ∷ []) zero = ground arith
get_or-mask_last m (w ∷ []) (suc i) = ground arith
get_or-mask_last m (w ∷ w' ∷ ws) zero = ground arith
get_or-mask_last m (w ∷ w' ∷ ws) (suc i) = ground (arith, get_or-mask_last m (w' ∷ ws) i)

length-mask_last : (m : ℕ) (ws : List ℕ) → length (mask_last m ws) ≡ length ws
unfolding mask_last
length-mask_last m [] = refl
length-mask_last m (w ∷ []) = refl
length-mask_last m (w ∷ w' ∷ ws) = ap suc (length-mask_last m (w' ∷ ws))

All-mask_last :
    (m : ℕ) (ws : List ℕ) → All (λ w. w < 2 ^ 64) ws → All (λ w. w < 2 ^ 64) (mask_last m ws)
unfolding mask_last
All-mask_last m [] h = tt
All-mask_last m (w ∷ []) h = (bit_and-lt 64 w m h.0, tt)
All-mask_last m (w ∷ w' ∷ ws) h = (h.0, All-mask_last m (w' ∷ ws) h.1)

get_or_past : (ws : List ℕ) (i : ℕ) → length ws ≤ i → get_or ws i 0 ≡ 0
get_or_past [] i h = refl
get_or_past (w ∷ ws) zero h = absurd (omega arith)
get_or_past (w ∷ ws) (suc i) h = get_or_past ws i (omega arith)

-- Clearing the unused bits makes a set of enough words well formed, and changes no bit in range.
clear_unused_bits_lem :
    (b : BitSet)
    → length b.words ≡ div_ceil b.size
    → All (λ w. w < 2 ^ 64) b.words
    → ((clear_unused_bits b).size ≡ b.size)
      × IsValid (clear_unused_bits b)
      × ((i : ℕ) → holds (clear_unused_bits b) i ≡ (ltb i b.size && holds b i))
unfolding clear_unused_bits
clear_unused_bits_lem b enough bounded = elim (Bool-cases (b.size % 64 == 0)) [
  | inl whole ↦ rw whole (
    refl,
    record {
      enough = enough;
      bounded = bounded;
      unused = λ i past. ground (arith, full_words whole i);
    },
    full_words whole,
  )
  | inr part ↦ rw part (
    refl,
    record {
      enough = length-mask_last _ b.words ∙ enough;
      bounded = All-mask_last _ b.words bounded;
      unused = λ i past. ground (arith, masked part i);
    },
    masked part,
  )
]
  where
    full_words : (b.size % 64 == 0) ≡ true → (i : ℕ) → holds b i ≡ (ltb i b.size && holds b i)
    full_words whole i = ground (arith, enough, get_or_past b.words (i / 64), bit-zero (i % 64))

    masked :
        (b.size % 64 == 0) ≡ false
        → (i : ℕ)
        → holds (record b { words = mask_last (2 ^ (b.size % 64) - 1) b.words }) i
          ≡ (ltb i b.size && holds b i)
    masked part i = ground (
      arith,
      enough,
      get_or-mask_last (2 ^ (b.size % 64) - 1) b.words (i / 64),
      bit-bit_and (i % 64) (get_or b.words (i / 64) 0) (2 ^ (b.size % 64) - 1),
      bit-ones (i % 64) (b.size % 64),
      bit-le (i % 64) (get_or b.words (i / 64) 0),
      get_or_past b.words (i / 64),
      bit-zero (i % 64),
    )

-- `or_assign` of well formed sets of one size returns a well formed set of that size which holds
-- their union.
pub or_assign_lem :
    (a b : BitSet)
    → IsValid a
    → IsValid b
    → a.size ≡ b.size
    → (c : BitSet) × (or_assign a b ≡ some c)
      × (c.size ≡ a.size)
      × IsValid c
      × ((i : ℕ) → holds c i ≡ (holds a i || holds b i))
unfolding or_assign
or_assign_lem a b va vb e = (
  clear_unused_bits joined,
  ground arith,
  cleared.0,
  cleared.1,
  λ i. ground (arith, cleared.2 i, joins i, va.unused i, vb.unused i),
)
  where
    joined : BitSet
    joined = record a { words = zip_words bit_or a.words b.words }

    same : length a.words ≡ length b.words
    same = va.enough ∙ (ap div_ceil e ∙ sym vb.enough)

    joins : (i : ℕ) → holds joined i ≡ (holds a i || holds b i)
    joins i = ground (
      arith,
      get_or-zip_words bit_or a.words b.words (i / 64) same refl,
      bit-bit_or (i % 64) (get_or a.words (i / 64) 0) (get_or b.words (i / 64) 0),
      bit-le (i % 64) (get_or a.words (i / 64) 0),
      bit-le (i % 64) (get_or b.words (i / 64) 0),
    )

    cleared :
        ((clear_unused_bits joined).size ≡ a.size)
        × IsValid (clear_unused_bits joined)
        × ((i : ℕ) → holds (clear_unused_bits joined) i ≡ (ltb i a.size && holds joined i))
    cleared = clear_unused_bits_lem joined (length-zip_words bit_or a.words b.words ∙ va.enough) (
        All-zip_words bit_or (λ x y p q. bit_or-lt 64 x y p q) a.words b.words va.bounded
          vb.bounded)

-- `full` is well formed and holds exactly the indices below its size.
pub full_lem : (size : ℕ) → IsValid (full size) × ((i : ℕ) → holds (full size) i ≡ ltb i size)
unfolding full
full_lem size = (
  cleared.1,
  λ i.
      ground (
        arith,
        cleared.2 i,
        get_or-replicate (div_ceil size) (i / 64) u64_max,
        bit-ones (i % 64) 64,
      ),
)
  where
    all_ones : BitSet
    all_ones = record { size = size; words = replicate (div_ceil size) u64_max }

    cleared :
        ((clear_unused_bits all_ones).size ≡ size)
        × IsValid (clear_unused_bits all_ones)
        × ((i : ℕ) → holds (clear_unused_bits all_ones) i ≡ (ltb i size && holds all_ones i))
    cleared =
        clear_unused_bits_lem all_ones (length-replicate _ u64_max)
          (All-replicate _ u64_max (omega arith))
