-- ===== src/BitSet.antt =====
-- crates/l5m-core/src/bitset.rs: a fixed-size set of indices packed into 64-bit words. A word is a
-- number below 2 ^ 64. `none` is the panic of a failed `assert!`.
pub mod View
pub mod Ops
pub mod Merge
mod WordOnes
pub mod Ones
use l5m.Prelude.{
  ℕ, zero, suc, ◌+◌, ◌-◌, ◌*◌, ◌/◌, ◌%◌, ◌^◌, ◌≡◌, refl, Bool, true, false, not, Option, none, some,
  List, [], ◌∷◌, map, bit_and, bit_or, ltb, ◌==◌, if◌then◌else◌, length, get_or, set as set_at,
  replicate,
}
use l5m.Prelude.Bits
use l5m.Prelude.Bits.{trailing_zeros}

pub record BitSet : Type 0 where
  pub size : ℕ
  pub words : List ℕ

-- `size.div_ceil(64)`.
abbrev pub div_ceil : ℕ → ℕ
div_ceil size = (size + 63) / 64

-- `u64::MAX`, and `!w`.
abbrev pub u64_max : ℕ
u64_max = 2 ^ 64 - 1

abbrev pub complement : ℕ → ℕ
complement w = u64_max - w

unfoldable pub new : ℕ → BitSet
new size = record { size = size; words = replicate (div_ceil size) 0 }

-- `if let Some(last) = words.last_mut() { *last &= mask; }`.
mask_last : ℕ → List ℕ → List ℕ
mask_last mask [] = []
mask_last mask (w ∷ []) = bit_and w mask ∷ []
mask_last mask (w ∷ w' ∷ ws) = w ∷ mask_last mask (w' ∷ ws)

clear_unused_bits : BitSet → BitSet
unfolding mask_last
clear_unused_bits b =
    if b.size % 64 == 0 then b else record b { words = mask_last (2 ^ (b.size % 64) - 1) b.words }

pub full : ℕ → BitSet
unfolding clear_unused_bits
full size = clear_unused_bits (record { size = size; words = replicate (div_ceil size) u64_max })

-- The word that holds a bit, and the write to it.
abbrev word_of : BitSet → ℕ → ℕ
word_of b index = get_or b.words (index / 64) 0

abbrev write : BitSet → ℕ → ℕ → BitSet
write b index w = record b { words = set_at b.words (index / 64) w }

pub set : BitSet → ℕ → Option BitSet
set b index =
    if ltb index b.size
    then some (write b index (bit_or (word_of b index) (2 ^ (index % 64))))
    else none

pub clear : BitSet → ℕ → Option BitSet
clear b index =
    if ltb index b.size
    then some (write b index (bit_and (word_of b index) (complement (2 ^ (index % 64)))))
    else none

pub get : BitSet → ℕ → Option Bool
get b index =
    if ltb index b.size
    then some (not (bit_and (word_of b index) (2 ^ (index % 64)) == 0))
    else none

-- `left.iter_mut().zip(right)`: words that have no partner stay.
zip_words : (ℕ → ℕ → ℕ) → List ℕ → List ℕ → List ℕ
zip_words f [] bs = []
zip_words f (a ∷ as') [] = a ∷ as'
zip_words f (a ∷ as') (b ∷ bs) = f a b ∷ zip_words f as' bs

pub and_assign : BitSet → BitSet → Option BitSet
unfolding zip_words
and_assign a b =
    if a.size == b.size then some (record a { words = zip_words bit_and a.words b.words }) else none

pub or_assign : BitSet → BitSet → Option BitSet
unfolding zip_words clear_unused_bits
or_assign a b =
    if a.size == b.size
    then some (clear_unused_bits (record a { words = zip_words bit_or a.words b.words }))
    else none

pub sum_ones : List ℕ → ℕ
sum_ones [] = 0
sum_ones (w ∷ ws) = Bits.count_ones 64 w + sum_ones ws

pub count_ones : BitSet → ℕ
unfolding sum_ones
count_ones b = sum_ones b.words

pub len : BitSet → ℕ
len b = b.size

pub is_empty : BitSet → Bool
is_empty b = b.size == 0

-- The iterator `BitSetOnes`.
pub record BitSetOnes : Type 0 where
  pub bitset : BitSet
  pub word_index : ℕ
  pub current_word : ℕ

pub ones : BitSet → BitSetOnes
ones b = record { bitset = b; word_index = 0; current_word = get_or b.words 0 0 }

-- One round of the `while` loop of `next`, which goes on with the iterator that it leaves.
drop_bit : BitSetOnes → BitSetOnes
drop_bit it = record it { current_word = bit_and it.current_word (it.current_word - 1) }

next_word : BitSetOnes → BitSetOnes
next_word it = record it {
  word_index = it.word_index + 1;
  current_word = get_or it.bitset.words (it.word_index + 1) 0;
}

lowest_index : BitSetOnes → ℕ
lowest_index it = it.word_index * 64 + trailing_zeros 64 it.current_word

pub next : ℕ → BitSetOnes → Option ℕ × BitSetOnes
unfolding drop_bit next_word lowest_index
next zero it = (none, it)
next (suc fuel) it =
    let after_bit = next fuel (drop_bit it) in
    let after_word = next fuel (next_word it) in
    if ltb it.word_index (length it.bitset.words)
    then (if it.current_word == 0
        then after_word
        else (if ltb (lowest_index it) it.bitset.size
            then (some (lowest_index it), drop_bit it)
            else after_bit))
    else (none, it)

-- Rounds that are enough for every call: one for each bit and one for each word.
abbrev pub rounds : BitSet → ℕ
rounds b = 65 * length b.words + 1

-- The loop goes on while an index comes.
continue : Option ℕ → List ℕ → List ℕ
continue none rest = []
continue (some index) rest = index ∷ rest

-- `for index in bitset.iter_ones()`: calls of `next` until it returns `None`.
collect : ℕ → BitSetOnes → List ℕ
unfolding continue
collect zero it = []
collect (suc fuel) it =
    let (found, it') = next (rounds it.bitset) it in
    let rest = collect fuel it' in continue found rest

pub iter_ones : BitSet → List ℕ
unfolding ones collect
iter_ones b = collect (rounds b) (ones b)
