-- ===== src/BitSet/View.antt =====
-- crates/l5m-core/src/bitset.rs: what a bit set holds, and when its words are well formed.
use l5m.Prelude.{
  ℕ, ◌/◌, ◌%◌, ◌^◌, ◌≤◌, ◌<◌, ◌≡◌, Bool, false, some, ◌==◌, length, get_or, All, arith,
}
use native.Mathlib.Nat.{one-le-pow}
use l5m.Prelude.Bits.{bit, bit-le, bit_and-two_pow}
use l5m.BitSet.{BitSet, div_ceil, get}

-- The index is in the set.
abbrev pub holds : BitSet → ℕ → Bool
holds b i = bit (i % 64) (get_or b.words (i / 64) 0) == 1

-- The words are as many as the size asks for, each has 64 bits, and no bit past the size is set.
pub record IsValid (b : BitSet) : Type 0 where
  pub enough : length b.words ≡ div_ceil b.size
  pub bounded : All (λ w. w < 2 ^ 64) b.words
  pub unused : (i : ℕ) → b.size ≤ i → holds b i ≡ false

pub get-holds : (b : BitSet) (i : ℕ) → i < b.size → get b i ≡ some (holds b i)
unfolding get
get-holds b i h =
    let w = get_or b.words (i / 64) 0 in
    let k = i % 64 in rw (bit_and-two_pow k w) (ground (arith, bit-le k w, one-le-pow k 2))
