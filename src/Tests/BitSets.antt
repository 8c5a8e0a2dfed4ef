-- ===== src/Tests/BitSets.antt =====
-- Bit sets of seventy indices.
use l5m.Prelude.{ℕ, ◌≡◌, false, not, ◌&&◌, ◌||◌, some, ltb, ◌==◌, filter, range, arith}
use l5m.BitSet
use l5m.BitSet.{BitSet}
use l5m.BitSet.View.{holds, IsValid, get-holds}
use l5m.BitSet.Ops.{new_lem, set_lem, clear_lem}
use l5m.BitSet.Merge.{full_lem}
use l5m.BitSet.Ones.{iter_ones_lem}

none-IsValid : IsValid (BitSet.new 70)
none-IsValid = (new_lem 70).0

all-IsValid : IsValid (BitSet.full 70)
all-IsValid = (full_lem 70).0

new_lem_example : IsValid (BitSet.new 70) × ((i : ℕ) → holds (BitSet.new 70) i ≡ false)
new_lem_example = new_lem 70

full_lem_example : IsValid (BitSet.full 70) × ((i : ℕ) → holds (BitSet.full 70) i ≡ ltb i 70)
full_lem_example = full_lem 70

set_lem_example :
    (b' : BitSet) × (BitSet.set (BitSet.new 70) 65 ≡ some b')
    × (b'.size ≡ 70)
    × IsValid b'
    × ((j : ℕ) → holds b' j ≡ ((65 == j) || holds (BitSet.new 70) j))
unfolding BitSet.new
set_lem_example = set_lem (BitSet.new 70) 65 none-IsValid (omega arith)

clear_lem_example :
    (b' : BitSet) × (BitSet.clear (BitSet.new 70) 65 ≡ some b')
    × (b'.size ≡ 70)
    × IsValid b'
    × ((j : ℕ) → holds b' j ≡ (not (65 == j) && holds (BitSet.new 70) j))
unfolding BitSet.new
clear_lem_example = clear_lem (BitSet.new 70) 65 none-IsValid (omega arith)

get-holds_example : BitSet.get (BitSet.new 70) 65 ≡ some (holds (BitSet.new 70) 65)
unfolding BitSet.new
get-holds_example = get-holds (BitSet.new 70) 65 (omega arith)

iter_ones_lem_example :
    BitSet.iter_ones (BitSet.full 70)
    ≡ filter (holds (BitSet.full 70)) (range 0 (BitSet.full 70).size)
iter_ones_lem_example = iter_ones_lem (BitSet.full 70) all-IsValid
