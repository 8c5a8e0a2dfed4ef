-- ===== src/Prelude/Set.antt =====
-- A `HashSet` of integers as a list; only membership is observed.
use Prim.Native.Nat.{ℕ}
use mathlib.Core.Path.{◌≡◌}
use mathlib.Core.Bool.{Bool, true, false, not, ◌&&◌, ◌||◌}
use mathlib.Core.List.{List, [], ◌∷◌}
use native.Mathlib.Omega.{arith}
use l5m.Prelude.Tests.{◌==◌, if◌then◌else◌}

unfoldable pub contains : ℕ → List ℕ → Bool
contains k [] = false
contains k (j ∷ s) = (j == k) || contains k s

unfoldable pub insert : ℕ → List ℕ → List ℕ
insert k s = if contains k s then s else k ∷ s

unfoldable pub remove : ℕ → List ℕ → List ℕ
remove k [] = []
remove k (j ∷ s) = if j == k then remove k s else j ∷ remove k s

contains_of_eq :
    (k j : ℕ) (s : List ℕ) → contains k s ≡ true → (k == j) ≡ true → contains j s ≡ true
unfolding contains
contains_of_eq k j [] h e = h
contains_of_eq k j (i ∷ s) h e = ground (arith, contains_of_eq k j s)

pub contains-insert : (k j : ℕ) (s : List ℕ) → contains j (insert k s) ≡ ((k == j) || contains j s)
unfolding insert contains
contains-insert k j s = ground (arith, contains_of_eq k j s)

pub contains-remove :
    (k j : ℕ) (s : List ℕ) → contains j (remove k s) ≡ (not (k == j) && contains j s)
unfolding contains remove
contains-remove k j [] = ground arith
contains-remove k j (i ∷ s) = ground (arith, contains-remove k j s)
