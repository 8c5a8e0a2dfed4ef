-- ===== src/Prelude/Sort.antt =====
-- `sort_by`, `sort_by_key` and `sort_unstable` of the standard library by a comparison that is a
-- total order, as a stable insertion sort. For other comparisons see Sorting.
use Prim.Native.Nat.{suc, Ordering}
use mathlib.Core.Path.{◌≡◌, refl}
use mathlib.Core.List.{List, [], ◌∷◌}
use mathlib.Core.Option.{Option, none, some}
use native.Mathlib.Omega.{arith}
use l5m.Prelude.Lists.{length, All}

module _ {ℓ} {A : Type ℓ} where
  -- `x` goes before the first element that it does not exceed.
  unfoldable pub insert_by : (A → A → Ordering) → A → List A → List A
  insert_by cmp x [] = x ∷ []
  insert_by cmp x (y ∷ ys) = elim (cmp x y) [
    | Ordering.gt ↦ y ∷ insert_by cmp x ys
    | _ ↦ x ∷ y ∷ ys
  ]

  unfoldable pub sort_by : (A → A → Ordering) → List A → List A
  unfolding insert_by
  sort_by cmp [] = []
  sort_by cmp (x ∷ xs) = insert_by cmp x (sort_by cmp xs)

  length-insert_by :
      (cmp : A → A → Ordering) (x : A) (ys : List A) → length (insert_by cmp x ys) ≡ suc (length ys)
  unfolding insert_by
  length-insert_by cmp x [] = refl
  length-insert_by cmp x (y ∷ ys) = ground (arith, length-insert_by cmp x ys)

  pub length-sort_by : (cmp : A → A → Ordering) (xs : List A) → length (sort_by cmp xs) ≡ length xs
  unfolding sort_by
  length-sort_by cmp [] = refl
  length-sort_by cmp (x ∷ xs) =
      omega (arith, length-insert_by cmp x (sort_by cmp xs), length-sort_by cmp xs)

module _ {ℓ κ} {A : Type ℓ} (P : A → Type κ) (cmp : A → A → Ordering) where
  All-insert_by : (x : A) (ys : List A) → P x → All P ys → All P (insert_by cmp x ys)
  unfolding insert_by
  All-insert_by x [] p h = (p, tt)
  All-insert_by x (y ∷ ys) p h = by_order (cmp x y) (All-insert_by x ys p h.1)
    where
      by_order :
          (o : Ordering)
          → All P (insert_by cmp x ys)
          → All P (elim o [ Ordering.gt ↦ y ∷ insert_by cmp x ys | _ ↦ x ∷ y ∷ ys ])
      by_order Ordering.lt r = (p, h)
      by_order Ordering.eq r = (p, h)
      by_order Ordering.gt r = (h.0, r)

  -- Sorting keeps what holds of every element.
  pub All-sort_by : (xs : List A) → All P xs → All P (sort_by cmp xs)
  unfolding sort_by
  All-sort_by [] h = tt
  All-sort_by (x ∷ xs) h = All-insert_by x (sort_by cmp xs) h.0 (All-sort_by xs h.1)

-- `then_with`.
abbrev pub then_with : Ordering → Ordering → Ordering
then_with Ordering.eq o = o
then_with Ordering.lt o = Ordering.lt
then_with Ordering.gt o = Ordering.gt

-- `unwrap_or(Ordering::Equal)`.
abbrev pub or_equal : Option Ordering → Ordering
or_equal none = Ordering.eq
or_equal (some o) = o
