-- ===== src/Sorting.antt =====
-- `sort_by` of the standard library by a comparison that need not be a total order, as where
-- crates/l5m-core/src/retrieve.rs and store.rs compare floats. By a total order it is the stable
-- sort; by any other comparison its documentation lets it panic or leave any order.
pub mod Orders
use l5m.Prelude.{
  ℕ, zero, suc, ◌≡◌, refl, Bool, true, false, ◌&&◌, Option, none, some, Ordering, List, [], ◌∷◌,
  map, if◌then◌else◌, all, All, Bool-cases, inl, inr,
}
use l5m.Prelude.Sort.{sort_by, All-sort_by}
use l5m.Outcome.{Outcome, ok, panic, ReturnsOrPanics, ReturnsOrPanics-ok, ReturnsOrPanics-panic}

unfoldable pub not_after : Ordering → Bool
not_after Ordering.gt = false
not_after _ = true

unfoldable pub are_opposite : Ordering → Ordering → Bool
are_opposite Ordering.lt Ordering.gt = true
are_opposite Ordering.eq Ordering.eq = true
are_opposite Ordering.gt Ordering.lt = true
are_opposite _ _ = false

-- The elements after each other by swaps of the one at a place with the next.
unfoldable pub swap_next {ℓ} : {A : Type ℓ} → ℕ → List A → List A
swap_next i [] = []
swap_next i (x ∷ []) = x ∷ []
swap_next zero (x ∷ y ∷ xs) = y ∷ x ∷ xs
swap_next (suc i) (x ∷ y ∷ xs) = x ∷ swap_next i (y ∷ xs)

unfoldable pub swap_all {ℓ} : {A : Type ℓ} → List ℕ → List A → List A
unfolding swap_next
swap_all [] xs = xs
swap_all (i ∷ is) xs = swap_all is (swap_next i xs)

module _ {ℓ} {A : Type ℓ} (cmp : A → A → Ordering) where
  -- From `x` to `y` to `z` the order goes on.
  unfoldable pub goes_on : A → A → A → Bool
  unfolding not_after
  goes_on x y z = if not_after (cmp x y) && not_after (cmp y z) then not_after (cmp x z) else true

  -- The comparison is a total order of the elements, up to ties.
  unfoldable pub is_total_order : List A → Bool
  unfolding goes_on are_opposite
  is_total_order xs =
      all (λ x. all (λ y. are_opposite (cmp x y) (cmp y x) && all (goes_on x y) xs) xs) xs

  -- `xs.sort_by(cmp)`.
  unfoldable pub std_sort_by : (List (List Ordering) → Option (List ℕ)) → List A → Outcome (List A)
  unfolding is_total_order sort_by swap_all
  std_sort_by unordered xs =
      if is_total_order xs
      then ok (sort_by cmp xs)
      else elim (unordered (map (λ x. map (cmp x) xs) xs)) [
        | none ↦ panic
        | some swaps ↦ ok (swap_all swaps xs)
      ]

module _ {A : Type 0} (P : A → Type 0) where
  All-swap_next : (i : ℕ) (xs : List A) → All P xs → All P (swap_next i xs)
  unfolding swap_next
  All-swap_next i [] h = tt
  All-swap_next i (x ∷ []) h = h
  All-swap_next zero (x ∷ y ∷ xs) h = (h.1.0, (h.0, h.1.1))
  All-swap_next (suc i) (x ∷ y ∷ xs) h = (h.0, All-swap_next i (y ∷ xs) h.1)

  All-swap_all : (is : List ℕ) (xs : List A) → All P xs → All P (swap_all is xs)
  unfolding swap_all
  All-swap_all [] xs h = h
  All-swap_all (i ∷ is) xs h = All-swap_all is (swap_next i xs) (All-swap_next i xs h)

  -- Whatever the comparison, no element comes from elsewhere; the sort panics only if the comparison
  -- is no total order of the elements.
  pub All-std_sort_by :
      (cmp : A → A → Ordering) (unordered : List (List Ordering) → Option (List ℕ)) (xs : List A)
      → All P xs
      → ReturnsOrPanics (std_sort_by cmp unordered xs) (All P) (is_total_order cmp xs ≡ false)
  unfolding std_sort_by
  All-std_sort_by cmp unordered xs h = elim (Bool-cases (is_total_order cmp xs)) [
    | inl total ↦ rw total (ReturnsOrPanics-ok _ (All-sort_by P cmp xs h))
    | inr other ↦ rw other (by_order (unordered (map (λ x. map (cmp x) xs) xs)))
  ]
    where
      by_order :
          (o : Option (List ℕ))
          → ReturnsOrPanics
              (elim o [ none ↦ panic | some swaps ↦ ok (swap_all swaps xs) ])
              (All P)
              (false ≡ false)
      by_order none = ReturnsOrPanics-panic refl
      by_order (some swaps) = ReturnsOrPanics-ok _ (All-swap_all swaps xs h)
