-- ===== src/Retrieve/Rank/Numbers.antt =====
-- crates/l5m-core/src/retrieve.rs: the sorts by scores can only panic where a score is NaN.
use l5m.Prelude.{
  ℕ, ◌+◌, ◌≡◌, ◌≢◌, sym, ◌∙◌, Bool, true, false, none, some, Ordering, List, [], ◌∷◌, map, all, All,
  Bool-cases, inl, inr, arith,
}
use l5m.Prelude.Sort.{or_equal}
use l5m.Platform.{Platform}
use l5m.Outcome.{ok}
use l5m.Sorting.Orders.{
  IsOrder, IsOrder-flip, IsOrder-on, IsOrder-then_with, is_total_order-of_IsOrder, Any,
  compare-IsOrder, compare_ℤ-IsOrder,
}
use l5m.Capsule.{MemoryCapsule}
use l5m.Frame.{MemoryProbe}
use l5m.Retrieve.Rank.{
  enumerate, descending, compare_positions, are_comparable, dense_scores, fuse_if_dense,
  compare_scored,
}
use l5m.Retrieve.Rank.Ordered.{IsUnordered, by_lexical, by_dense, by_fused}

-- `!x.is_nan()`: only NaN is not equal to itself.
abbrev pub is_number : (p : Platform) → p.F32 → Bool
is_number p x = elim (p.compare x x) [
  | some o ↦ elim o [ Ordering.eq ↦ true | _ ↦ false ]
  | none ↦ false
]

-- `partial_cmp` as IEEE 754 has it: floats other than NaN are totally ordered.
abbrev pub IsIeee : Platform → Type 0
IsIeee p = IsOrder (λ x. is_number p x ≡ true) (λ x y. or_equal (p.compare x y))

-- One of the three lists of scores that these capsules are sorted by has a NaN.
pub data HasNan (p : Platform) (probe : MemoryProbe p.F32) (k : p.F64)
    (scored : List (MemoryCapsule p.F32 × p.F32)) : Type 0 where
  lexical_nan : all (is_number p) (map (λ e. e.1) scored) ≡ false → HasNan p probe k scored
  dense_nan : all (is_number p) (dense_scores p probe scored) ≡ false → HasNan p probe k scored
  fused_nan :
      (after : List (MemoryCapsule p.F32 × p.F32))
      → fuse_if_dense p k probe scored ≡ ok after
      → all (λ e. is_number p e.1) after ≡ false
      → HasNan p probe k scored

true-ne : true ≢ false
true-ne h = cc

module _ (p : Platform) (ieee : IsIeee p) where
  open p use {F32}

  abbrev Number : F32 → Type 0
  Number x = is_number p x ≡ true

  positions-IsOrder : IsOrder (λ (e : ℕ × F32). Number e.1 × Any e.0) (compare_positions p)
  unfolding compare_positions descending
  positions-IsOrder =
      IsOrder-then_with (IsOrder-on (λ e. e.1) (IsOrder-flip ieee))
        (IsOrder-on (λ e. e.0) compare-IsOrder)

  scored-IsOrder :
      IsOrder
        (λ (e : MemoryCapsule F32 × F32).
          Number e.1 × (Any e.0.trust_level × Any e.0.last_verified_at))
        (compare_scored p)
  unfolding compare_scored descending
  scored-IsOrder = IsOrder-then_with (IsOrder-on (λ e. e.1) (IsOrder-flip ieee)) (
      IsOrder-then_with (IsOrder-on (λ e. e.0.trust_level) (IsOrder-flip compare-IsOrder))
        (IsOrder-on (λ e. e.0.last_verified_at) (IsOrder-flip compare_ℤ-IsOrder)))

  All-enumerate :
      (scores : List F32) (i : ℕ)
      → all (is_number p) scores ≡ true
      → All (λ e. Number e.1 × Any e.0) (enumerate i scores)
  All-enumerate [] i h = tt
  All-enumerate (x ∷ xs) i h =
      ((ground (arith, h), tt), All-enumerate xs (i + 1) (ground (arith, h)))

  All-numbers :
      (xs : List (MemoryCapsule F32 × F32))
      → all (λ e. is_number p e.1) xs ≡ true
      → All (λ e. Number e.1 × (Any e.0.trust_level × Any e.0.last_verified_at)) xs
  All-numbers [] h = tt
  All-numbers (x ∷ xs) h = ((ground (arith, h), (tt, tt)), All-numbers xs (ground (arith, h)))

  -- Scores that are numbers compare in a total order.
  nan-of_positions :
      (scores : List F32) → are_comparable p scores ≡ false → all (is_number p) scores ≡ false
  unfolding are_comparable
  nan-of_positions scores h = elim (Bool-cases (all (is_number p) scores)) [
    | inr nan ↦ nan
    | inl numbers ↦ absurd (
        true-ne (
          sym (is_total_order-of_IsOrder _ positions-IsOrder (All-enumerate scores 0 numbers)) ∙ h))
  ]

  -- Where a sort is by no total order, there is a NaN among its scores.
  pub HasNan-of_IsUnordered :
      (probe : MemoryProbe F32) (k : p.F64) (scored : List (MemoryCapsule F32 × F32))
      → IsUnordered p probe k scored
      → HasNan p probe k scored
  HasNan-of_IsUnordered probe k scored (by_lexical h) = lexical_nan (nan-of_positions _ h)
  HasNan-of_IsUnordered probe k scored (by_dense h) = dense_nan (nan-of_positions _ h)
  HasNan-of_IsUnordered probe k scored (by_fused after e h) =
      elim (Bool-cases (all (λ e. is_number p e.1) after)) [
        | inr nan ↦ fused_nan after e nan
        | inl numbers ↦ absurd (
            true-ne (
              sym (is_total_order-of_IsOrder after scored-IsOrder (All-numbers after numbers)) ∙ h))
      ]
