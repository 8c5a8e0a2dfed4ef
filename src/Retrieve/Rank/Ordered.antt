-- ===== src/Retrieve/Rank/Ordered.antt =====
-- crates/l5m-core/src/retrieve.rs: the sorts by scores, and where they can panic.
use l5m.Prelude.{ℕ, ◌≡◌, false, take, List, [], ◌∷◌, map, All}
use l5m.Platform.{Platform, position, scored_capsule}
use l5m.Outcome.{ok, ReturnsOrPanics, ReturnsOrPanics-ok, ReturnsOrPanics-bind, ReturnsOrPanics-imp}
use l5m.Sorting.{is_total_order, All-std_sort_by}
use l5m.Capsule.{MemoryCapsule}
use l5m.Frame.{MemoryProbe, FrameCapsule}
use l5m.Segment.Query.{Segment}
use l5m.Retrieve.Rank.{
  enumerate, compare_positions, are_comparable, order_of, with_scores, dense_scores, fuse,
  fuse_if_dense, compare_scored, spend, score_all, ranked_capsules,
}

-- The scores that one of the three sorts of these capsules goes by do not compare in a total order,
-- as where one is NaN and others are not.
pub data IsUnordered (p : Platform) (probe : MemoryProbe p.F32) (k : p.F64)
    (scored : List (MemoryCapsule p.F32 × p.F32)) : Type 0 where
  by_lexical : are_comparable p (map (λ e. e.1) scored) ≡ false → IsUnordered p probe k scored
  by_dense : are_comparable p (dense_scores p probe scored) ≡ false → IsUnordered p probe k scored
  by_fused :
      (after : List (MemoryCapsule p.F32 × p.F32))
      → fuse_if_dense p k probe scored ≡ ok after
      → is_total_order (compare_scored p) after ≡ false
      → IsUnordered p probe k scored

module _ (p : Platform) where
  open p use {F32, F64}

  order_of-ReturnsOrPanics :
      (scores : List F32)
      → ReturnsOrPanics (order_of p scores) (λ _. Unit {0}) (are_comparable p scores ≡ false)
  unfolding order_of are_comparable
  order_of-ReturnsOrPanics scores =
      ReturnsOrPanics-bind _ _
        (All-std_sort_by (λ _. Unit) (compare_positions p) (p.unordered position) _
          (All-unit (enumerate 0 scores)))
        (λ ranked e h. ReturnsOrPanics-ok _ tt)
    where
      All-unit : (xs : List (ℕ × F32)) → All (λ _. Unit {0}) xs
      All-unit [] = tt
      All-unit (x ∷ xs) = (tt, All-unit xs)

  module _ (P : MemoryCapsule F32 → Type 0) where
    All-with_scores :
        (xs : List (MemoryCapsule F32 × F32)) (i : ℕ) (fused : List F64)
        → All (λ e. P e.0) xs
        → All (λ e. P e.0) (with_scores p i fused xs)
    unfolding with_scores
    All-with_scores [] i fused h = tt
    All-with_scores ((c, score) ∷ xs) i fused h = (h.0, All-with_scores xs _ fused h.1)

    -- Fusion keeps the capsules; it panics only where scores are unordered.
    fuse_if_dense-All :
        (k : F64) (probe : MemoryProbe F32) (xs : List (MemoryCapsule F32 × F32))
        → All (λ e. P e.0) xs
        → ReturnsOrPanics (fuse_if_dense p k probe xs) (All (λ e. P e.0)) (IsUnordered p probe k xs)
    unfolding fuse_if_dense fuse
    fuse_if_dense-All k probe xs h = by_embedding probe.embedding
      where
        by_embedding :
            (embedding : List F32)
            → ReturnsOrPanics
                (elim embedding [ [] ↦ ok xs | y ∷ ys ↦ fuse p k probe xs ])
                (All (λ e. P e.0))
                (IsUnordered p probe k xs)
        by_embedding [] = ReturnsOrPanics-ok xs h
        by_embedding (y ∷ ys) =
            ReturnsOrPanics-bind _ _
              (ReturnsOrPanics-imp (order_of-ReturnsOrPanics _) (λ is u. u) by_lexical)
              (λ lexical_order e u.
                ReturnsOrPanics-bind _ _
                  (ReturnsOrPanics-imp (order_of-ReturnsOrPanics _) (λ is u. u) by_dense)
                  (λ dense_order e' u'. ReturnsOrPanics-ok _ (All-with_scores xs 0 _ h)))

    -- What holds of the capsules that are scored and lets the budget keep a property of the entries
    -- gives that property of the result.
    pub ranked_capsules-ReturnsOrPanics :
        (R : List (FrameCapsule F32) → Type 0) (k : F64) (s : Segment F32) (probe : MemoryProbe F32)
        (ordinals : List ℕ)
        → All (λ e. P e.0) (score_all p s probe ordinals)
        → ((ranked : List (MemoryCapsule F32 × F32))
            → All (λ e. P e.0) ranked
            → R (spend p probe.max_tokens (take probe.max_capsules ranked) []))
        → ReturnsOrPanics
            (ranked_capsules p k s probe ordinals)
            R
            (IsUnordered p probe k (score_all p s probe ordinals))
    unfolding ranked_capsules
    ranked_capsules-ReturnsOrPanics R k s probe ordinals h spends =
        ReturnsOrPanics-bind _ _ (fuse_if_dense-All k probe (score_all p s probe ordinals) h)
          (λ after e h'.
            ReturnsOrPanics-bind _ _
              (ReturnsOrPanics-imp
                (All-std_sort_by (λ e. P e.0) (compare_scored p) (p.unordered scored_capsule) after
                  h')
                (λ ranked hs. hs) (by_fused after e))
              (λ ranked e' hs. ReturnsOrPanics-ok _ (spends ranked hs)))
