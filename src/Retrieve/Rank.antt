-- ===== src/Retrieve/Rank.antt =====
-- crates/l5m-core/src/retrieve.rs: scoring the candidates, ranking them, and the token budget.
pub mod Sources
pub mod Budget
pub mod Ordered
pub mod Numbers
use l5m.Prelude.{
  ℕ, ◌+◌, ◌-◌, max, compare, Ordering, Bool, true, false, ◌||◌, none, some, List, [], ◌∷◌, ◌++◌,
  map, leb, if◌then◌else◌, length, get_or, set, take, replicate, Bytes,
}
use l5m.Prelude.Int.{compare_ℤ}
use l5m.Prelude.Sort.{then_with, or_equal}
use l5m.Prelude.Text.{word_count}
use l5m.Platform.{Platform, position, scored_capsule}
use l5m.Outcome.{Outcome, ok, ◌>>=◌}
use l5m.Sorting.{is_total_order, std_sort_by}
use l5m.Capsule.{MemoryCapsule, RelationEdge}
use l5m.Frame.{MemoryProbe, FrameCapsule}
use l5m.Segment.Query.{Segment, capsule}
use l5m.Scoring.{score_capsule, overlap_count, cosine_similarity}

-- `text.split_whitespace().count().max(1)`.
unfoldable pub approximate_tokens : Bytes → ℕ
approximate_tokens text = max (word_count text) 1

unfoldable pub frame_capsule :
    {F : Type 0} → MemoryCapsule F → F → List RelationEdge → FrameCapsule F
frame_capsule c score relation_notes = record {
  capsule_id = c.capsule_id;
  claim = c.claim;
  evidence = c.evidence;
  trust_level = c.trust_level;
  valid_from = c.valid_from;
  valid_until = c.valid_until;
  source_id = c.source_id;
  source_hash = c.source_hash;
  relation_notes = relation_notes;
  score = score;
}

-- `.enumerate()`.
abbrev pub enumerate {ℓ} : {A : Type ℓ} → ℕ → List A → List (ℕ × A)
enumerate i [] = []
enumerate i (x ∷ xs) = (i, x) ∷ enumerate (i + 1) xs

module _ (p : Platform) where
  open p use {F32, F64, decimal, of_nat, add, mul}

  -- `right.partial_cmp(left).unwrap_or(Ordering::Equal)`.
  pub descending : F32 → F32 → Ordering
  descending left right = or_equal (p.compare right left)

  -- Scores of the capsules at the ordinals; an ordinal past the end is skipped.
  pub score_all : Segment F32 → MemoryProbe F32 → List ℕ → List (MemoryCapsule F32 × F32)
  score_all s probe [] = []
  score_all s probe (ordinal ∷ rest) = elim (capsule s ordinal) [
    | none ↦ score_all s probe rest
    | some c ↦
        (
          c,
          add (score_capsule p s c probe)
              (mul (of_nat (overlap_count c.entities probe.entities)) (decimal 2 0)),
        )
        ∷ score_all s probe rest
  ]

  compare_positions : ℕ × F32 → ℕ × F32 → Ordering
  unfolding descending
  compare_positions a b = then_with (descending a.1 b.1) (compare a.0 b.0)

  -- The comparison of the positions by these scores is a total order.
  unfoldable pub are_comparable : List F32 → Bool
  unfolding is_total_order compare_positions
  are_comparable scores = is_total_order compare_positions (enumerate 0 scores)

  -- The positions of the scores, best first, ties by position.
  order_of : List F32 → Outcome (List ℕ)
  unfolding std_sort_by compare_positions
  order_of scores = do
    ranked ← std_sort_by compare_positions (p.unordered position) (enumerate 0 scores)
    ok (map (λ e. e.0) ranked)

  -- `fused[index] += 1.0 / (k + rank as f64 + 1.0)` for each position and its rank.
  add_ranks : F64 → List (ℕ × ℕ) → List F64 → List F64
  add_ranks k [] fused = fused
  add_ranks k ((rank, index) ∷ rest) fused = add_ranks k rest (
      set fused index (
        p.add64 (get_or fused index (p.of_nat64 0))
          (p.div64 (p.of_nat64 1) (p.add64 (p.add64 k (p.of_nat64 rank)) (p.of_nat64 1)))))

  -- `entry.1 = fused[index] as f32`.
  with_scores : ℕ → List F64 → List (MemoryCapsule F32 × F32) → List (MemoryCapsule F32 × F32)
  with_scores i fused [] = []
  with_scores i fused ((c, score) ∷ rest) =
      (c, p.narrow (get_or fused i (p.of_nat64 0))) ∷ with_scores (i + 1) fused rest

  unfoldable pub dense_scores : MemoryProbe F32 → List (MemoryCapsule F32 × F32) → List F32
  dense_scores probe = map (λ e. cosine_similarity p probe.embedding e.0.embedding)

  -- Reciprocal-rank fusion of the lexical and the dense order.
  fuse :
      F64
      → MemoryProbe F32
      → List (MemoryCapsule F32 × F32)
      → Outcome (List (MemoryCapsule F32 × F32))
  unfolding order_of add_ranks with_scores dense_scores
  fuse k probe scored = do
    lexical_order ← order_of (map (λ e. e.1) scored)
    dense_order ← order_of (dense_scores probe scored)
    let fused =
        add_ranks k (enumerate 0 dense_order)
          (add_ranks k (enumerate 0 lexical_order) (replicate (length scored) (p.of_nat64 0)))
    ok (with_scores 0 fused scored)

  -- Fusion happens only where the probe carries an embedding.
  pub fuse_if_dense :
      F64
      → MemoryProbe F32
      → List (MemoryCapsule F32 × F32)
      → Outcome (List (MemoryCapsule F32 × F32))
  unfolding fuse
  fuse_if_dense k probe scored = elim probe.embedding [
    | [] ↦ ok scored
    | x ∷ xs ↦ fuse k probe scored
  ]

  pub compare_scored : MemoryCapsule F32 × F32 → MemoryCapsule F32 × F32 → Ordering
  unfolding descending
  compare_scored (left, left_score) (right, right_score) =
      then_with (descending left_score right_score) (
        then_with (compare right.trust_level left.trust_level)
          (compare_ℤ right.last_verified_at left.last_verified_at))

  -- The tokens of a capsule.
  pub tokens_of : MemoryCapsule F32 → ℕ
  unfolding approximate_tokens
  tokens_of c = approximate_tokens c.claim + approximate_tokens c.evidence

  -- The loop that spends the token budget. The first capsule is taken whatever it costs.
  pub spend : ℕ → List (MemoryCapsule F32 × F32) → List (FrameCapsule F32) → List (FrameCapsule F32)
  unfolding tokens_of
  spend budget [] taken = taken
  spend budget ((c, score) ∷ rest) taken =
      let first : Bool = elim taken [ [] ↦ true | x ∷ xs ↦ false ] in
      let fits = first || leb (tokens_of c) budget in
      spend (if fits then budget - tokens_of c else budget) rest
        (if fits then taken ++ frame_capsule c score [] ∷ [] else taken)

  -- From the ordinals to the capsules of the frame.
  pub ranked_capsules :
      F64 → Segment F32 → MemoryProbe F32 → List ℕ → Outcome (List (FrameCapsule F32))
  unfolding std_sort_by score_all fuse_if_dense compare_scored spend
  ranked_capsules k s probe ordinals = do
    scored ← fuse_if_dense k probe (score_all s probe ordinals)
    ranked ← std_sort_by compare_scored (p.unordered scored_capsule) scored
    ok (spend probe.max_tokens (take probe.max_capsules ranked) [])
