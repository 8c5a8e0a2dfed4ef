-- ===== src/Scoring.antt =====
-- crates/l5m-core/src/scoring.rs: how relevant a capsule is to a probe.
use l5m.Prelude.{
  ℕ, ◌+◌, ◌==◌, bit_xor, Ordering, Bool, true, false, ◌||◌, none, some, List, [], ◌∷◌,
  if◌then◌else◌, length, filter, any, Bytes, bytes_eq,
}
use l5m.Prelude.Int.{ℤ, pos, negsuc, ◌+ℤ◌, ◌*ℤ◌, wrapping_sub}
use l5m.Prelude.Bits.{count_ones}
use l5m.Platform.{Platform}
use l5m.Capsule.{MemoryCapsule, is_supports}
use l5m.Frame.{MemoryProbe}
use l5m.Segment.Query.{Segment, relations_from}

unfoldable pub hamming_distance : List ℕ → List ℕ → ℕ
hamming_distance [] bs = 0
hamming_distance (a ∷ as') [] = 0
hamming_distance (a ∷ as') (b ∷ bs) = count_ones 64 (bit_xor a b) + hamming_distance as' bs

-- An i32 sum of 64 products of i8 values, which cannot overflow.
pub residual_dot : List ℤ → List ℤ → ℤ
residual_dot [] bs = pos 0
residual_dot (a ∷ as') [] = pos 0
residual_dot (a ∷ as') (b ∷ bs) = a *ℤ b +ℤ residual_dot as' bs

unfoldable pub overlap_count : List Bytes → List Bytes → ℕ
overlap_count left right =
    length (filter (λ value. any (λ candidate. bytes_eq candidate value) right) left)

-- `(probe.as_of - capsule.last_verified_at).max(0)`.
pub age : ℤ → ℤ → ℤ
age as_of verified = elim (wrapping_sub as_of verified) [ pos n ↦ pos n | negsuc n ↦ pos 0 ]

module _ (p : Platform) where
  open p use {F32, decimal, of_nat, of_int, add, sub, mul, div, sqrt}

  -- The three sums of the loop of `cosine_similarity`: dot product and squared norms.
  cosine_sums : List F32 → List F32 → F32 × F32 × F32 → F32 × F32 × F32
  cosine_sums [] bs acc = acc
  cosine_sums (a ∷ as') [] acc = acc
  cosine_sums (a ∷ as') (b ∷ bs) (dot, left_norm, right_norm) =
      cosine_sums as' bs (add dot (mul a b), add left_norm (mul a a), add right_norm (mul b b))

  -- `x == 0.0`.
  equals_zero : F32 → Bool
  equals_zero x = elim (p.compare x (decimal 0 0)) [
    | none ↦ false
    | some o ↦ elim o [ Ordering.eq ↦ true | _ ↦ false ]
  ]

  unfoldable pub cosine_similarity : List F32 → List F32 → F32
  unfolding cosine_sums equals_zero
  cosine_similarity [] right = decimal 0 0
  cosine_similarity (l ∷ left) right =
      if length (l ∷ left) == length right
      then (let (dot, left_norm, right_norm) =
            cosine_sums (l ∷ left) right (decimal 0 0, decimal 0 0, decimal 0 0) in
          if equals_zero left_norm || equals_zero right_norm
          then decimal 0 0
          else div dot (mul (sqrt left_norm) (sqrt right_norm)))
      else decimal 0 0

  unfoldable pub score_capsule : Segment F32 → MemoryCapsule F32 → MemoryProbe F32 → F32
  unfolding residual_dot age
  score_capsule segment capsule probe =
      let entity_overlap = of_nat (overlap_count capsule.entities probe.entities) in
      let anchor_overlap = of_nat (overlap_count capsule.anchors probe.anchors) in
      let hamming = hamming_distance probe.semantic_bits capsule.semantic_bits in
      let hamming_score = sub (decimal 1 0) (div (of_nat hamming) (decimal 256 0)) in
      let dot = div (of_int (residual_dot probe.residual capsule.residual)) (decimal 128 0) in
      let context_specificity =
        div (of_nat (count_ones 128 capsule.context_mask)) (decimal 128 0) in
      let trust = div (of_nat capsule.trust_level) (decimal 10 0) in
      let age_days = div (of_int (age probe.as_of capsule.last_verified_at)) (decimal 86400 0) in
      let freshness = div (decimal 1 0) (add (decimal 1 0) (div age_days (decimal 365 0))) in
      let edges = relations_from segment capsule.capsule_id in
      let support =
        mul (of_nat (length (filter (λ edge. is_supports edge.kind) edges))) (decimal 5 2) in
      let poison_penalty = mul (of_nat capsule.poison_risk) (decimal 5 1) in
      sub
        (add
          (add
            (add
              (add
                (add
                  (add (add (mul entity_overlap (decimal 4 0)) (mul anchor_overlap (decimal 12 1)))
                    (mul hamming_score (decimal 2 0)))
                  dot)
                context_specificity)
              trust)
            freshness)
          support)
        poison_penalty
