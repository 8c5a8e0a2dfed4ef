-- ===== src/Retrieve/Candidates.antt =====
-- crates/l5m-core/src/retrieve.rs: narrowing the gated candidates to those that are scored.
pub mod Total
pub mod Gated
pub mod Scored
use l5m.Prelude.{
  ℕ, ◌+◌, compare, Ordering, Bool, true, false, none, some, List, [], ◌∷◌, ◌++◌, map, leb, ltb,
  if◌then◌else◌, take, Bytes,
}
use l5m.Prelude.Map
use l5m.Prelude.Map.{Map}
use l5m.Prelude.Sort.{sort_by, then_with}
use l5m.Platform.{Platform}
use l5m.Outcome.{Outcome, ok, ◌>>=◌, or_panic, nth, for_each}
use l5m.Frame.{MemoryProbe}
use l5m.Segment.Query.{Segment, capsule_count}
use l5m.Index.Build.{stable_hash64, semantic_bucket}
use l5m.Index.Lsh.{semantic_candidates, embedding_candidates}
use l5m.Scoring.{hamming_distance}
use l5m.BitSet
use l5m.BitSet.{BitSet}
use l5m.Retrieve.Gates.{set_if}

pub record RetrievalConfig (D : Type 0) : Type 0 where
  pub semantic_hamming_threshold : ℕ
  pub max_scored_candidates : ℕ
  pub ann_candidate_threshold : ℕ
  pub embed_rrf_k : D

-- `RetrievalConfig::default()`.
pub default_config : (p : Platform) → RetrievalConfig p.F64
default_config p = record {
  semantic_hamming_threshold = 180;
  max_scored_candidates = 2048;
  ann_candidate_threshold = 4096;
  embed_rrf_k = p.of_nat64 60;
}

-- `candidates.get(ordinal)`.
pub get_bit : BitSet → ℕ → Outcome Bool
get_bit b ordinal = or_panic (BitSet.get b ordinal)

-- One candidate of an entity: it is looked up, and some entity matched.
pub match_entity : BitSet → ℕ → BitSet × Bool → Outcome (BitSet × Bool)
unfolding get_bit
match_entity candidates ordinal (lookup, matched) = do
  hit ← get_bit candidates ordinal
  lookup' ← set_if hit lookup ordinal
  ok (lookup', (if hit then true else matched))

-- One candidate of an anchor.
pub match_anchor : BitSet → ℕ → BitSet × ℕ → Outcome (BitSet × ℕ)
unfolding get_bit
match_anchor candidates ordinal (lookup, count) = do
  hit ← get_bit candidates ordinal
  lookup' ← set_if hit lookup ordinal
  ok (lookup', (if hit then count + 1 else count))

-- `if candidates.get(ordinal) { semantic.set(ordinal); }`.
pub match_bucket : BitSet → ℕ → BitSet → Outcome BitSet
unfolding get_bit
match_bucket candidates ordinal semantic = do
  hit ← get_bit candidates ordinal
  set_if hit semantic ordinal

-- The distance of a candidate, and whether it is near enough.
pub measure :
    List ℕ → List (List ℕ) → ℕ → ℕ → List (ℕ × ℕ) × BitSet → Outcome (List (ℕ × ℕ) × BitSet)
measure bits fingerprints threshold ordinal (distances, semantic) = do
  fingerprint ← nth fingerprints ordinal
  let distance = hamming_distance bits fingerprint
  semantic' ← set_if (leb distance threshold) semantic ordinal
  ok (distances ++ (ordinal, distance) ∷ [], semantic')

-- `.filter(|(ordinal, _)| candidates.get(*ordinal))`.
pub keep_candidate : BitSet → ℕ × ℕ → List (ℕ × ℕ) → Outcome (List (ℕ × ℕ))
unfolding get_bit
keep_candidate candidates (ordinal, distance) kept = do
  hit ← get_bit candidates ordinal
  ok (if hit then kept ++ (ordinal, distance) ∷ [] else kept)

-- The sort key `(!lookup.get(ordinal), distance, ordinal)`, as a number for the test.
pub record Ranked : Type 0 where
  pub tier : ℕ
  pub distance : ℕ
  pub ordinal : ℕ

abbrev pub compare_ranked : Ranked → Ranked → Ordering
compare_ranked a b =
    then_with (compare a.tier b.tier)
      (then_with (compare a.distance b.distance) (compare a.ordinal b.ordinal))

pub rank_survivor : BitSet → ℕ × ℕ → List Ranked → Outcome (List Ranked)
unfolding get_bit
rank_survivor lookup (ordinal, distance) ranked = do
  hit ← get_bit lookup ordinal
  let tier : ℕ = if hit then 0 else 1
  ok (ranked ++ record { tier = tier; distance = distance; ordinal = ordinal } ∷ [])

-- `sort_by_key`, `truncate`, and the ordinals in ascending order.
pub nearest : ℕ → List Ranked → List ℕ
unfolding sort_by
nearest limit ranked =
    sort_by compare (map (λ r. r.ordinal) (take limit (sort_by compare_ranked ranked)))

-- The cap on the candidates that are scored.
pub cap_candidates : ℕ → BitSet → BitSet → List (ℕ × ℕ) → Outcome (List ℕ)
unfolding keep_candidate rank_survivor nearest for_each
cap_candidates limit candidates lookup distances =
    let capped = do
      survivors ← for_each (keep_candidate candidates) distances []
      ranked ← for_each (rank_survivor lookup) survivors []
      ok (nearest limit ranked)
    in if ltb limit (BitSet.count_ones candidates) then capped else ok (BitSet.iter_ones candidates)

-- `if narrowed.count_ones() > 0 { candidates.and_assign(&narrowed); }`.
pub narrow_candidates : BitSet → BitSet → Outcome BitSet
narrow_candidates candidates narrowed =
    if ltb 0 (BitSet.count_ones narrowed)
    then or_panic (BitSet.and_assign candidates narrowed)
    else ok candidates

module _ {F : Type 0} where
  pub exact_scored_ordinals :
      {D : Type 0}
      → Segment F
      → MemoryProbe F
      → BitSet
      → BitSet
      → RetrievalConfig D
      → Outcome (List ℕ)
  unfolding match_bucket measure narrow_candidates cap_candidates for_each
  exact_scored_ordinals s probe candidates lookup config = do
    let bucket =
        Map.or_empty (Map.get (semantic_bucket probe.semantic_bits) s.index.semantic_buckets)
    in_bucket ← for_each (match_bucket candidates) bucket (BitSet.new (capsule_count s))
    (distances, semantic) ←
        for_each
          (measure probe.semantic_bits s.index.fingerprints config.semantic_hamming_threshold)
          (BitSet.iter_ones candidates) ([], in_bucket)
    narrowed ← or_panic (BitSet.or_assign lookup semantic)
    candidates' ← narrow_candidates candidates narrowed
    cap_candidates config.max_scored_candidates candidates' lookup distances

-- One visited ordinal of the pool of `ann_candidate_pool`.
pub pool_add :
    List ℕ → List (List ℕ) → BitSet → ℕ → ℕ → BitSet × List Ranked → Outcome (BitSet × List Ranked)
unfolding get_bit
pool_add bits fingerprints candidates tier ordinal (seen, pool) = do
  hit ← get_bit candidates ordinal
  old ← if hit then get_bit seen ordinal else ok true
  let new = do
    seen' ← or_panic (BitSet.set seen ordinal)
    fingerprint ← nth fingerprints ordinal
    let distance = hamming_distance bits fingerprint
    ok (seen', pool ++ record { tier = tier; distance = distance; ordinal = ordinal } ∷ [])
  if old then ok (seen, pool) else new

module _ (p : Platform) where
  open p use {F32, F64}

  -- The ordinals that the dense index proposes.
  pub dense_candidates : Segment F32 → MemoryProbe F32 → List ℕ
  dense_candidates s probe = elim probe.embedding [
    | [] ↦ []
    | x ∷ xs ↦ elim s.index.embedding_lsh [
      | none ↦ []
      | some lsh ↦ embedding_candidates p lsh probe.embedding
    ]
  ]

  pub ann_candidate_pool :
      Segment F32 → MemoryProbe F32 → BitSet → BitSet → RetrievalConfig F64 → Outcome (List ℕ)
  unfolding dense_candidates pool_add nearest for_each
  ann_candidate_pool s probe candidates lookup config = do
    let add = pool_add probe.semantic_bits s.index.fingerprints candidates
    dense ← for_each (add 0) (dense_candidates s probe) (BitSet.new (capsule_count s), [])
    exact ← for_each (add 1) (BitSet.iter_ones lookup) dense
    filled ← for_each (add 2) (semantic_candidates s.index.lsh probe.semantic_bits) exact
    ok (nearest config.max_scored_candidates filled.1)

  -- The ordinals of the matching postings of each term.
  pub postings : Map (List ℕ) → List Bytes → List ℕ
  postings m [] = []
  postings m (term ∷ terms) = Map.or_empty (Map.get (stable_hash64 p term) m) ++ postings m terms

  pub record Lookup : Type 0 where
    pub lookup : BitSet
    pub exact_entity_match : Bool
    pub anchor_match_count : ℕ

  pub lookup_scan : Segment F32 → MemoryProbe F32 → BitSet → Outcome Lookup
  unfolding postings match_entity match_anchor for_each
  lookup_scan s probe candidates = do
    let none_yet = BitSet.new (capsule_count s)
    (found, matched) ←
        for_each (match_entity candidates) (postings s.index.entities probe.entities)
          (none_yet, false)
    (lookup, count) ←
        for_each (match_anchor candidates) (postings s.index.anchors probe.anchors) (found, 0)
    ok (record { lookup = lookup; exact_entity_match = matched; anchor_match_count = count })

  -- Candidate generation: the hash indexes above the threshold, and the exact scan below it or
  -- when they find nothing.
  pub scored_ordinals :
      Segment F32 → MemoryProbe F32 → BitSet → BitSet → RetrievalConfig F64 → Outcome (List ℕ)
  scored_ordinals s probe candidates lookup config =
      let exact = exact_scored_ordinals s probe candidates lookup config in
      let approximate = do
        pool ← ann_candidate_pool s probe candidates lookup config
        elim pool [ [] ↦ exact | x ∷ xs ↦ ok (x ∷ xs) ]
      in if ltb config.ann_candidate_threshold (BitSet.count_ones candidates)
        then approximate
        else exact
