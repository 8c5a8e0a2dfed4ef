-- ===== src/Index/Build/Postings.antt =====
-- crates/l5m-core/src/index.rs: the range of the ordinals in the index.
use l5m.Prelude.{
  ℕ, ◌+◌, ◌≤◌, ◌<◌, ap, Bool, true, false, none, List, [], ◌∷◌, map, if◌then◌else◌, length,
  length-map, any, compare, All-map, Bytes, arith,
}
use l5m.Prelude.Map.{Map}
use l5m.Prelude.Sort.{All-sort_by}
use l5m.Platform.{Platform}
use l5m.Capsule.{MemoryCapsule}
use l5m.Index.Below.{Below, MapBelow, push-Below, dedup-Below}
use l5m.Index.Lsh.{semantic_candidates, build_embedding}
use l5m.Index.Lsh.Postings.{LshBelow, build_embedding-Below, semantic_candidates-Below}
use l5m.Index.Build.{
  SegmentIndex, add_terms, add_capsule, add_capsules, normalize, has_embedding, start, build,
}
use l5m.Index.Build.Gates.{fingerprints-build}

normalize-Below : (n : ℕ) (m : Map (List ℕ)) → MapBelow n m → MapBelow n (normalize m)
unfolding normalize
normalize-Below n m h =
    All-map (λ e. Below n e.1) (λ e. Below n e.1) _ m
      (λ e k. dedup-Below n _ (All-sort_by (λ o. o < n) compare e.1 k)) h

module _ (p : Platform) (n : ℕ) where
  open p use {F32}

  add_terms-Below :
      (ts : List Bytes) (o : ℕ) (m : Map (List ℕ))
      → o < n
      → MapBelow n m
      → MapBelow n (add_terms p o ts m)
  unfolding add_terms
  add_terms-Below [] o m lt h = h
  add_terms-Below (t ∷ ts) o m lt h = add_terms-Below ts o _ lt (push-Below n _ o m lt h)

  -- The three maps that candidates are looked up in.
  record LookupsBelow (index : SegmentIndex F32) : Type 0 where
    anchors_below : MapBelow n index.anchors
    entities_below : MapBelow n index.entities
    buckets_below : MapBelow n index.semantic_buckets

  add_capsules-Below :
      (cs : List (MemoryCapsule F32)) (o : ℕ) (index : SegmentIndex F32)
      → o + length cs ≤ n
      → LookupsBelow index
      → LookupsBelow (add_capsules p o cs index)
  unfolding add_capsules add_capsule
  add_capsules-Below [] o index le h = h
  add_capsules-Below (c ∷ cs) o index le h =
      let lt : o < n = omega (arith, le) in
      add_capsules-Below cs (o + 1) _ (omega (arith, le)) (record {
        anchors_below = add_terms-Below c.anchors o index.anchors lt h.anchors_below;
        entities_below = add_terms-Below c.entities o index.entities lt h.entities_below;
        buckets_below = push-Below n _ o index.semantic_buckets lt h.buckets_below;
      })

-- The ordinals that the index proposes are below the number of capsules.
pub record IsInRange (p : Platform) (n : ℕ) (index : SegmentIndex p.F32) : Type 0 where
  pub anchors_in_range : MapBelow n index.anchors
  pub entities_in_range : MapBelow n index.entities
  pub buckets_in_range : MapBelow n index.semantic_buckets
  pub lsh_in_range : (bits : List ℕ) → Below n (semantic_candidates index.lsh bits)
  pub embedding_in_range : LshBelow n p index.embedding_lsh

-- Every ordinal that a lookup by anchor, entity, semantic bucket or hash in the index of some
-- capsules returns is below their number.
pub build-IsInRange :
    (p : Platform) (cs : List (MemoryCapsule p.F32)) → IsInRange p (length cs) (build p cs)
unfolding build
build-IsInRange p cs =
    let below =
      add_capsules-Below p (length cs) cs 0 (start p cs) (omega arith)
        (record { anchors_below = tt; entities_below = tt; buckets_below = tt }) in
    record {
      anchors_in_range = normalize-Below (length cs) _ below.anchors_below;
      entities_in_range = normalize-Below (length cs) _ below.entities_below;
      buckets_in_range = normalize-Below (length cs) _ below.buckets_below;
      lsh_in_range = λ bits. semantic_candidates-Below (length cs) _ bits rows;
      embedding_in_range = dense (any (has_embedding p) cs);
    }
  where
    rows : length (build p cs).fingerprints ≤ length cs
    rows =
        let e = ap length (fingerprints-build p cs) in
        omega (arith, e, length-map cs (λ c. c.semantic_bits))

    dense :
        (b : Bool)
        → LshBelow (length cs) p (if b then build_embedding p (map (λ c. c.embedding) cs) else none)
    dense true =
        build_embedding-Below (length cs) p (map (λ c. c.embedding) cs)
          (omega (arith, length-map cs (λ c. c.embedding)))
    dense false = tt
