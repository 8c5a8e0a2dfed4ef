-- ===== src/Retrieve/Candidates/Scored.antt =====
-- crates/l5m-core/src/retrieve.rs: candidate generation on a built segment.
use l5m.Prelude.{
  ℕ, ◌<◌, ◌≡◌, refl, sym, ap, ◌∙◌, subst, inl, inr, none, some, List, [], ◌∷◌, ◌++◌, ltb, Option,
  length, get_elem?-some, length-map, All, All-append, All-imp, Bool-cases, Bytes, arith,
}
use l5m.Prelude.Map.{Map}
use l5m.Platform.{Platform}
use l5m.Outcome.{ok, or_panic, for_each}
use l5m.Frame.{MemoryProbe}
use l5m.Scoring.{hamming_distance}
use l5m.Segment.Query.{Segment, capsule_count}
use l5m.Index.Below.{Below, MapBelow, get-Below}
use l5m.Index.Lsh.{EmbeddingLsh, semantic_candidates, embedding_candidates}
use l5m.Index.Lsh.Postings.{LshBelow, embedding_candidates-Below}
use l5m.Index.Build.{stable_hash64}
use l5m.Index.Build.Gates.{fingerprints-build}
use l5m.Index.Build.Postings.{IsInRange, build-IsInRange}
use l5m.BitSet
use l5m.BitSet.{BitSet}
use l5m.BitSet.View.{holds}
use l5m.BitSet.Ops.{set_lem}
use l5m.BitSet.Merge.{and_assign_lem, or_assign_lem}
use l5m.Retrieve.Gates.Spec.{IsBuilt}
use l5m.Retrieve.Candidates.{
  RetrievalConfig, Ranked, match_entity, match_anchor, match_bucket, measure, nearest,
  cap_candidates, narrow_candidates, exact_scored_ordinals, pool_add, dense_candidates,
  ann_candidate_pool, postings, lookup_scan, scored_ordinals,
}
use l5m.Retrieve.Candidates.Total.{
  Returns, and_then, for_each-Returns, IsSized, new-IsSized, get_bit_lem, match_entity-Returns,
  match_anchor-Returns, match_bucket-Returns,
}
use l5m.Retrieve.Candidates.Gated.{
  Gated, GatedFst, GatedRanked, Gated-lt, iter_ones-Gated, measure-Returns, nearest-Gated,
  cap_candidates-Returns,
}

-- The call returns a set of the size that holds gated ordinals only.
Narrowed : ℕ → BitSet → BitSet → Type 0
Narrowed n cand x = IsSized n x × ((i : ℕ) → Gated x i → Gated cand i)

narrow_candidates-Returns :
    (n : ℕ) (cand narrowed : BitSet)
    → IsSized n cand
    → IsSized n narrowed
    → Returns (narrow_candidates cand narrowed) (Narrowed n cand)
unfolding narrow_candidates Narrowed
narrow_candidates-Returns n cand narrowed c d =
    elim (Bool-cases (ltb 0 (BitSet.count_ones narrowed))) [
      | inr empty ↦ (cand, rw empty refl, (c, λ i g. g))
      | inl found ↦
          let (x, e, size, valid, meets) =
            and_assign_lem cand narrowed c.valid d.valid (c.size_eq ∙ sym d.size_eq) in
          (
            x,
            rw found (ap or_panic e),
            (
              record { size_eq = size ∙ c.size_eq; valid = valid },
              λ i g. ground (arith, g, meets i),
            ),
          )
    ]

-- A visited ordinal enters the pool once, if it is gated.
pool_add-Returns :
    (n : ℕ) (cand : BitSet) (bits : List ℕ) (fingerprints : List (List ℕ)) (tier i : ℕ)
    (s : BitSet × List Ranked)
    → IsSized n cand
    → length fingerprints ≡ n
    → i < n
    → IsSized n s.0 × GatedRanked cand s.1
    → Returns
        (pool_add bits fingerprints cand tier i s)
        (λ s'. IsSized n s'.0 × GatedRanked cand s'.1)
unfolding pool_add
pool_add-Returns n cand bits fingerprints tier i (seen, pool) c len lt (sized, h) =
    elim (Bool-cases (holds cand i)) [
      | inr miss ↦ ((seen, pool), rw (get_bit_lem n cand i lt c, miss) refl, (sized, h))
      | inl hit ↦ elim (Bool-cases (holds seen i)) [
        | inl old ↦ (
          (seen, pool),
          rw (get_bit_lem n cand i lt c, hit, get_bit_lem n seen i lt sized, old) refl,
          (sized, h),
        )
        | inr new ↦
            let (seen', e, size, valid', adds) =
              set_lem seen i sized.valid (omega (arith, lt, sized.size_eq)) in
            let (f, row) = get_elem?-some fingerprints i (omega (arith, lt, len)) in
            let d = hamming_distance bits f in
            let entry : Ranked = record { tier = tier; distance = d; ordinal = i } in
            (
              (seen', pool ++ entry ∷ []),
              rw (get_bit_lem n cand i lt c, hit, get_bit_lem n seen i lt sized, new, e, row) refl,
              (
                record { size_eq = size ∙ sized.size_eq; valid = valid' },
                All-append (λ r. Gated cand r.ordinal) pool (entry ∷ []) h (hit, tt),
              ),
            )
      ]
    ]

module _ (p : Platform) (s : Segment p.F32) (probe : MemoryProbe p.F32) (v : IsBuilt p s) where
  open p use {F32, F64}

  abbrev n : ℕ
  n = length s.capsules

  in_range : IsInRange p n s.index
  in_range = subst (IsInRange p n) (sym v.built) (build-IsInRange p s.capsules)

  rows : length s.index.fingerprints ≡ n
  rows =
      ap (λ ix. length ix.fingerprints) v.built
      ∙ ap length (fingerprints-build p s.capsules)
      ∙ length-map s.capsules (λ c. c.semantic_bits)

  postings-Below :
      (m : Map (List ℕ)) (terms : List Bytes) → MapBelow n m → Below n (postings p m terms)
  unfolding postings
  postings-Below m [] h = tt
  postings-Below m (t ∷ ts) h =
      All-append (λ o. o < n) _ _ (get-Below n (stable_hash64 p t) m h) (postings-Below m ts h)

  dense_candidates-Below : Below n (dense_candidates p s probe)
  unfolding dense_candidates
  dense_candidates-Below =
      by_embedding probe.embedding (by_index s.index.embedding_lsh in_range.embedding_in_range)
    where
      by_index :
          (o : Option (EmbeddingLsh F32))
          → LshBelow n p o
          → Below n (elim o [ none ↦ [] | some lsh ↦ embedding_candidates p lsh probe.embedding ])
      by_index none h = tt
      by_index (some lsh) h = embedding_candidates-Below n p probe.embedding lsh h

      by_embedding :
          (xs : List F32)
          → Below n (elim s.index.embedding_lsh [
            | none ↦ []
            | some lsh ↦ embedding_candidates p lsh probe.embedding
          ])
          → Below n (elim xs [
            | [] ↦ []
            | y ∷ ys ↦ elim s.index.embedding_lsh [
              | none ↦ []
              | some lsh ↦ embedding_candidates p lsh probe.embedding
            ]
          ])
      by_embedding [] h = tt
      by_embedding (y ∷ ys) h = h

  module _ (cand : BitSet) (c : IsSized n cand) where
    -- The lookup by entities and anchors returns a set of the size.
    pub lookup_scan-Returns : Returns (lookup_scan p s probe cand) (λ l. IsSized n l.lookup)
    unfolding lookup_scan capsule_count
    lookup_scan-Returns =
        and_then _ _ (λ st. IsSized n st.0) (λ l. IsSized n l.lookup)
          (for_each-Returns (match_entity cand) (λ o. o < n) (λ st. IsSized n st.0)
            (match_entity-Returns n cand c) _ _
            (postings-Below _ probe.entities in_range.entities_in_range) (new-IsSized n))
          (λ st h.
            and_then _ _ (λ st'. IsSized n st'.0) (λ l. IsSized n l.lookup)
              (for_each-Returns (match_anchor cand) (λ o. o < n) (λ st'. IsSized n st'.0)
                (match_anchor-Returns n cand c) _ _
                (postings-Below _ probe.anchors in_range.anchors_in_range) h)
              (λ st' h'. (
                record { lookup = st'.0; exact_entity_match = st.1; anchor_match_count = st'.1 },
                refl,
                h',
              )))

    module _ (lookup : BitSet) (l : IsSized n lookup) (config : RetrievalConfig F64) where
      exact-Returns : Returns (exact_scored_ordinals s probe cand lookup config) (All (Gated cand))
      unfolding exact_scored_ordinals capsule_count Narrowed
      exact-Returns =
          and_then _ _ (IsSized n) (All (Gated cand))
            (for_each-Returns (match_bucket cand) (λ o. o < n) (IsSized n)
              (match_bucket-Returns n cand c) _ _ (get-Below n _ _ in_range.buckets_in_range)
              (new-IsSized n))
            (λ b h.
              and_then _ _ (λ st. GatedFst cand st.0 × IsSized n st.1) (All (Gated cand))
                (for_each-Returns
                  (measure probe.semantic_bits s.index.fingerprints
                    config.semantic_hamming_threshold)
                  (Gated cand) (λ st. GatedFst cand st.0 × IsSized n st.1)
                  (λ i st.
                    measure-Returns n cand c probe.semantic_bits s.index.fingerprints
                      config.semantic_hamming_threshold i st rows)
                  _ _ (iter_ones-Gated cand c.valid) (tt, h))
                (λ st h'. and_then _ _ (IsSized n) (All (Gated cand)) (joined st.1 h'.1) (λ x x_ok.
                  and_then _ _ (Narrowed n cand) (All (Gated cand))
                    (narrow_candidates-Returns n cand x c x_ok) (λ y y_ok. kept st.0 y h'.0 y_ok))))
        where
          joined :
              (x : BitSet)
              → IsSized n x
              → Returns (or_panic (BitSet.or_assign lookup x)) (IsSized n)
          joined x h =
              let (y, e, size, valid, joins) =
                or_assign_lem lookup x l.valid h.valid (l.size_eq ∙ sym h.size_eq) in
              (y, ap or_panic e, record { size_eq = size ∙ l.size_eq; valid = valid })

          kept :
              (distances : List (ℕ × ℕ)) (y : BitSet)
              → GatedFst cand distances
              → IsSized n y × ((i : ℕ) → Gated y i → Gated cand i)
              → Returns
                  (cap_candidates config.max_scored_candidates y lookup distances)
                  (All (Gated cand))
          kept distances y h (sized, narrower) =
              let (ordinals, e, gated) =
                cap_candidates-Returns n y sized config.max_scored_candidates lookup distances l (
                  All-imp (λ e. Gated cand e.0) (λ e. e.0 < n) distances
                    (λ e. Gated-lt n cand e.0 c) h) in
              (ordinals, e, All-imp (Gated y) (Gated cand) ordinals narrower gated)

      Pooled : BitSet × List Ranked → Type 0
      Pooled st = IsSized n st.0 × GatedRanked cand st.1

      pool-Returns :
          (tier : ℕ) (xs : List ℕ) (st : BitSet × List Ranked)
          → Below n xs
          → Pooled st
          → Returns
              (for_each (pool_add probe.semantic_bits s.index.fingerprints cand tier) xs st)
              Pooled
      unfolding Pooled
      pool-Returns tier =
          for_each-Returns (pool_add probe.semantic_bits s.index.fingerprints cand tier)
            (λ o. o < n) (λ st. IsSized n st.0 × GatedRanked cand st.1)
            (λ i st lt h.
              pool_add-Returns n cand probe.semantic_bits s.index.fingerprints tier i st c rows lt
                h)

      ann-Returns : Returns (ann_candidate_pool p s probe cand lookup config) (All (Gated cand))
      unfolding ann_candidate_pool capsule_count Pooled
      ann-Returns =
          and_then _ _ Pooled (All (Gated cand))
            (pool-Returns 0 (dense_candidates p s probe) _ dense_candidates-Below
              (new-IsSized n, tt))
            (λ a h.
              and_then _ _ Pooled (All (Gated cand))
                (pool-Returns 1 (BitSet.iter_ones lookup) a
                  (All-imp (Gated lookup) (λ o. o < n) _ (λ o. Gated-lt n lookup o l)
                    (iter_ones-Gated lookup l.valid))
                  h)
                (λ b h'.
                  and_then _ _ Pooled (All (Gated cand))
                    (pool-Returns 2 (semantic_candidates s.index.lsh probe.semantic_bits) b
                      (in_range.lsh_in_range probe.semantic_bits) h')
                    (λ f h''. (
                      nearest config.max_scored_candidates f.1,
                      refl,
                      nearest-Gated n cand c config.max_scored_candidates f.1 h''.1,
                    ))))

      -- On a built segment, with sets of its size, candidate generation returns a list under any
      -- configuration, and all its ordinals are among the candidates.
      pub scored_ordinals-Returns :
          Returns (scored_ordinals p s probe cand lookup config) (All (Gated cand))
      unfolding scored_ordinals
      scored_ordinals-Returns =
          elim (Bool-cases (ltb config.ann_candidate_threshold (BitSet.count_ones cand))) [
            | inr few ↦ rw few exact-Returns
            | inl many ↦
                rw many (and_then _ _ (All (Gated cand)) (All (Gated cand)) ann-Returns or_exact)
          ]
        where
          or_exact :
              (pool : List ℕ)
              → All (Gated cand) pool
              → Returns
                  (elim pool [
                    | [] ↦ exact_scored_ordinals s probe cand lookup config
                    | x ∷ xs ↦ ok (x ∷ xs)
                  ])
                  (All (Gated cand))
          or_exact [] h = exact-Returns
          or_exact (x ∷ xs) h = (x ∷ xs, refl, h)
