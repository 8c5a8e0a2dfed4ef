-- ===== src/Store/Modes.antt =====
-- crates/l5m-core/src/store.rs: the query modes besides L5m, and the query itself. A HashMap yields
-- its values in no order; here that order is a parameter, `arrange`.
pub mod Gated
use l5m.Prelude.{
  ℕ, ◌+◌, ◌-◌, ◌*◌, ◌^◌, min, max, bit_and, Ordering, Bool, true, false, not, ◌&&◌, Option, none,
  some, List, [], ◌∷◌, ◌++◌, Bytes, leb, ◌==◌, if◌then◌else◌, length, filter, take, map,
}
use l5m.Prelude.Int.{ℤ, leb_ℤ}
use l5m.Prelude.Map
use l5m.Prelude.Map.{Map}
use l5m.Prelude.Text.{contains}
use l5m.Platform.{Platform}
use l5m.Outcome.{Outcome, ok, ◌>>=◌}
use l5m.Capsule.{MemoryCapsule}
use l5m.Frame.{CoverageReport, FrameCapsule, MemoryFrame, MemoryProbe, no_coverage}
use l5m.Probe.{spaced, to_ascii_lowercase, build_probe}
use l5m.Scoring.{overlap_count, age, score_capsule}
use l5m.Segment.Query.{Segment}
use l5m.Retrieve.Gates.{meets, not_expired, count_gates}
use l5m.Retrieve.Rank.{frame_capsule}
use l5m.Store.{MemoryStore}
use l5m.Store.Compact.{live_segments}
use l5m.Store.Query.{sort_entries, retrieve_l5m, apply_tombstones_and_dedup}
use l5m.Ingest.{parse_u128}

pub data RetrievalMode : Type 0 where
  l5m_mode parent_aggregate_mode hybrid_bm25_l5m rrf_fusion_parent : RetrievalMode

pub record QueryRequest (F : Type 0) : Type 0 where
  pub query : Bytes
  pub tenant_id : ℕ
  pub as_of : ℤ
  pub context_mask : Bytes
  pub policy_mask : Bytes
  pub trust_floor : ℕ
  pub max_capsules : ℕ
  pub max_tokens : ℕ
  pub include_supporting : Bool
  pub include_contradictions : Bool
  pub max_hops : ℕ
  pub mode : RetrievalMode
  pub embedding : List F

-- What the loops of `aggregate_frame_capsules` keep of a source: its best capsule and their number.
pub record Group (F : Type 0) : Type 0 where
  pub best : FrameCapsule F
  pub count : ℕ

module _ {F : Type 0} where
  -- `hard_gates_pass`.
  unfoldable pub hard_gates_pass : MemoryCapsule F → MemoryProbe F → Bool
  hard_gates_pass c probe =
      c.tenant_id == probe.tenant_id
      && meets c.context_mask probe.context_mask
      && meets c.policy_mask probe.caller_policy_mask
      && leb probe.trust_floor c.trust_level
      && leb_ℤ c.valid_from probe.as_of
      && not_expired c.valid_until probe.as_of

  -- What one capsule adds to the coverage.
  unfoldable pub count_capsule : MemoryCapsule F → MemoryProbe F → CoverageReport → CoverageReport
  unfolding count_gates
  count_capsule c probe =
      count_gates (meets c.context_mask probe.context_mask)
        (leb_ℤ c.valid_from probe.as_of && not_expired c.valid_until probe.as_of)
        (leb probe.trust_floor c.trust_level)

-- The variables of the loops of `retrieve_fusion`.
pub record Fusion (F : Type 0) : Type 0 where
  pub scored : List (FrameCapsule F)
  pub coverage : CoverageReport
  pub epoch : ℕ

abbrev pub no_fusion : {F : Type 0} → Fusion F
no_fusion = record { scored = []; coverage = no_coverage; epoch = 0 }

module _ (platform : Platform) where
  open platform use {F32, decimal, of_nat, of_int, add, mul, div}

  -- `capsule.score > current.score`.
  unfoldable pub is_better : FrameCapsule F32 → FrameCapsule F32 → Bool
  is_better capsule current = elim (platform.compare capsule.score current.score) [
    | none ↦ false
    | some o ↦ elim o [ Ordering.gt ↦ true | _ ↦ false ]
  ]

  unfoldable pub join_group : FrameCapsule F32 → Option (Group F32) → Group F32
  unfolding is_better
  join_group capsule none = record { best = capsule; count = 1 }
  join_group capsule (some group) = record {
    best = if is_better capsule group.best then capsule else group.best;
    count = group.count + 1;
  }

  -- The loop over the capsules, with both maps in one.
  unfoldable pub group_by_source : List (FrameCapsule F32) → Map (Group F32) → Map (Group F32)
  unfolding join_group Map.get Map.insert
  group_by_source [] groups = groups
  group_by_source (capsule ∷ capsules) groups =
      group_by_source capsules (
        Map.insert capsule.source_id (join_group capsule (Map.get capsule.source_id groups)) groups)

  -- `capsule.score += support.saturating_sub(1) as f32 * 0.03`.
  unfoldable pub supported : Group F32 → FrameCapsule F32
  supported group = record group.best {
    score = add group.best.score (mul (of_nat (group.count - 1)) (decimal 3 2));
  }

  unfoldable pub lexical_score : MemoryCapsule F32 → MemoryProbe F32 → F32
  unfolding contains to_ascii_lowercase spaced
  lexical_score c probe =
      let text = to_ascii_lowercase (spaced c.claim c.evidence) in
      add (of_nat (length (filter (λ term. contains term text) probe.anchors)))
        (of_nat (overlap_count c.anchors probe.anchors))

  unfoldable pub exact_score : MemoryCapsule F32 → MemoryProbe F32 → F32
  exact_score c probe =
      of_nat (overlap_count c.entities probe.entities + overlap_count c.anchors probe.anchors)

  unfoldable pub temporal_score : MemoryCapsule F32 → MemoryProbe F32 → F32
  temporal_score c probe =
      div (decimal 1 0)
        (add (decimal 1 0) (div (of_int (age probe.as_of c.last_verified_at)) (decimal 86400 0)))

  unfoldable pub rrf_like_score : F32 → F32 → F32 → F32 → F32
  rrf_like_score lexical semantic exact temporal =
      add
        (add (add (mul lexical (decimal 8 1)) (mul semantic (decimal 10 1)))
          (mul exact (decimal 15 1)))
        (mul temporal (decimal 5 1))

  unfoldable pub fusion_score : Bool → Segment F32 → MemoryProbe F32 → MemoryCapsule F32 → F32
  unfolding lexical_score exact_score temporal_score rrf_like_score score_capsule
  fusion_score parent_aggregate segment probe c =
      let lexical = lexical_score c probe in
      let semantic = score_capsule platform segment c probe in
      let exact = exact_score c probe in
      let temporal = temporal_score c probe in
      if parent_aggregate
      then rrf_like_score lexical semantic exact temporal
      else add (add (add (mul lexical (decimal 12 1)) semantic) (mul exact (decimal 20 1))) temporal

  -- One round of the inner loop.
  unfoldable pub fuse_capsule :
      Bool → Segment F32 → MemoryProbe F32 → MemoryCapsule F32 → Fusion F32 → Fusion F32
  unfolding hard_gates_pass count_capsule fusion_score
  fuse_capsule parent_aggregate segment probe c fusion = record fusion {
    coverage = count_capsule c probe fusion.coverage;
    scored =
        if hard_gates_pass c probe
        then fusion.scored
          ++ frame_capsule c (fusion_score parent_aggregate segment probe c) [] ∷ []
        else fusion.scored;
  }

  unfoldable pub fuse_capsules :
      Bool → Segment F32 → MemoryProbe F32 → List (MemoryCapsule F32) → Fusion F32 → Fusion F32
  unfolding fuse_capsule
  fuse_capsules parent_aggregate segment probe [] fusion = fusion
  fuse_capsules parent_aggregate segment probe (c ∷ cs) fusion =
      fuse_capsules parent_aggregate segment probe cs
        (fuse_capsule parent_aggregate segment probe c fusion)

  unfoldable pub fuse_segments :
      Bool → MemoryProbe F32 → List (Segment F32) → Fusion F32 → Fusion F32
  unfolding fuse_capsules
  fuse_segments parent_aggregate probe [] fusion = fusion
  fuse_segments parent_aggregate probe (s ∷ ss) fusion = fuse_segments parent_aggregate probe ss (
      fuse_capsules parent_aggregate s probe s.capsules
        (record fusion { epoch = max fusion.epoch s.epoch }))

  -- `QueryRequest::to_probe`.
  unfoldable pub to_probe : QueryRequest F32 → Outcome (MemoryProbe F32)
  unfolding parse_u128 build_probe
  to_probe request = do
    context_mask ← parse_u128 request.context_mask
    policy_mask ← parse_u128 request.policy_mask
    ok
        (record (build_probe platform request.query request.tenant_id request.as_of context_mask
          policy_mask request.trust_floor) {
            max_capsules = request.max_capsules;
            max_tokens = request.max_tokens;
            include_supporting = request.include_supporting;
            include_contradictions = request.include_contradictions;
            max_hops = request.max_hops;
            embedding = request.embedding;
          })

  module _ (arrange : List (FrameCapsule F32) → List (FrameCapsule F32)) where
    unfoldable pub aggregate_frame_capsules :
        List (FrameCapsule F32) → ℕ → Outcome (List (FrameCapsule F32))
    unfolding group_by_source supported sort_entries
    aggregate_frame_capsules capsules limit =
        let aggregated = arrange (map (λ e. supported e.1) (group_by_source capsules [])) in
        sort_entries platform aggregated >>= λ sorted. ok (take limit sorted)

    unfoldable pub retrieve_parent_aggregate :
        MemoryStore F32 → MemoryProbe F32 → Outcome (MemoryFrame F32)
    unfolding aggregate_frame_capsules
    retrieve_parent_aggregate st probe = do
      frame ← retrieve_l5m platform st (record probe {
        max_capsules = max (min (probe.max_capsules * 4) (2 ^ 64 - 1)) probe.max_capsules;
      })
      aggregated ← aggregate_frame_capsules frame.capsules probe.max_capsules
      ok (record frame { capsules = aggregated })

    unfoldable pub retrieve_fusion :
        MemoryStore F32 → MemoryProbe F32 → Bool → Outcome (MemoryFrame F32)
    unfolding fuse_segments aggregate_frame_capsules sort_entries
    retrieve_fusion st probe parent_aggregate =
        let fusion = fuse_segments parent_aggregate probe (live_segments st) no_fusion in
        sort_entries platform fusion.scored >>= λ sorted.
        (if parent_aggregate
          then aggregate_frame_capsules sorted probe.max_capsules
          else ok (take probe.max_capsules sorted))
        >>= λ capsules. ok (record {
          epoch = fusion.epoch;
          query_hash = platform.blake3 probe.query_text;
          capsules = capsules;
          conflicts = [];
          coverage = record fusion.coverage {
            candidate_count_before_scoring = length fusion.scored;
          };
        })

    unfoldable pub retrieve_in_mode :
        RetrievalMode → MemoryStore F32 → MemoryProbe F32 → Outcome (MemoryFrame F32)
    unfolding retrieve_parent_aggregate retrieve_fusion
    retrieve_in_mode l5m_mode st probe = retrieve_l5m platform st probe
    retrieve_in_mode parent_aggregate_mode st probe = retrieve_parent_aggregate st probe
    retrieve_in_mode hybrid_bm25_l5m st probe = retrieve_fusion st probe false
    retrieve_in_mode rrf_fusion_parent st probe = retrieve_fusion st probe true

    -- The frame of `MemoryStore::query`.
    unfoldable pub query : MemoryStore F32 → QueryRequest F32 → Outcome (MemoryFrame F32)
    unfolding to_probe retrieve_in_mode
    query st request = do
      probe ← to_probe request
      frame ← retrieve_in_mode request.mode st probe
      ok (apply_tombstones_and_dedup st.tombstones probe.max_capsules frame)
