-- ===== src/Frame.antt =====
-- crates/l5m-core/src/frame.rs: what a query returns; and the probe of crates/l5m-core/src/probe.rs.
-- `F` is the type of f32.
use l5m.Prelude.{ℕ, Bool, false, Option, List, Bytes}
use l5m.Prelude.Int.{ℤ}
use l5m.Capsule.{RelationEdge}

pub record FrameCapsule (F : Type 0) : Type 0 where
  pub capsule_id : ℕ
  pub claim : Bytes
  pub evidence : Bytes
  pub trust_level : ℕ
  pub valid_from : ℤ
  pub valid_until : Option ℤ
  pub source_id : ℕ
  pub source_hash : Bytes
  -- The note `"{kind} from {from} to {to} weight {weight}"` is kept as the edge that it prints.
  pub relation_notes : List RelationEdge
  pub score : F

pub record CoverageReport : Type 0 where
  pub exact_entity_match : Bool
  pub anchor_match_count : ℕ
  pub temporal_valid_count : ℕ
  pub trust_floor_met_count : ℕ
  pub context_valid_count : ℕ
  pub candidate_count_before_scoring : ℕ

-- `CoverageReport::default()`.
abbrev pub no_coverage : CoverageReport
no_coverage = record {
  exact_entity_match = false;
  anchor_match_count = 0;
  temporal_valid_count = 0;
  trust_floor_met_count = 0;
  context_valid_count = 0;
  candidate_count_before_scoring = 0;
}

pub record MemoryFrame (F : Type 0) : Type 0 where
  pub epoch : ℕ
  pub query_hash : Bytes
  pub capsules : List (FrameCapsule F)
  pub conflicts : List (FrameCapsule F)
  pub coverage : CoverageReport

pub record MemoryProbe (F : Type 0) : Type 0 where
  pub query_text : Bytes
  pub tenant_id : ℕ
  pub as_of : ℤ
  pub context_mask : ℕ
  pub caller_policy_mask : ℕ
  pub trust_floor : ℕ
  pub semantic_bits : List ℕ
  pub residual : List ℤ
  pub embedding : List F
  pub anchors : List Bytes
  pub entities : List Bytes
  pub include_supporting : Bool
  pub include_contradictions : Bool
  pub max_hops : ℕ
  pub max_capsules : ℕ
  pub max_tokens : ℕ
