-- ===== src/Capsule.antt =====
-- crates/l5m-core/src/capsule.rs and relation.rs: the memory capsule and its relation edges. `F` is
-- the type of f32. Integers carry their values; the bounds of their types are stated where they
-- matter.
use l5m.Prelude.{ℕ, Bool, true, false, Option, List, Bytes}
use l5m.Prelude.Int.{ℤ}

pub data RelationKind : Type 0 where
  supports contradicts supersedes depends_on derived_from duplicate_of : RelationKind

abbrev pub is_supersedes : RelationKind → Bool
is_supersedes supersedes = true
is_supersedes _ = false

abbrev pub is_supports : RelationKind → Bool
is_supports supports = true
is_supports _ = false

pub record RelationEdge : Type 0 where
  pub from : ℕ
  pub to : ℕ
  pub kind : RelationKind
  pub weight : ℤ

pub record MemoryCapsule (F : Type 0) : Type 0 where
  pub capsule_id : ℕ
  pub tenant_id : ℕ
  pub claim : Bytes
  pub evidence : Bytes
  pub source_id : ℕ
  pub source_uri : Option Bytes
  pub source_hash : Bytes
  pub semantic_bits : List ℕ
  pub residual : List ℤ
  pub embedding : List F
  pub anchors : List Bytes
  pub entities : List Bytes
  pub valid_from : ℤ
  pub valid_until : Option ℤ
  pub observed_at : ℤ
  pub last_verified_at : ℤ
  pub context_mask : ℕ
  pub policy_mask : ℕ
  pub trust_level : ℕ
  pub classification : ℕ
  pub poison_risk : ℕ
  pub relation_edges : List RelationEdge
  pub content_hash : Bytes
