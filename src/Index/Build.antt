-- ===== src/Index/Build.antt =====
-- crates/l5m-core/src/index.rs: `SegmentIndex` and its construction.
pub mod Gates
pub mod Supersedes
pub mod Postings
use l5m.Prelude.{
  ℕ, ◌+◌, ◌%◌, ◌^◌, compare, Bool, true, false, Option, none, some, List, [], ◌∷◌, ◌++◌, map,
  if◌then◌else◌, length, get_or, set, replicate, take, dedup, any, Bytes, from_le,
}
use l5m.Prelude.Int.{ℤ}
use l5m.Prelude.Map
use l5m.Prelude.Map.{Map}
use l5m.Prelude.Sort.{sort_by}
use l5m.Platform.{Platform}
use l5m.Capsule.{MemoryCapsule, RelationEdge, is_supersedes}
use l5m.Index.Lsh.{SemanticLsh, EmbeddingLsh, build_semantic, build_embedding}

pub record GateRow : Type 0 where
  pub tenant_id : ℕ
  pub context_mask : ℕ
  pub policy_mask : ℕ
  pub valid_from : ℤ
  pub valid_until : Option ℤ
  pub trust_level : ℕ

pub record SegmentIndex (F : Type 0) : Type 0 where
  pub anchors : Map (List ℕ)
  pub entities : Map (List ℕ)
  pub semantic_buckets : Map (List ℕ)
  pub supersedes_by_target : Map (List ℕ)
  pub by_id : Map ℕ
  pub gate_rows : List GateRow
  pub fingerprints : List (List ℕ)
  pub supersede_target : List Bool
  pub lsh : SemanticLsh
  pub tenant_postings : Map (List ℕ)
  pub embedding_lsh : Option (EmbeddingLsh F)

unfoldable pub semantic_bucket : List ℕ → ℕ
semantic_bucket bits = get_or bits 0 0 % 2 ^ 16

unfoldable pub gate_row : {F : Type 0} → MemoryCapsule F → GateRow
gate_row c = record {
  tenant_id = c.tenant_id;
  context_mask = c.context_mask;
  policy_mask = c.policy_mask;
  valid_from = c.valid_from;
  valid_until = c.valid_until;
  trust_level = c.trust_level;
}

-- The `supersedes` edges of one capsule.
pub add_edges : ℕ → List RelationEdge → Map (List ℕ) → Map (List ℕ)
add_edges ordinal [] m = m
add_edges ordinal (e ∷ es) m =
    add_edges ordinal es (if is_supersedes e.kind then Map.push e.to ordinal m else m)

-- `values.sort_unstable(); values.dedup();` on each value.
pub normalize : Map (List ℕ) → Map (List ℕ)
unfolding sort_by
normalize = map (λ e. (e.0, dedup (sort_by compare e.1)))

-- `if let Some(&ordinal) = by_id.get(target_id) { *supersede_target.get_mut(ordinal)? = true; }`.
mark : Option ℕ → List Bool → List Bool
mark none flags = flags
mark (some ordinal) flags = set flags ordinal true

-- The flag of each capsule that some edge supersedes.
pub mark_targets : Map ℕ → List (ℕ × List ℕ) → List Bool → List Bool
unfolding mark
mark_targets by_id [] flags = flags
mark_targets by_id ((target, _) ∷ rest) flags =
    mark_targets by_id rest (mark (Map.get target by_id) flags)

module _ (p : Platform) where
  open p use {F32, blake3}

  unfoldable pub stable_hash64 : Bytes → ℕ
  stable_hash64 value = from_le (take 8 (blake3 value))

  -- `for term in terms { map.entry(stable_hash64(term)).or_default().push(ordinal) }`.
  pub add_terms : ℕ → List Bytes → Map (List ℕ) → Map (List ℕ)
  unfolding stable_hash64
  add_terms ordinal [] m = m
  add_terms ordinal (t ∷ ts) m = add_terms ordinal ts (Map.push (stable_hash64 t) ordinal m)

  abbrev pub empty_index : SegmentIndex F32
  empty_index = record {
    anchors = [];
    entities = [];
    semantic_buckets = [];
    supersedes_by_target = [];
    by_id = [];
    gate_rows = [];
    fingerprints = [];
    supersede_target = [];
    lsh = record { tables = [] };
    tenant_postings = [];
    embedding_lsh = none;
  }

  -- One round of the loop over the capsules.
  unfoldable pub add_capsule : ℕ → MemoryCapsule F32 → SegmentIndex F32 → SegmentIndex F32
  unfolding add_terms add_edges gate_row semantic_bucket
  add_capsule ordinal c index = record index {
    by_id = Map.insert c.capsule_id ordinal index.by_id;
    gate_rows = index.gate_rows ++ gate_row c ∷ [];
    fingerprints = index.fingerprints ++ c.semantic_bits ∷ [];
    tenant_postings = Map.push c.tenant_id (ordinal % 2 ^ 32) index.tenant_postings;
    anchors = add_terms ordinal c.anchors index.anchors;
    entities = add_terms ordinal c.entities index.entities;
    semantic_buckets = Map.push (semantic_bucket c.semantic_bits) ordinal index.semantic_buckets;
    supersedes_by_target = add_edges ordinal c.relation_edges index.supersedes_by_target;
  }

  unfoldable pub add_capsules : ℕ → List (MemoryCapsule F32) → SegmentIndex F32 → SegmentIndex F32
  add_capsules ordinal [] index = index
  add_capsules ordinal (c ∷ cs) index = add_capsules (ordinal + 1) cs (add_capsule ordinal c index)

  -- `Self::default()` with a flag for each capsule.
  abbrev pub start : List (MemoryCapsule F32) → SegmentIndex F32
  start capsules =
      let flags : List Bool = replicate (length capsules) false in
      record empty_index { supersede_target = flags }

  abbrev has_embedding : MemoryCapsule F32 → Bool
  has_embedding c = elim c.embedding [ [] ↦ false | x ∷ xs ↦ true ]

  unfoldable pub build : List (MemoryCapsule F32) → SegmentIndex F32
  unfolding add_capsule add_capsules normalize mark_targets build_semantic build_embedding
  build capsules =
      let index = add_capsules 0 capsules (start capsules) in
      let targets = normalize index.supersedes_by_target in
      record index {
        anchors = normalize index.anchors;
        entities = normalize index.entities;
        semantic_buckets = normalize index.semantic_buckets;
        supersedes_by_target = targets;
        supersede_target = mark_targets index.by_id targets index.supersede_target;
        lsh = build_semantic index.fingerprints;
        embedding_lsh =
            if any has_embedding capsules
            then build_embedding p (map (λ c. c.embedding) capsules)
            else none;
      }
