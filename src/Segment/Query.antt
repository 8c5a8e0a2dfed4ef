-- ===== src/Segment/Query.antt =====
-- crates/l5m-core/src/segment.rs: the in-memory segment and its lookups.
use l5m.Prelude.{ℕ, Option, none, some, List, [], ◌∷◌, ◌==◌, if◌then◌else◌, length, get_elem?}
use l5m.Prelude.Map
use l5m.Platform.{Platform}
use l5m.Outcome.{Outcome, ok, err, format, duplicate_ids}
use l5m.Capsule.{MemoryCapsule, RelationEdge}
use l5m.Index.Build.{SegmentIndex, build}

pub record Segment (F : Type 0) : Type 0 where
  pub epoch : ℕ
  pub tenant_id : ℕ
  pub capsules : List (MemoryCapsule F)
  pub index : SegmentIndex F

-- `capsules.first().map_or(0, |c| c.tenant_id)`.
abbrev pub first_tenant : {F : Type 0} → List (MemoryCapsule F) → ℕ
first_tenant [] = 0
first_tenant (c ∷ cs) = c.tenant_id

unfoldable pub from_capsules :
    (p : Platform) → List (MemoryCapsule p.F32) → ℕ → Outcome (Segment p.F32)
from_capsules p capsules epoch =
    let index = build p capsules in
    if length index.by_id == length capsules
    then ok (record {
      epoch = epoch;
      tenant_id = first_tenant capsules;
      capsules = capsules;
      index = index;
    })
    else err (format duplicate_ids)

module _ {F : Type 0} where
  unfoldable pub capsule_count : Segment F → ℕ
  capsule_count s = length s.capsules

  unfoldable pub capsule : Segment F → ℕ → Option (MemoryCapsule F)
  capsule s ordinal = get_elem? s.capsules ordinal

  unfoldable pub capsule_by_id : Segment F → ℕ → Option (MemoryCapsule F)
  unfolding capsule
  capsule_by_id s id = elim (Map.get id s.index.by_id) [
    | none ↦ none
    | some ordinal ↦ get_elem? s.capsules ordinal
  ]

  unfoldable pub relations_from : Segment F → ℕ → List RelationEdge
  unfolding capsule_by_id
  relations_from s id = elim (capsule_by_id s id) [ none ↦ [] | some c ↦ c.relation_edges ]
