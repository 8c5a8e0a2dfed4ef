-- ===== src/Retrieve/Relations.antt =====
-- crates/l5m-core/src/retrieve.rs: `expand_relations`, the capsules that support or contradict the
-- selected ones.
pub mod Shown
pub mod Once
use l5m.Prelude.{
  ℕ, Bool, true, false, not, ◌&&◌, ◌||◌, none, some, List, [], ◌∷◌, ◌++◌, ◌==◌, if◌then◌else◌, any,
}
use l5m.Platform.{Platform}
use l5m.Capsule.{
  MemoryCapsule, RelationKind, RelationEdge, supports, contradicts, supersedes, depends_on,
  derived_from, duplicate_of,
}
use l5m.Frame.{MemoryProbe, FrameCapsule}
use l5m.Segment.Query.{Segment, capsule_by_id}
use l5m.Retrieve.Gates.{passes_hard_gates, passes_authorization_gates}
use l5m.Retrieve.Rank.{frame_capsule}

abbrev pub included : {F : Type 0} → MemoryProbe F → RelationKind → Bool
included probe supports = probe.include_supporting
included probe contradicts = probe.include_contradictions
included probe supersedes = probe.include_contradictions
included probe depends_on = false
included probe derived_from = false
included probe duplicate_of = false

-- `matches!(kind, Contradicts | Supersedes)`.
abbrev pub is_conflict : RelationKind → Bool
is_conflict contradicts = true
is_conflict supersedes = true
is_conflict _ = false

-- Whether the related capsule may be shown: a conflict that the probe asks for may be out of date.
unfoldable pub may_show : {F : Type 0} → MemoryProbe F → RelationKind → MemoryCapsule F → Bool
may_show probe kind related =
    passes_hard_gates related probe
    || (is_conflict kind
        && probe.include_contradictions
        && passes_authorization_gates related probe)

-- Adds the note to the entry of the capsule, if there is one.
add_note : {F : Type 0} → ℕ → RelationEdge → List (FrameCapsule F) → List (FrameCapsule F)
add_note id note [] = []
add_note id note (x ∷ xs) =
    if x.capsule_id == id
    then record x { relation_notes = x.relation_notes ++ note ∷ [] } ∷ xs
    else x ∷ add_note id note xs

-- The new note goes to the entry of its capsule, or to a new entry.
show :
    (p : Platform)
    → RelationEdge
    → MemoryCapsule p.F32
    → List (FrameCapsule p.F32)
    → List (FrameCapsule p.F32)
unfolding add_note
show p edge related out =
    if any (λ x. x.capsule_id == related.capsule_id) out
    then add_note related.capsule_id edge out
    else out ++ frame_capsule related (p.decimal 0 0) (edge ∷ []) ∷ []

module _ (p : Platform) (s : Segment p.F32) (probe : MemoryProbe p.F32) where
  open p use {F32}

  expand_edges : List RelationEdge → List (FrameCapsule F32) → List (FrameCapsule F32)
  unfolding show
  expand_edges [] out = out
  expand_edges (edge ∷ edges) out = expand_edges edges (
      if included probe edge.kind
      then elim (capsule_by_id s edge.to) [
        | none ↦ out
        | some related ↦ if may_show probe edge.kind related then show p edge related out else out
      ]
      else out)

  expand_selected : List (FrameCapsule F32) → List (FrameCapsule F32) → List (FrameCapsule F32)
  unfolding expand_edges
  expand_selected [] out = out
  expand_selected (selected ∷ rest) out =
      expand_selected rest (elim (capsule_by_id s selected.capsule_id) [
        | none ↦ out
        | some source ↦ expand_edges source.relation_edges out
      ])

  pub expand_relations : List (FrameCapsule F32) → List (FrameCapsule F32)
  unfolding expand_selected
  expand_relations selected =
      if probe.max_hops == 0 || (not probe.include_supporting && not probe.include_contradictions)
      then []
      else expand_selected selected []
