-- ===== src/Retrieve/Relations/Shown.antt =====
-- crates/l5m-core/src/retrieve.rs, expand_relations: the capsules behind its entries.
use l5m.Prelude.{
  ℕ, ◌≡◌, refl, inl, inr, true, not, ◌&&◌, ◌||◌, some, List, [], ◌∷◌, ◌==◌, any, Bool-cases,
  Option-cases, All, All-append, arith,
}
use l5m.Platform.{Platform}
use l5m.Capsule.{MemoryCapsule, RelationKind, RelationEdge}
use l5m.Frame.{MemoryProbe, FrameCapsule}
use l5m.Segment.Query.{Segment, capsule_by_id}
use l5m.Retrieve.Gates.{passes_hard_gates, passes_authorization_gates}
use l5m.Retrieve.Rank.{frame_capsule}
use l5m.Retrieve.Relations.{
  may_show, included, add_note, show, expand_edges, expand_selected, expand_relations,
}

-- The entry shows a capsule of the segment, which clears the authorization gates; it clears the
-- hard gates too, or the probe asks for contradictions.
pub record IsShown {F : Type 0} (s : Segment F) (probe : MemoryProbe F) (x : FrameCapsule F)
    : Type 0 where
  pub id : ℕ
  pub source : MemoryCapsule F
  pub found : capsule_by_id s id ≡ some source
  pub same_id : x.capsule_id ≡ source.capsule_id
  pub same_claim : x.claim ≡ source.claim
  pub same_evidence : x.evidence ≡ source.evidence
  pub authorized : passes_authorization_gates source probe ≡ true
  pub current : (passes_hard_gates source probe || probe.include_contradictions) ≡ true

may_show-gates :
    {F : Type 0} (probe : MemoryProbe F) (kind : RelationKind) (c : MemoryCapsule F)
    → may_show probe kind c ≡ true
    → (passes_authorization_gates c probe ≡ true)
      × ((passes_hard_gates c probe || probe.include_contradictions) ≡ true)
unfolding may_show passes_hard_gates
may_show-gates probe kind c h = ground (arith, h)

module _ (p : Platform) (s : Segment p.F32) (probe : MemoryProbe p.F32) where
  open p use {F32}

  add_note-IsShown :
      (id : ℕ) (note : RelationEdge) (out : List (FrameCapsule F32))
      → All (IsShown s probe) out
      → All (IsShown s probe) (add_note id note out)
  unfolding add_note
  add_note-IsShown id note [] h = tt
  add_note-IsShown id note (x ∷ xs) h = elim (Bool-cases (x.capsule_id == id)) [
    | inl hit ↦ rw hit (
      record {
        id = h.0.id;
        source = h.0.source;
        found = h.0.found;
        same_id = h.0.same_id;
        same_claim = h.0.same_claim;
        same_evidence = h.0.same_evidence;
        authorized = h.0.authorized;
        current = h.0.current;
      },
      h.1,
    )
    | inr miss ↦ rw miss (h.0, add_note-IsShown id note xs h.1)
  ]

  show-IsShown :
      (edge : RelationEdge) (id : ℕ) (c : MemoryCapsule F32) (out : List (FrameCapsule F32))
      → capsule_by_id s id ≡ some c
      → may_show probe edge.kind c ≡ true
      → All (IsShown s probe) out
      → All (IsShown s probe) (show p edge c out)
  unfolding show frame_capsule
  show-IsShown edge id c out found shown h =
      elim (Bool-cases (any (λ x. x.capsule_id == c.capsule_id) out)) [
        | inl old ↦ rw old (add_note-IsShown c.capsule_id edge out h)
        | inr new ↦
            let gates = may_show-gates probe edge.kind c shown in
            rw new (
              All-append (IsShown s probe) out _ h (
                record {
                  id = id;
                  source = c;
                  found = found;
                  same_id = refl;
                  same_claim = refl;
                  same_evidence = refl;
                  authorized = gates.0;
                  current = gates.1;
                },
                tt,
              ))
      ]

  expand_edges-IsShown :
      (edges : List RelationEdge) (out : List (FrameCapsule F32))
      → All (IsShown s probe) out
      → All (IsShown s probe) (expand_edges p s probe edges out)
  unfolding expand_edges
  expand_edges-IsShown [] out h = h
  expand_edges-IsShown (edge ∷ edges) out h = elim (Bool-cases (included probe edge.kind)) [
    | inr skip ↦ rw skip (expand_edges-IsShown edges out h)
    | inl follow ↦ elim (Option-cases (capsule_by_id s edge.to)) [
      | inl missing ↦ rw (follow, missing) (expand_edges-IsShown edges out h)
      | inr (c, found) ↦ elim (Bool-cases (may_show probe edge.kind c)) [
        | inl shown ↦
            rw (follow, found, shown)
              (expand_edges-IsShown edges _ (show-IsShown edge edge.to c out found shown h))
        | inr hidden ↦ rw (follow, found, hidden) (expand_edges-IsShown edges out h)
      ]
    ]
  ]

  expand_selected-IsShown :
      (selected out : List (FrameCapsule F32))
      → All (IsShown s probe) out
      → All (IsShown s probe) (expand_selected p s probe selected out)
  unfolding expand_selected
  expand_selected-IsShown [] out h = h
  expand_selected-IsShown (x ∷ xs) out h = elim (Option-cases (capsule_by_id s x.capsule_id)) [
    | inl missing ↦ rw missing (expand_selected-IsShown xs out h)
    | inr (c, found) ↦
        rw found (expand_selected-IsShown xs _ (expand_edges-IsShown c.relation_edges out h))
  ]

-- Whatever capsules are selected, every entry that relation expansion adds shows the id, the claim
-- and the evidence of a capsule of the segment which clears the authorization gates of the probe,
-- and which clears the hard gates too unless the probe includes contradictions.
pub expand_relations-IsShown :
    (p : Platform) (s : Segment p.F32) (probe : MemoryProbe p.F32)
    (selected : List (FrameCapsule p.F32))
    → All (IsShown s probe) (expand_relations p s probe selected)
unfolding expand_relations
expand_relations-IsShown p s probe selected =
    elim (Bool-cases
      (probe.max_hops == 0 || (not probe.include_supporting && not probe.include_contradictions))) [
        | inl off ↦ rw off tt
        | inr on ↦ rw on (expand_selected-IsShown p s probe selected [] tt)
      ]
