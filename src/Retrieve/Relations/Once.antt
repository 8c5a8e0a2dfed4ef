-- ===== src/Retrieve/Relations/Once.antt =====
-- crates/l5m-core/src/retrieve.rs, expand_relations: the ids of its entries.
use l5m.Prelude.{
  ℕ, ◌≡◌, refl, ◌∙◌, inl, inr, Bool, true, false, not, ◌&&◌, ◌||◌, List, [], ◌∷◌, ◌++◌, ◌==◌, any,
  Bool-cases, Option-cases, arith,
}
use l5m.Platform.{Platform}
use l5m.Capsule.{MemoryCapsule, RelationEdge}
use l5m.Frame.{MemoryProbe, FrameCapsule}
use l5m.Segment.Query.{Segment, capsule_by_id}
use l5m.Retrieve.Rank.{frame_capsule}
use l5m.Retrieve.Relations.{
  may_show, included, add_note, show, expand_edges, expand_selected, expand_relations,
}

module _ {F : Type 0} where
  -- The id is that of an entry.
  abbrev pub has_id : ℕ → List (FrameCapsule F) → Bool
  has_id id = any (λ x. x.capsule_id == id)

  -- No two entries have the same capsule id.
  abbrev pub distinct_ids : List (FrameCapsule F) → Bool
  distinct_ids [] = true
  distinct_ids (x ∷ xs) = not (has_id x.capsule_id xs) && distinct_ids xs

  has_id-add_note :
      (id k : ℕ) (note : RelationEdge) (xs : List (FrameCapsule F))
      → has_id id (add_note k note xs) ≡ has_id id xs
  unfolding add_note
  has_id-add_note id k note [] = refl
  has_id-add_note id k note (x ∷ xs) = ground (arith, has_id-add_note id k note xs)

  distinct_ids-add_note :
      (k : ℕ) (note : RelationEdge) (xs : List (FrameCapsule F))
      → distinct_ids (add_note k note xs) ≡ distinct_ids xs
  unfolding add_note
  distinct_ids-add_note k note [] = refl
  distinct_ids-add_note k note (x ∷ xs) =
      ground (arith, distinct_ids-add_note k note xs, has_id-add_note x.capsule_id k note xs)

  has_id-append :
      (id : ℕ) (xs ys : List (FrameCapsule F))
      → has_id id (xs ++ ys) ≡ (has_id id xs || has_id id ys)
  has_id-append id [] ys = refl
  has_id-append id (x ∷ xs) ys = ground (arith, has_id-append id xs ys)

  distinct_ids-append_one :
      (xs : List (FrameCapsule F)) (y : FrameCapsule F)
      → distinct_ids xs ≡ true
      → has_id y.capsule_id xs ≡ false
      → distinct_ids (xs ++ y ∷ []) ≡ true
  distinct_ids-append_one [] y h new = refl
  distinct_ids-append_one (x ∷ xs) y h new =
      let rest = distinct_ids-append_one xs y (ground (arith, h)) (ground (arith, new)) in
      ground (arith, h, new, rest, has_id-append x.capsule_id xs (y ∷ []))

module _ (p : Platform) (s : Segment p.F32) (probe : MemoryProbe p.F32) where
  open p use {F32}

  show-distinct_ids :
      (edge : RelationEdge) (c : MemoryCapsule F32) (out : List (FrameCapsule F32))
      → distinct_ids out ≡ true
      → distinct_ids (show p edge c out) ≡ true
  unfolding show frame_capsule
  show-distinct_ids edge c out h = elim (Bool-cases (has_id c.capsule_id out)) [
    | inl old ↦ rw old (distinct_ids-add_note c.capsule_id edge out ∙ h)
    | inr new ↦ rw new (distinct_ids-append_one out _ h new)
  ]

  expand_edges-distinct_ids :
      (edges : List RelationEdge) (out : List (FrameCapsule F32))
      → distinct_ids out ≡ true
      → distinct_ids (expand_edges p s probe edges out) ≡ true
  unfolding expand_edges
  expand_edges-distinct_ids [] out h = h
  expand_edges-distinct_ids (edge ∷ edges) out h = elim (Bool-cases (included probe edge.kind)) [
    | inr skip ↦ rw skip (expand_edges-distinct_ids edges out h)
    | inl follow ↦ elim (Option-cases (capsule_by_id s edge.to)) [
      | inl missing ↦ rw (follow, missing) (expand_edges-distinct_ids edges out h)
      | inr (c, found) ↦ elim (Bool-cases (may_show probe edge.kind c)) [
        | inl shown ↦
            rw (follow, found, shown)
              (expand_edges-distinct_ids edges _ (show-distinct_ids edge c out h))
        | inr hidden ↦ rw (follow, found, hidden) (expand_edges-distinct_ids edges out h)
      ]
    ]
  ]

  expand_selected-distinct_ids :
      (selected out : List (FrameCapsule F32))
      → distinct_ids out ≡ true
      → distinct_ids (expand_selected p s probe selected out) ≡ true
  unfolding expand_selected
  expand_selected-distinct_ids [] out h = h
  expand_selected-distinct_ids (x ∷ xs) out h = elim (Option-cases (capsule_by_id s x.capsule_id)) [
    | inl missing ↦ rw missing (expand_selected-distinct_ids xs out h)
    | inr (c, found) ↦
        rw found
          (expand_selected-distinct_ids xs _ (expand_edges-distinct_ids c.relation_edges out h))
  ]

-- Whatever capsules are selected, relation expansion has one entry for each capsule id: a capsule
-- that several edges reach gets its notes in that entry.
pub expand_relations-distinct_ids :
    (p : Platform) (s : Segment p.F32) (probe : MemoryProbe p.F32)
    (selected : List (FrameCapsule p.F32))
    → distinct_ids (expand_relations p s probe selected) ≡ true
unfolding expand_relations
expand_relations-distinct_ids p s probe selected =
    elim (Bool-cases
      (probe.max_hops == 0 || (not probe.include_supporting && not probe.include_contradictions))) [
        | inl off ↦ rw off refl
        | inr on ↦ rw on (expand_selected-distinct_ids p s probe selected [] refl)
      ]
