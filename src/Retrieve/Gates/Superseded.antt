-- ===== src/Retrieve/Gates/Superseded.antt =====
-- crates/l5m-core/src/retrieve.rs: the supersede check against a search of all the capsules.
use l5m.Prelude.{
  ℕ, suc, ◌+◌, ◌≡◌, refl, sym, ap, ◌∙◌, inl, inr, Bool, true, false, ◌&&◌, Option, none, some, List,
  [], ◌∷◌, Bool-cases, length, get_elem?, get_elem?-some, get_elem?_lt, any, arith,
}
use l5m.Prelude.Map
use l5m.Platform.{Platform}
use l5m.Outcome.{ok, ◌>>=◌, or_panic}
use l5m.Capsule.{MemoryCapsule}
use l5m.Frame.{MemoryProbe}
use l5m.Segment.Query.{Segment, capsule}
use l5m.Index.Build.Supersedes.{
  supersedes_id, any_superseder, any-supersedes-build, length-supersede_target,
  supersede_target-build,
}
use l5m.Retrieve.Gates.{
  passes_hard_gates, visible_at, is_superseded_by_visible_current, superseded_at,
}
use l5m.Retrieve.Gates.Spec.{superseded, IsBuilt}

module _ (p : Platform) (s : Segment p.F32) (probe : MemoryProbe p.F32) (v : IsBuilt p s) where
  open p use {F32}

  visible_at-passes :
      (i : ℕ) {c : MemoryCapsule F32}
      → get_elem? s.capsules i ≡ some c
      → visible_at s probe i ≡ passes_hard_gates c probe
  unfolding visible_at capsule
  visible_at-passes i e =
      ap (λ o. elim o [ none ↦ false | some other ↦ passes_hard_gates other probe ]) e

  -- Seen from ordinal `i`, the superseders are the capsules from there on.
  superseders :
      (id i : ℕ) (cs : List (MemoryCapsule F32))
      → ((k : ℕ) → get_elem? s.capsules (i + k) ≡ get_elem? cs k)
      → any_superseder (visible_at s probe) id i cs
        ≡ any (λ o. supersedes_id id o.relation_edges && passes_hard_gates o probe) cs
  superseders id i [] h = refl
  superseders id i (c ∷ cs) h =
      let here : visible_at s probe i ≡ passes_hard_gates c probe =
        visible_at-passes i (ap (get_elem? s.capsules) (omega arith) ∙ h 0) in
      let later : (k : ℕ) → get_elem? s.capsules (i + 1 + k) ≡ get_elem? cs k =
        λ k. ap (get_elem? s.capsules) (omega arith) ∙ h (suc k) in
      rw here (rw (superseders id (i + 1) cs later) refl)

  -- The index finds the visible superseders of an id.
  is_superseded_lem :
      (c : MemoryCapsule F32)
      → is_superseded_by_visible_current s c probe ≡ superseded probe s.capsules c
  unfolding is_superseded_by_visible_current
  is_superseded_lem c =
      by_cases (Map.get c.capsule_id s.index.supersedes_by_target)
      ∙ ap
          (λ ix.
            any (visible_at s probe) (Map.or_empty (Map.get c.capsule_id ix.supersedes_by_target)))
          v.built
      ∙ any-supersedes-build (visible_at s probe) c.capsule_id p s.capsules
      ∙ superseders c.capsule_id 0 s.capsules (λ k. ap (get_elem? s.capsules) (omega arith))
    where
      by_cases :
          (o : Option (List ℕ))
          → (elim o [ none ↦ false | some ordinals ↦ any (visible_at s probe) ordinals ])
            ≡ any (visible_at s probe) (Map.or_empty o)
      by_cases none = refl
      by_cases (some ordinals) = refl

  -- The scan's check agrees, though it skips capsules whose flag is not set.
  pub superseded_at_lem :
      (k : ℕ) {c : MemoryCapsule F32}
      → get_elem? s.capsules k ≡ some c
      → superseded_at s probe k ≡ ok (superseded probe s.capsules c)
  unfolding superseded_at capsule
  superseded_at_lem k {c} e =
      ap (λ o. or_panic o >>= λ target. ok (target && visible (get_elem? s.capsules k))) flag.1
      ∙ ap (λ o. ok (flag.0 && visible o)) e
      ∙ ap (λ b. ok (flag.0 && b)) (is_superseded_lem c)
      ∙ ap ok agree
    where
      visible : Option (MemoryCapsule F32) → Bool
      visible o = elim o [ none ↦ false | some d ↦ is_superseded_by_visible_current s d probe ]

      flag : (b : Bool) × (get_elem? s.index.supersede_target k ≡ some b)
      flag =
          let lt = get_elem?_lt s.capsules k e in
          let len : length s.index.supersede_target ≡ length s.capsules =
            ap (λ ix. length ix.supersede_target) v.built ∙ length-supersede_target p s.capsules in
          get_elem?-some s.index.supersede_target k (omega (arith, lt, len))

      agree : (flag.0 && superseded probe s.capsules c) ≡ superseded probe s.capsules c
      agree = elim (Bool-cases (superseded probe s.capsules c)) [
        | inl hit ↦
            let found : any_superseder (visible_at s probe) c.capsule_id 0 s.capsules ≡ true =
              superseders c.capsule_id 0 s.capsules (λ j. ap (get_elem? s.capsules) (omega arith))
              ∙ hit in
            let marked =
              supersede_target-build p s.capsules (visible_at s probe) k v.distinct e found in
            let same : some flag.0 ≡ some true =
              sym flag.1 ∙ ap (λ ix. get_elem? ix.supersede_target k) v.built ∙ marked in
            ground (arith, hit, same)
        | inr miss ↦ ground (arith, miss)
      ]
