-- ===== src/Index/Build/Supersedes.antt =====
-- crates/l5m-core/src/index.rs: supersede edges by target, and the flags of the targets.
use l5m.Prelude.{
  ℕ, zero, suc, ◌+◌, ◌<◌, ◌≡◌, refl, ap, ◌∙◌, inl, inr, compare, Bool, true, false, ◌&&◌, ◌||◌,
  Option, none, some, List, [], ◌∷◌, ◌++◌, ◌==◌, is_some, Bool-cases, length, get_elem?, set,
  length-set, length-replicate, get_elem?-set_self, get_elem?_lt, dedup, any, arith,
}
use l5m.Prelude.Map
use l5m.Prelude.Map.{Map, get-insert, get-push}
use l5m.Prelude.Sort.{sort_by, insert_by}
use l5m.Platform.{Platform}
use l5m.Capsule.{MemoryCapsule, RelationEdge, is_supersedes}
use l5m.Index.Build.{
  SegmentIndex, add_capsule, add_capsules, add_edges, normalize, mark, mark_targets, start, build,
}
use l5m.Index.Build.Gates.{by_id-build}

module _ (f : ℕ → Bool) where
  any-append : (xs ys : List ℕ) → any f (xs ++ ys) ≡ (any f xs || any f ys)
  any-append [] ys = refl
  any-append (x ∷ xs) ys = ground (arith, any-append xs ys)

  any-insert_by : (x : ℕ) (ys : List ℕ) → any f (insert_by compare x ys) ≡ (f x || any f ys)
  unfolding insert_by
  any-insert_by x [] = refl
  any-insert_by x (y ∷ ys) = ground (arith, any-insert_by x ys)

  any-sort_by : (xs : List ℕ) → any f (sort_by compare xs) ≡ any f xs
  unfolding sort_by
  any-sort_by [] = refl
  any-sort_by (x ∷ xs) = ground (arith, any-insert_by x (sort_by compare xs), any-sort_by xs)

  any-dedup : (xs : List ℕ) → any f (dedup xs) ≡ any f xs
  any-dedup [] = refl
  any-dedup (x ∷ []) = refl
  any-dedup (x ∷ y ∷ ys) = ground (arith, any-dedup (y ∷ ys))

  -- Normalizing a map of postings keeps what some posting of a key has.
  pub any-normalize :
      (k : ℕ) (m : Map (List ℕ))
      → any f (Map.or_empty (Map.get k (normalize m))) ≡ any f (Map.or_empty (Map.get k m))
  unfolding normalize Map.get
  any-normalize k [] = refl
  any-normalize k ((j, xs) ∷ m) =
      ground (arith, any-normalize k m, any-dedup (sort_by compare xs), any-sort_by xs)

-- Some of the edges supersedes the id.
abbrev pub supersedes_id : ℕ → List RelationEdge → Bool
supersedes_id id = any (λ e. is_supersedes e.kind && e.to == id)

-- Some capsule of the list, the first of which has ordinal `i`, supersedes the id, and its ordinal
-- passes the test.
abbrev pub any_superseder : {F : Type 0} → (ℕ → Bool) → ℕ → ℕ → List (MemoryCapsule F) → Bool
any_superseder f id i [] = false
any_superseder f id i (c ∷ cs) =
    (supersedes_id id c.relation_edges && f i) || any_superseder f id (i + 1) cs

module _ (f : ℕ → Bool) (id : ℕ) where
  any-add_edges :
      (i : ℕ) (es : List RelationEdge) (m : Map (List ℕ))
      → any f (Map.or_empty (Map.get id (add_edges i es m)))
        ≡ (any f (Map.or_empty (Map.get id m)) || (supersedes_id id es && f i))
  unfolding add_edges
  any-add_edges i [] m = ground arith
  any-add_edges i (e ∷ es) m = elim (Bool-cases (is_supersedes e.kind)) [
    | inl yes_edge ↦ rw yes_edge (
        any-add_edges i es _
        ∙ (rw get-push (ground (arith, any-append f (Map.or_empty (Map.get id m)) (i ∷ [])))))
    | inr no_edge ↦ rw no_edge (any-add_edges i es m)
  ]

  any-add_capsules :
      (p : Platform) (i : ℕ) (cs : List (MemoryCapsule p.F32)) (index : SegmentIndex p.F32)
      → any f (Map.or_empty (Map.get id (add_capsules p i cs index).supersedes_by_target))
        ≡ (any f (Map.or_empty (Map.get id index.supersedes_by_target)) || any_superseder f id i cs)
  unfolding add_capsules add_capsule
  any-add_capsules p i [] index = ground arith
  any-add_capsules p i (c ∷ cs) index =
      any-add_capsules p (i + 1) cs _ ∙ (rw any-add_edges (ground arith))

  -- Some posting of a supersede target passes a test exactly if the ordinal of some capsule with a
  -- supersedes edge to the target passes it.
  pub any-supersedes-build :
      (p : Platform) (cs : List (MemoryCapsule p.F32))
      → any f (Map.or_empty (Map.get id (build p cs).supersedes_by_target))
        ≡ any_superseder f id 0 cs
  unfolding build
  any-supersedes-build p cs =
      any-normalize f id _ ∙ (any-add_capsules p 0 cs _ ∙ (unfold Map.get in refl))

length-mark : (o : Option ℕ) (flags : List Bool) → length (mark o flags) ≡ length flags
unfolding mark
length-mark none flags = refl
length-mark (some ordinal) flags = length-set flags ordinal true

length-mark_targets :
    (by_id : Map ℕ) (targets : List (ℕ × List ℕ)) (flags : List Bool)
    → length (mark_targets by_id targets flags) ≡ length flags
unfolding mark_targets
length-mark_targets by_id [] flags = refl
length-mark_targets by_id ((t, xs) ∷ rest) flags =
    length-mark_targets by_id rest _ ∙ length-mark (Map.get t by_id) flags

-- A flag that is set stays set.
flag-set :
    (flags : List Bool) (i j : ℕ)
    → get_elem? flags j ≡ some true
    → get_elem? (set flags i true) j ≡ some true
flag-set [] i j h = h
flag-set (b ∷ bs) zero zero h = refl
flag-set (b ∷ bs) zero (suc j) h = h
flag-set (b ∷ bs) (suc i) zero h = h
flag-set (b ∷ bs) (suc i) (suc j) h = flag-set bs i j h

flag-mark :
    (o : Option ℕ) (flags : List Bool) (j : ℕ)
    → get_elem? flags j ≡ some true
    → get_elem? (mark o flags) j ≡ some true
unfolding mark
flag-mark none flags j h = h
flag-mark (some ordinal) flags j h = flag-set flags ordinal j h

flag-mark_targets :
    (by_id : Map ℕ) (targets : List (ℕ × List ℕ)) (flags : List Bool) (j : ℕ)
    → get_elem? flags j ≡ some true
    → get_elem? (mark_targets by_id targets flags) j ≡ some true
unfolding mark_targets
flag-mark_targets by_id [] flags j h = h
flag-mark_targets by_id ((t, xs) ∷ rest) flags j h =
    flag-mark_targets by_id rest _ j (flag-mark (Map.get t by_id) flags j h)

flag-mark_self :
    (o : Option ℕ) (flags : List Bool) (j : ℕ)
    → o ≡ some j
    → j < length flags
    → get_elem? (mark o flags) j ≡ some true
unfolding mark
flag-mark_self o flags j e lt = rw e (get_elem?-set_self flags j true lt)

-- Every key of the map has its flag set.
mark_targets_key :
    (by_id : Map ℕ) (targets : Map (List ℕ)) (flags : List Bool) (id j : ℕ)
    → is_some (Map.get id targets) ≡ true
    → Map.get id by_id ≡ some j
    → j < length flags
    → get_elem? (mark_targets by_id targets flags) j ≡ some true
unfolding mark_targets Map.get
mark_targets_key by_id [] flags id j h e lt = cc
mark_targets_key by_id ((t, xs) ∷ rest) flags id j h e lt = elim (Bool-cases (t == id)) [
  | inl hit ↦
      let same : t ≡ id = ground arith in
      let found : Map.get t by_id ≡ some j = ap (λ k. Map.get k by_id) same ∙ e in
      flag-mark_targets by_id rest _ j (flag-mark_self (Map.get t by_id) flags j found lt)
  | inr miss ↦
      let later : is_some (Map.get id rest) ≡ true = ground arith in
      mark_targets_key by_id rest (mark (Map.get t by_id) flags) id j later e
        (omega (arith, length-mark (Map.get t by_id) flags))
]

key_of_any : (f : ℕ → Bool) (o : Option (List ℕ)) → any f (Map.or_empty o) ≡ true → is_some o ≡ true
key_of_any f none h = h
key_of_any f (some xs) h = refl

flags-add_capsules :
    (p : Platform) (i : ℕ) (cs : List (MemoryCapsule p.F32)) (index : SegmentIndex p.F32)
    → (add_capsules p i cs index).supersede_target ≡ index.supersede_target
unfolding add_capsules add_capsule
flags-add_capsules p i [] index = refl
flags-add_capsules p i (c ∷ cs) index = flags-add_capsules p (i + 1) cs _

module _ (p : Platform) (cs : List (MemoryCapsule p.F32)) where
  index : SegmentIndex p.F32
  index = add_capsules p 0 cs (start p cs)

  length-flags : length index.supersede_target ≡ length cs
  unfolding index
  length-flags =
      ap length (flags-add_capsules p 0 cs (start p cs)) ∙ length-replicate (length cs) false

  -- There is a flag for each capsule.
  pub length-supersede_target : length (build p cs).supersede_target ≡ length cs
  unfolding build index
  length-supersede_target =
      length-mark_targets index.by_id (normalize index.supersedes_by_target) index.supersede_target
      ∙ length-flags

  -- If the map of ids is as long as the capsules are many, the flag of a capsule is set when some
  -- capsule has a supersedes edge to its id.
  pub supersede_target-build :
      (f : ℕ → Bool) (k : ℕ) {c : MemoryCapsule p.F32}
      → length (build p cs).by_id ≡ length cs
      → get_elem? cs k ≡ some c
      → any_superseder f c.capsule_id 0 cs ≡ true
      → get_elem? (build p cs).supersede_target k ≡ some true
  unfolding build index
  supersede_target-build f k {c} distinct e h =
      mark_targets_key index.by_id (normalize index.supersedes_by_target) index.supersede_target
        c.capsule_id k (key_of_any f _ (any-supersedes-build f c.capsule_id p cs ∙ h))
        (by_id-build p cs k distinct e) (omega (arith, length-flags, get_elem?_lt cs k e))
