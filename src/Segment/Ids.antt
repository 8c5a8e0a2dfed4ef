-- ===== src/Segment/Ids.antt =====
-- crates/l5m-core/src/segment.rs, from_capsules: capsules by their id, and lists without a
-- repeated id.
use l5m.Prelude.{
  ℕ, ◌+◌, ◌≡◌, refl, ap, Bool, true, not, ◌&&◌, Option, none, some, List, [], ◌∷◌, ◌++◌, ◌==◌, inl,
  inr, Bool-cases, is_some, if◌then◌else◌, length, filter, arith,
}
use l5m.Prelude.Map
use l5m.Prelude.Map.{get-insert, length-insert}
use l5m.Platform.{Platform}
use l5m.Outcome.{ok}
use l5m.Capsule.{MemoryCapsule}
use l5m.Index.Build.{SegmentIndex, add_capsule, add_capsules, start, build}
use l5m.Segment.Query.{Segment, first_tenant, from_capsules}

module _ {F : Type 0} where
  -- The first capsule with the id.
  abbrev pub find : ℕ → List (MemoryCapsule F) → Option (MemoryCapsule F)
  find id [] = none
  find id (c ∷ cs) = if c.capsule_id == id then some c else find id cs

  abbrev pub distinct : List (MemoryCapsule F) → Bool
  distinct [] = true
  distinct (c ∷ cs) = not (is_some (find c.capsule_id cs)) && distinct cs

  -- The first of two.
  abbrev pub or_else :
      Option (MemoryCapsule F) → Option (MemoryCapsule F) → Option (MemoryCapsule F)
  or_else none o = o
  or_else (some c) o = some c

  pub find-append :
      (id : ℕ) (xs ys : List (MemoryCapsule F))
      → find id (xs ++ ys) ≡ or_else (find id xs) (find id ys)
  find-append id [] ys = refl
  find-append id (x ∷ xs) ys = ground (arith, find-append id xs ys)

  pub find-without :
      (id k : ℕ) (xs : List (MemoryCapsule F))
      → find k (filter (λ c. not (c.capsule_id == id)) xs) ≡ (if id == k then none else find k xs)
  find-without id k [] = ground arith
  find-without id k (x ∷ xs) = ground (arith, find-without id k xs)

  pub distinct-without :
      (id : ℕ) (xs : List (MemoryCapsule F))
      → distinct xs ≡ true
      → distinct (filter (λ c. not (c.capsule_id == id)) xs) ≡ true
  distinct-without id [] h = refl
  distinct-without id (x ∷ xs) h =
      ground (arith, h, find-without id x.capsule_id xs, distinct-without id xs (ground (arith, h)))

  pub distinct-append_one :
      (xs : List (MemoryCapsule F)) (c : MemoryCapsule F)
      → distinct xs ≡ true
      → find c.capsule_id xs ≡ none
      → distinct (xs ++ c ∷ []) ≡ true
  distinct-append_one [] c h new = refl
  distinct-append_one (x ∷ xs) c h new =
      let rest = distinct-append_one xs c (ground (arith, h)) (ground (arith, new)) in
      ground (arith, h, new, rest, find-append x.capsule_id xs (c ∷ []))

module _ (p : Platform) where
  open p use {F32}

  -- New ids without repetition all make an entry in the map.
  length-by_id_distinct :
      (cs : List (MemoryCapsule F32)) (i : ℕ) (index : SegmentIndex F32)
      → distinct cs ≡ true
      → ((id : ℕ) → is_some (find id cs) ≡ true → Map.get id index.by_id ≡ none)
      → length (add_capsules p i cs index).by_id ≡ length index.by_id + length cs
  unfolding add_capsules add_capsule
  length-by_id_distinct [] i index h new = omega arith
  length-by_id_distinct (c ∷ cs) i index h new =
      let fresh = new c.capsule_id (ground arith) in
      let rest =
        length-by_id_distinct cs (i + 1) (add_capsule p i c index) (ground (arith, h)) later in
      ground (arith, rest, fresh, length-insert c.capsule_id i index.by_id)
    where
      later :
          (id : ℕ) → is_some (find id cs) ≡ true → Map.get id (add_capsule p i c index).by_id ≡ none
      later id there = elim (Bool-cases (c.capsule_id == id)) [
        | inl same ↦
            let e : find c.capsule_id cs ≡ find id cs =
              ap (λ k. find k cs) (ground (arith, same)) in
            absurd (ground (arith, h, there, e))
        | inr other ↦ ground (
          arith,
          new id (ground (arith, other, there)),
          other,
          get-insert c.capsule_id id i index.by_id,
        )
      ]

  by_id-build_distinct :
      (cs : List (MemoryCapsule F32)) → distinct cs ≡ true → length (build p cs).by_id ≡ length cs
  unfolding build Map.get
  by_id-build_distinct cs h =
      omega (arith, length-by_id_distinct cs 0 (start p cs) h (λ id there. refl))

  -- Capsules whose ids are distinct make a segment of them.
  pub from_capsules-distinct :
      (cs : List (MemoryCapsule F32)) (epoch : ℕ)
      → distinct cs ≡ true
      → (s : Segment F32) × (from_capsules p cs epoch ≡ ok s) × (s.capsules ≡ cs)
  unfolding from_capsules
  from_capsules-distinct cs epoch h =
      let count = by_id-build_distinct cs h in
      let full : (length (build p cs).by_id == length cs) ≡ true = ground (arith, count) in
      (
        record { epoch = epoch; tenant_id = first_tenant cs; capsules = cs; index = build p cs },
        rw full refl,
        refl,
      )
