-- ===== src/Index/Build/Gates.antt =====
-- crates/l5m-core/src/index.rs: the rows, the postings of tenants and the map of ids.
use native.Mathlib.Nat.{add-zero}
use l5m.Prelude.{
  ℕ, zero, suc, ◌+◌, ◌%◌, ◌^◌, ◌≤◌, ◌≡◌, refl, sym, ap, ◌∙◌, Bool, true, false, none, some, List,
  [], ◌∷◌, ◌++◌, append-nil, append_assoc, map, ◌==◌, if◌then◌else◌, length, get_elem?, arith,
}
use l5m.Prelude.Map
use l5m.Prelude.Map.{Map, get-insert, length-insert, get-push}
use l5m.Platform.{Platform}
use l5m.Capsule.{MemoryCapsule}
use l5m.Index.Build.{SegmentIndex, gate_row, add_capsule, add_capsules, build}

module _ (p : Platform) where
  open p use {F32}

  gate_rows-add_capsules :
      (i : ℕ) (cs : List (MemoryCapsule F32)) (index : SegmentIndex F32)
      → (add_capsules p i cs index).gate_rows ≡ index.gate_rows ++ map gate_row cs
  unfolding add_capsules add_capsule
  gate_rows-add_capsules i [] index = sym (append-nil index.gate_rows)
  gate_rows-add_capsules i (c ∷ cs) index =
      gate_rows-add_capsules (i + 1) cs _ ∙ append_assoc index.gate_rows _ _

  fingerprints-add_capsules :
      (i : ℕ) (cs : List (MemoryCapsule F32)) (index : SegmentIndex F32)
      → (add_capsules p i cs index).fingerprints
        ≡ index.fingerprints ++ map (λ c. c.semantic_bits) cs
  unfolding add_capsules add_capsule
  fingerprints-add_capsules i [] index = sym (append-nil index.fingerprints)
  fingerprints-add_capsules i (c ∷ cs) index =
      fingerprints-add_capsules (i + 1) cs _ ∙ append_assoc index.fingerprints _ _

  -- The rows of the index are those of the capsules.
  pub gate_rows-build : (cs : List (MemoryCapsule F32)) → (build p cs).gate_rows ≡ map gate_row cs
  unfolding build
  gate_rows-build cs = gate_rows-add_capsules 0 cs _

  pub fingerprints-build :
      (cs : List (MemoryCapsule F32)) → (build p cs).fingerprints ≡ map (λ c. c.semantic_bits) cs
  unfolding build
  fingerprints-build cs = fingerprints-add_capsules 0 cs _

  -- The ordinals of a tenant's capsules, the first capsule having ordinal `i`.
  abbrev pub ordinals_of : ℕ → ℕ → List (MemoryCapsule F32) → List ℕ
  ordinals_of t i [] = []
  ordinals_of t i (c ∷ cs) =
      if c.tenant_id == t then i ∷ ordinals_of t (i + 1) cs else ordinals_of t (i + 1) cs

  tenant_postings-add_capsules :
      (t i : ℕ) (cs : List (MemoryCapsule F32)) (index : SegmentIndex F32)
      → i + length cs ≤ 2 ^ 32
      → Map.or_empty (Map.get t (add_capsules p i cs index).tenant_postings)
        ≡ Map.or_empty (Map.get t index.tenant_postings) ++ ordinals_of t i cs
  unfolding add_capsules add_capsule
  tenant_postings-add_capsules t i [] index h = sym (append-nil _)
  tenant_postings-add_capsules t i (c ∷ cs) index h =
      let narrow : i % 2 ^ 32 ≡ i = omega arith in
      tenant_postings-add_capsules t (i + 1) cs _ (omega arith)
      ∙ (rw (get-push, narrow)
          (split (c.tenant_id == t) (Map.or_empty (Map.get t index.tenant_postings))))
    where
      split :
          (b : Bool) (old : List ℕ)
          → (if b then old ++ i ∷ [] else old) ++ ordinals_of t (i + 1) cs
            ≡ old ++ (if b then i ∷ ordinals_of t (i + 1) cs else ordinals_of t (i + 1) cs)
      split true old = append_assoc old _ _
      split false old = refl

  -- With at most 2 ^ 32 capsules, a tenant's postings are exactly its capsules' ordinals, in order.
  pub tenant_postings-build :
      (t : ℕ) (cs : List (MemoryCapsule F32))
      → length cs ≤ 2 ^ 32
      → Map.or_empty (Map.get t (build p cs).tenant_postings) ≡ ordinals_of t 0 cs
  unfolding build Map.get
  tenant_postings-build t cs h = tenant_postings-add_capsules t 0 cs _ (omega arith)

  -- Ids are inserted one by one: the map can only be as long as the capsules are many, and it is if
  -- no id comes twice. Then nothing is overwritten.
  length-by_id :
      (i : ℕ) (cs : List (MemoryCapsule F32)) (index : SegmentIndex F32)
      → length (add_capsules p i cs index).by_id ≤ length index.by_id + length cs
  unfolding add_capsules add_capsule
  length-by_id i [] index = omega arith
  length-by_id i (c ∷ cs) index =
      let step = length-by_id (i + 1) cs (add_capsule p i c index) in
      ground (arith, step, length-insert c.capsule_id i index.by_id)

  new_id :
      (i : ℕ) (c : MemoryCapsule F32) (cs : List (MemoryCapsule F32)) (index : SegmentIndex F32)
      → length (add_capsules p i (c ∷ cs) index).by_id ≡ length index.by_id + suc (length cs)
      → (Map.get c.capsule_id index.by_id ≡ none)
        × (length (add_capsules p (i + 1) cs (add_capsule p i c index)).by_id
            ≡ length (add_capsule p i c index).by_id + length cs)
  unfolding add_capsules add_capsule
  new_id i c cs index h =
      let step = length-by_id (i + 1) cs (add_capsule p i c index) in
      ground (arith, step, length-insert c.capsule_id i index.by_id)

  by_id_keeps :
      (id v i : ℕ) (cs : List (MemoryCapsule F32)) (index : SegmentIndex F32)
      → length (add_capsules p i cs index).by_id ≡ length index.by_id + length cs
      → Map.get id index.by_id ≡ some v
      → Map.get id (add_capsules p i cs index).by_id ≡ some v
  unfolding add_capsules
  by_id_keeps id v i [] index h e = e
  by_id_keeps id v i (c ∷ cs) index h e =
      let (fresh, rest) = new_id i c cs index h in
      by_id_keeps id v (i + 1) cs (add_capsule p i c index) rest
        (unfold add_capsule in ground (arith, get-insert c.capsule_id id i index.by_id))

  by_id-add_capsules :
      (k i : ℕ) (cs : List (MemoryCapsule F32)) (index : SegmentIndex F32) {c : MemoryCapsule F32}
      → length (add_capsules p i cs index).by_id ≡ length index.by_id + length cs
      → get_elem? cs k ≡ some c
      → Map.get c.capsule_id (add_capsules p i cs index).by_id ≡ some (i + k)
  unfolding add_capsules
  by_id-add_capsules k i [] index h e = absurd (cc)
  by_id-add_capsules zero i (d ∷ cs) index {c} h e =
      let (fresh, rest) = new_id i d cs index h in
      by_id_keeps c.capsule_id (i + 0) (i + 1) cs (add_capsule p i d index) rest (
        unfold add_capsule in
        rw add-zero (ground (arith, get-insert d.capsule_id c.capsule_id i index.by_id)))
  by_id-add_capsules (suc k) i (d ∷ cs) index h e =
      let (fresh, rest) = new_id i d cs index h in
      by_id-add_capsules k (i + 1) cs (add_capsule p i d index) rest e ∙ ap some (omega arith)

  -- If the map of ids is as long as the capsules are many, each id is mapped to its capsule's
  -- ordinal.
  pub by_id-build :
      (cs : List (MemoryCapsule F32)) (k : ℕ) {c : MemoryCapsule F32}
      → length (build p cs).by_id ≡ length cs
      → get_elem? cs k ≡ some c
      → Map.get c.capsule_id (build p cs).by_id ≡ some k
  unfolding build
  by_id-build cs k h e = by_id-add_capsules k 0 cs _ (h ∙ omega arith) e ∙ ap some (omega arith)
