-- ===== src/Store/Replay/Points.antt =====
-- crates/l5m-core/src/store.rs, open_durable: the map of ids and the slots that it points to.
use l5m.Prelude.{
  ℕ, ◌<◌, ◌≡◌, ◌≢◌, refl, sym, ap, ◌∙◌, Bool, true, false, Option, none, some, List, [], ◌∷◌, ◌++◌,
  ◌==◌, inl, inr, Bool-cases, Option-cases, if◌then◌else◌, length, set, get_elem?, get_elem?_lt,
  get_elem?-append_left, get_elem?-append_end, get_elem?-set_self, get_elem?-set_ne, arith,
}
use l5m.Prelude.Map
use l5m.Prelude.Map.{Map, get-insert, get-remove}
use l5m.Capsule.{MemoryCapsule}

abbrev pub id_of : {F : Type 0} → Option (MemoryCapsule F) → ℕ
id_of none = 0
id_of (some c) = c.capsule_id

module _ {F : Type 0} where
  -- The map points each id to a slot with a capsule of that id.
  abbrev pub Points : Map ℕ → List (MemoryCapsule F) → Type 0
  Points by_id delta =
      (id i : ℕ)
      → Map.get id by_id ≡ some i
      → (c : MemoryCapsule F) × (get_elem? delta i ≡ some c) × (c.capsule_id ≡ id)

  -- The capsule in the slot of an id.
  abbrev pub slot : List (MemoryCapsule F) → Option ℕ → Option (MemoryCapsule F)
  slot delta none = none
  slot delta (some i) = get_elem? delta i

  -- A write to the slots: the map points into them, and only the id has changed.
  abbrev pub Written :
      (ℕ → Option (MemoryCapsule F))
      → ℕ
      → Option (MemoryCapsule F)
      → Map ℕ
      → List (MemoryCapsule F)
      → Type 0
  Written old id now by_id delta =
      Points by_id delta
      × ((k : ℕ) → slot delta (Map.get k by_id) ≡ (if id == k then now else old k))

  module _ (by_id : Map ℕ) (delta : List (MemoryCapsule F)) (v : Points by_id delta) where
    abbrev pub held : ℕ → Option (MemoryCapsule F)
    held k = slot delta (Map.get k by_id)

    pub overwrite :
        (c : MemoryCapsule F) (pos : ℕ)
        → Map.get c.capsule_id by_id ≡ some pos
        → Written held c.capsule_id (some c) by_id (set delta pos c)
    overwrite c pos e = (points, now)
      where
        lt : pos < length delta
        lt = let (d, at_pos, same) = v c.capsule_id pos e in get_elem?_lt delta pos at_pos

        -- Two ids do not share a slot.
        apart : (k : ℕ) → (c.capsule_id == k) ≡ false → (i : ℕ) → Map.get k by_id ≡ some i → pos ≢ i
        apart k other i e' same_pos =
            let (d, at_pos, same) = v c.capsule_id pos e in
            let (d', at_i, same') = v k i e' in
            let eq : some d ≡ some d' = sym at_pos ∙ ap (get_elem? delta) same_pos ∙ at_i in
            let ids : c.capsule_id ≡ k = sym same ∙ ap (λ o. id_of o) eq ∙ same' in
            absurd (ground (arith, other, ids))

        -- The id of the capsule points to its slot, by whatever path it is named.
        at_slot : (k : ℕ) → (c.capsule_id == k) ≡ true → Map.get k by_id ≡ some pos
        at_slot k same =
            let ids : c.capsule_id ≡ k = ground (arith, same) in
            sym (ap (λ j. Map.get j by_id) ids) ∙ e

        points : Points by_id (set delta pos c)
        points k i e' = elim (Bool-cases (c.capsule_id == k)) [
          | inl same ↦
              let eq : some pos ≡ some i = sym (at_slot k same) ∙ e' in
              let here : i ≡ pos = ground (arith, eq) in
              (
                c,
                ap (get_elem? (set delta pos c)) here ∙ get_elem?-set_self delta pos c lt,
                ground (arith, same),
              )
          | inr other ↦
              let (d, at_i, same) = v k i e' in
              (d, get_elem?-set_ne delta pos i c (apart k other i e') ∙ at_i, same)
        ]

        now :
            (k : ℕ)
            → slot (set delta pos c) (Map.get k by_id)
              ≡ (if c.capsule_id == k then some c else held k)
        now k = elim (Bool-cases (c.capsule_id == k)) [
          | inl same ↦
              rw same
                (ap (slot (set delta pos c)) (at_slot k same) ∙ get_elem?-set_self delta pos c lt)
          | inr other ↦ elim (Option-cases (Map.get k by_id)) [
            | inl missing ↦ rw (other, missing) refl
            | inr (i, e') ↦ rw (other, e') (get_elem?-set_ne delta pos i c (apart k other i e'))
          ]
        ]

    pub append :
        (c : MemoryCapsule F)
        → Map.get c.capsule_id by_id ≡ none
        → Written held c.capsule_id
            (some c)
            (Map.insert c.capsule_id (length delta) by_id)
            (delta ++ c ∷ [])
    append c e = (points, now)
      where
        inserted :
            (k : ℕ)
            → Map.get k (Map.insert c.capsule_id (length delta) by_id)
              ≡ (if c.capsule_id == k then some (length delta) else Map.get k by_id)
        inserted k = get-insert c.capsule_id k (length delta) by_id

        points : Points (Map.insert c.capsule_id (length delta) by_id) (delta ++ c ∷ [])
        points k i e' = elim (Bool-cases (c.capsule_id == k)) [
          | inl same ↦
              let eq : some (length delta) ≡ some i = sym (inserted k ∙ (rw same refl)) ∙ e' in
              let here : i ≡ length delta = ground (arith, eq) in
              (
                c,
                ap (get_elem? (delta ++ c ∷ [])) here ∙ get_elem?-append_end delta c [],
                ground (arith, same),
              )
          | inr other ↦
              let old : Map.get k by_id ≡ some i = sym (inserted k ∙ (rw other refl)) ∙ e' in
              let (d, at_i, same) = v k i old in
              (d, get_elem?-append_left delta (c ∷ []) i (get_elem?_lt delta i at_i) ∙ at_i, same)
        ]

        now :
            (k : ℕ)
            → slot (delta ++ c ∷ []) (Map.get k (Map.insert c.capsule_id (length delta) by_id))
              ≡ (if c.capsule_id == k then some c else held k)
        now k = ap (slot (delta ++ c ∷ [])) (inserted k) ∙ elim (Bool-cases (c.capsule_id == k)) [
          | inl same ↦ rw same (get_elem?-append_end delta c [])
          | inr other ↦ elim (Option-cases (Map.get k by_id)) [
            | inl missing ↦ rw (other, missing) refl
            | inr (i, e') ↦
                let (d, at_i, same) = v k i e' in
                rw (other, e') (get_elem?-append_left delta (c ∷ []) i (get_elem?_lt delta i at_i))
          ]
        ]

    pub forget : (id : ℕ) → Written held id none (Map.remove id by_id) delta
    forget id = (points, now)
      where
        points : Points (Map.remove id by_id) delta
        points k i e' = elim (Bool-cases (id == k)) [
          | inl same ↦ absurd (ground (arith, get-remove id k by_id, same, e'))
          | inr other ↦ v k i (sym (get-remove id k by_id ∙ (rw other refl)) ∙ e')
        ]

        now :
            (k : ℕ)
            → slot delta (Map.get k (Map.remove id by_id)) ≡ (if id == k then none else held k)
        now k = ap (slot delta) (get-remove id k by_id) ∙ by_id_of (id == k)
          where
            by_id_of :
                (b : Bool)
                → slot delta (if b then none else Map.get k by_id) ≡ (if b then none else held k)
            by_id_of true = refl
            by_id_of false = refl
