-- ===== src/Store/Replay/Slots.antt =====
-- crates/l5m-core/src/store.rs, open_durable: the choice of the canonical slots.
use l5m.Prelude.{
  ℕ, zero, suc, ◌+◌, ◌-◌, ◌≡◌, refl, sym, ap, ◌∙◌, true, false, Option, none, some, List, [], ◌∷◌,
  ◌==◌, inl, inr, Bool-cases, if◌then◌else◌, ltb, get_elem?, arith,
}
use l5m.Prelude.Map
use l5m.Prelude.Map.{Map, get-insert, get-remove}
use l5m.Capsule.{MemoryCapsule}
use l5m.Segment.Ids.{find, distinct}
use l5m.Store.Replay.{canonical, canonical_slots}

canonical-some : (o : Option ℕ) (pos : ℕ) → canonical o pos ≡ true → o ≡ some pos
unfolding canonical
canonical-some none pos h = absurd (ground (arith, h))
canonical-some (some i) pos h = ap some (ground (arith, h))

module _ {F : Type 0} where
  -- The slot at or after `pos`, in the list of the slots from there.
  abbrev pub slot_from : ℕ → List (MemoryCapsule F) → Option ℕ → Option (MemoryCapsule F)
  slot_from pos cs none = none
  slot_from pos cs (some i) = if ltb i pos then none else get_elem? cs (i - pos)

  slot_from-here :
      (pos : ℕ) (c : MemoryCapsule F) (cs : List (MemoryCapsule F))
      → slot_from pos (c ∷ cs) (some pos) ≡ some c
  slot_from-here pos c cs = let zeroth : pos - pos ≡ 0 = omega arith in rw zeroth (ground arith)

  slot_from-skip :
      (pos : ℕ) (c : MemoryCapsule F) (cs : List (MemoryCapsule F)) (o : Option ℕ)
      → canonical o pos ≡ false
      → slot_from pos (c ∷ cs) o ≡ slot_from (pos + 1) cs o
  unfolding canonical
  slot_from-skip pos c cs none h = refl
  slot_from-skip pos c cs (some i) h = by_gap (i - pos) refl
    where
      by_gap :
          (d : ℕ)
          → i - pos ≡ d
          → (if ltb i pos then none else get_elem? (c ∷ cs) d)
            ≡ (if ltb i (pos + 1) then none else get_elem? cs (i - (pos + 1)))
      by_gap zero e = ground (arith, h, e)
      by_gap (suc d) e = let less : i - (pos + 1) ≡ d = omega arith in rw less (ground (arith, e))

  pub find-canonical_slots :
      (by_id : Map ℕ) (id : ℕ) (cs : List (MemoryCapsule F)) (pos : ℕ)
      → ((i : ℕ) (c : MemoryCapsule F)
          → Map.get id by_id ≡ some (pos + i)
          → get_elem? cs i ≡ some c
          → c.capsule_id ≡ id)
      → find id (canonical_slots by_id pos cs) ≡ slot_from pos cs (Map.get id by_id)
  unfolding canonical_slots canonical
  find-canonical_slots by_id id [] pos h = by_slot (Map.get id by_id)
    where
      by_slot : (o : Option ℕ) → none ≡ slot_from pos [] o
      by_slot none = refl
      by_slot (some i) = ground arith
  find-canonical_slots by_id id (c ∷ cs) pos h =
      let rest =
        find-canonical_slots by_id id cs (pos + 1)
          (λ i d e. h (suc i) d (e ∙ ap some (omega arith))) in
      elim (Bool-cases (canonical (Map.get id by_id) pos)) [
        | inl here ↦
            let at_pos = canonical-some (Map.get id by_id) pos here in
            let same : c.capsule_id ≡ id = h 0 c (at_pos ∙ ap some (omega arith)) refl in
            let here' : canonical (Map.get c.capsule_id by_id) pos ≡ true =
              ap (λ k. canonical (Map.get k by_id) pos) same ∙ here in
            let hit : (c.capsule_id == id) ≡ true = ground (arith, same) in
            rw (here', hit, at_pos) (sym (slot_from-here pos c cs))
        | inr away ↦
            let skip = slot_from-skip pos c cs (Map.get id by_id) away in
            elim (Bool-cases (canonical (Map.get c.capsule_id by_id) pos)) [
              | inr dropped ↦ rw dropped (rest ∙ sym skip)
              | inl kept ↦ elim (Bool-cases (c.capsule_id == id)) [
                | inl same ↦
                    let e : c.capsule_id ≡ id = ground (arith, same) in
                    let both = ap (λ k. canonical (Map.get k by_id) pos) e in
                    absurd (ground (arith, kept, away, both))
                | inr other ↦ rw (kept, other) (rest ∙ sym skip)
              ]
            ]
      ]

  -- What comes after a slot does not have its id.
  pub distinct-canonical_slots :
      (by_id : Map ℕ) (cs : List (MemoryCapsule F)) (pos : ℕ)
      → ((i id : ℕ) (c : MemoryCapsule F)
          → Map.get id by_id ≡ some (pos + i)
          → get_elem? cs i ≡ some c
          → c.capsule_id ≡ id)
      → distinct (canonical_slots by_id pos cs) ≡ true
  unfolding canonical_slots canonical
  distinct-canonical_slots by_id [] pos h = refl
  distinct-canonical_slots by_id (c ∷ cs) pos h =
      let later =
        λ (i : ℕ) (id : ℕ) (d : MemoryCapsule F) (e : Map.get id by_id ≡ some (pos + 1 + i)).
          h (suc i) id d (e ∙ ap some (omega arith)) in
      let rest = distinct-canonical_slots by_id cs (pos + 1) later in
      let found =
        find-canonical_slots by_id c.capsule_id cs (pos + 1) (λ i d. later i c.capsule_id d) in
      elim (Bool-cases (canonical (Map.get c.capsule_id by_id) pos)) [
        | inr dropped ↦ rw dropped rest
        | inl kept ↦
            let at_pos = canonical-some (Map.get c.capsule_id by_id) pos kept in
            let gone : slot_from (pos + 1) cs (Map.get c.capsule_id by_id) ≡ none =
              ap (slot_from (pos + 1) cs) at_pos ∙ ground arith in
            let last : find c.capsule_id (canonical_slots by_id (pos + 1) cs) ≡ none =
              found ∙ gone in
            rw kept (ground (arith, rest, last))
      ]
