-- ===== src/Store/View.antt =====
-- crates/l5m-core/src/store.rs: what a store holds, as a function from ids to capsules.
pub mod Indexed
pub mod Writes
pub mod Compaction
pub mod Insert
use l5m.Prelude.{
  ℕ, ◌≡◌, refl, ap, ◌∙◌, Bool, true, false, not, ◌||◌, Option, none, some, List, [], ◌∷◌, ◌++◌,
  ◌==◌, ==_refl, ◌&&◌, is_some, inl, inr, Bool-cases, if◌then◌else◌, arith,
}
use l5m.Prelude.Set
use l5m.Prelude.Set.{contains-insert}
use l5m.Capsule.{MemoryCapsule}
use l5m.Segment.Ids.{find, distinct}
use l5m.Store.{MemoryStore}
use l5m.Store.Buffer.{without_id}
use l5m.Store.Compact.{runs_newest_first, base_capsules, take_live}

module _ {F : Type 0} where
  -- All versions, the newest first.
  abbrev pub versions : MemoryStore F → List (MemoryCapsule F)
  versions st = st.delta ++ runs_newest_first st.sealed_deltas ++ base_capsules st.segments

  -- What the store holds at an id.
  abbrev pub view : MemoryStore F → ℕ → Option (MemoryCapsule F)
  view st id = if Set.contains id st.tombstones then none else find id (versions st)

  -- What `take` keeps of an id is its first capsule, unless it is hidden or was seen.
  pub find-take_live :
      (id : ℕ) (tombstones seen : List ℕ) (cs : List (MemoryCapsule F))
      → find id (take_live tombstones seen cs)
        ≡ (if Set.contains id tombstones || Set.contains id seen then none else find id cs)
  unfolding take_live
  find-take_live id tombstones seen [] = ground arith
  find-take_live id tombstones seen (c ∷ cs) =
      let skip = find-take_live id tombstones seen cs in
      let keep = find-take_live id tombstones (Set.insert c.capsule_id seen) cs in
      let added = contains-insert c.capsule_id id seen in
      elim (Bool-cases (c.capsule_id == id)) [
        | inl same ↦
            let e : c.capsule_id ≡ id = ground (arith, same) in
            let hidden : (Set.contains c.capsule_id tombstones || Set.contains c.capsule_id seen)
                ≡ (Set.contains id tombstones || Set.contains id seen) =
              ap (λ k. Set.contains k tombstones || Set.contains k seen) e in
            elim (Bool-cases (Set.contains id tombstones || Set.contains id seen)) [
              | inl yet ↦ rw (hidden, yet) (skip ∙ ap (λ b. if b then none else find id cs) yet)
              | inr not_yet ↦ rw (hidden, not_yet) (ground (arith, same))
            ]
        | inr other ↦
            elim (Bool-cases
              (Set.contains c.capsule_id tombstones || Set.contains c.capsule_id seen)) [
                | inl yet ↦ rw (yet, other) skip
                | inr not_yet ↦ rw (not_yet, other) (keep ∙ ground (arith, added, other))
              ]
      ]

  -- No id comes twice among the live capsules.
  pub distinct-take_live :
      (tombstones seen : List ℕ) (cs : List (MemoryCapsule F))
      → distinct (take_live tombstones seen cs) ≡ true
  unfolding take_live
  distinct-take_live tombstones seen [] = refl
  distinct-take_live tombstones seen (c ∷ cs) =
      elim (Bool-cases (Set.contains c.capsule_id tombstones || Set.contains c.capsule_id seen)) [
        | inl yet ↦ rw yet (distinct-take_live tombstones seen cs)
        | inr not_yet ↦
            let rest = distinct-take_live tombstones (Set.insert c.capsule_id seen) cs in
            let once = find-take_live c.capsule_id tombstones (Set.insert c.capsule_id seen) cs in
            let added = contains-insert c.capsule_id c.capsule_id seen in
            rw not_yet (ground (arith, rest, once, added, ==_refl c.capsule_id))
      ]
