-- ===== src/Store/Query/Visible.antt =====
-- crates/l5m-core/src/store.rs, apply_tombstones_and_dedup: what a caller may see.
use l5m.Prelude.{
  ℕ, zero, suc, ◌≤◌, ◌≡◌, refl, ap, Bool, true, false, not, ◌||◌, ◌&&◌, List, [], ◌∷◌, ◌==◌,
  ==_refl, inl, inr, Bool-cases, any, length, take, length-take-le, filter, All, All-take, arith,
}
use l5m.Prelude.Set
use l5m.Prelude.Set.{contains-insert}
use l5m.Frame.{FrameCapsule, MemoryFrame}
use l5m.Store.Query.{retain_first, apply_tombstones_and_dedup}

module _ {F : Type 0} (tombstones : List ℕ) where
  -- The entry is not of a deleted id.
  abbrev pub IsLive : FrameCapsule F → Type 0
  IsLive c = Set.contains c.capsule_id tombstones ≡ false

  abbrev has_id : ℕ → List (FrameCapsule F) → Bool
  has_id id = any (λ x. x.capsule_id == id)

  abbrev once : List (FrameCapsule F) → Bool
  once [] = true
  once (x ∷ xs) = not (has_id x.capsule_id xs) && once xs

  retain_first-IsLive :
      (seen : List ℕ) (cs : List (FrameCapsule F)) → All IsLive (retain_first tombstones seen cs)
  unfolding retain_first
  retain_first-IsLive seen [] = tt
  retain_first-IsLive seen (c ∷ cs) =
      elim (Bool-cases (Set.contains c.capsule_id tombstones || Set.contains c.capsule_id seen)) [
        | inl skip ↦ rw skip (retain_first-IsLive seen cs)
        | inr keep ↦
            rw keep (ground (arith, keep), retain_first-IsLive (Set.insert c.capsule_id seen) cs)
      ]

  -- A seen id does not come again.
  has_id-retain_first :
      (id : ℕ) (seen : List ℕ) (cs : List (FrameCapsule F))
      → Set.contains id seen ≡ true
      → has_id id (retain_first tombstones seen cs) ≡ false
  unfolding retain_first
  has_id-retain_first id seen [] h = refl
  has_id-retain_first id seen (c ∷ cs) h =
      elim (Bool-cases (Set.contains c.capsule_id tombstones || Set.contains c.capsule_id seen)) [
        | inl skip ↦ rw skip (has_id-retain_first id seen cs h)
        | inr keep ↦
            let added = contains-insert c.capsule_id id seen in
            let rest =
              has_id-retain_first id (Set.insert c.capsule_id seen) cs (ground (arith, added, h)) in
            elim (Bool-cases (c.capsule_id == id)) [
              | inl same ↦
                  let e : c.capsule_id ≡ id = ground (arith, same) in
                  let fresh : Set.contains c.capsule_id seen ≡ Set.contains id seen =
                    ap (λ k. Set.contains k seen) e in
                  absurd (ground (arith, keep, h, fresh))
              | inr other ↦ rw (keep, other) rest
            ]
      ]

  once-retain_first :
      (seen : List ℕ) (cs : List (FrameCapsule F)) → once (retain_first tombstones seen cs) ≡ true
  unfolding retain_first
  once-retain_first seen [] = refl
  once-retain_first seen (c ∷ cs) =
      elim (Bool-cases (Set.contains c.capsule_id tombstones || Set.contains c.capsule_id seen)) [
        | inl skip ↦ rw skip (once-retain_first seen cs)
        | inr keep ↦
            let seen' = Set.insert c.capsule_id seen in
            let added : Set.contains c.capsule_id seen' ≡ true =
              ground
                (arith, contains-insert c.capsule_id c.capsule_id seen, ==_refl c.capsule_id) in
            let gone = has_id-retain_first c.capsule_id seen' cs added in
            rw keep (ground (arith, gone, once-retain_first seen' cs))
      ]

  has_id-take :
      (id n : ℕ) (xs : List (FrameCapsule F)) → has_id id xs ≡ false → has_id id (take n xs) ≡ false
  has_id-take id zero xs h = refl
  has_id-take id (suc n) [] h = refl
  has_id-take id (suc n) (x ∷ xs) h = ground (arith, h, has_id-take id n xs)

  once-take : (n : ℕ) (xs : List (FrameCapsule F)) → once xs ≡ true → once (take n xs) ≡ true
  once-take zero xs h = refl
  once-take (suc n) [] h = refl
  once-take (suc n) (x ∷ xs) h = ground (arith, h, once-take n xs, has_id-take x.capsule_id n xs)

  filter-IsLive :
      (xs : List (FrameCapsule F))
      → All IsLive (filter (λ c. not (Set.contains c.capsule_id tombstones)) xs)
  filter-IsLive [] = tt
  filter-IsLive (x ∷ xs) = elim (Bool-cases (Set.contains x.capsule_id tombstones)) [
    | inl dead ↦ rw dead (filter-IsLive xs)
    | inr alive ↦ rw alive (alive, filter-IsLive xs)
  ]

  -- What the caller gets of a frame.
  pub record IsVisible (limit : ℕ) (frame : MemoryFrame F) : Type 0 where
    pub live : All IsLive frame.capsules
    pub live_conflicts : All IsLive frame.conflicts
    pub no_duplicates : once frame.capsules ≡ true
    pub limited : length frame.capsules ≤ limit

-- Whatever frame the segments give, after the last pass no capsule and no conflict has a deleted
-- id, no two capsules have the same id, and there are at most as many capsules as the limit.
pub apply_tombstones_and_dedup-IsVisible :
    {F : Type 0} (tombstones : List ℕ) (limit : ℕ) (frame : MemoryFrame F)
    → IsVisible tombstones limit (apply_tombstones_and_dedup tombstones limit frame)
unfolding apply_tombstones_and_dedup
apply_tombstones_and_dedup-IsVisible tombstones limit frame =
    let kept = retain_first tombstones [] frame.capsules in
    record {
      live =
          All-take (IsLive tombstones) limit kept
            (retain_first-IsLive tombstones [] frame.capsules);
      live_conflicts = filter-IsLive tombstones frame.conflicts;
      no_duplicates =
          once-take tombstones limit kept (once-retain_first tombstones [] frame.capsules);
      limited = length-take-le limit kept;
    }
