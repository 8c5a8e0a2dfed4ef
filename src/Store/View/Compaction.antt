-- ===== src/Store/View/Compaction.antt =====
-- crates/l5m-core/src/store.rs: compact and compact_delta on what the store holds.
use l5m.Prelude.{
  ℕ, ◌≡◌, refl, ap, ◌∙◌, true, false, none, List, [], ◌∷◌, ◌++◌, append-nil, if◌then◌else◌, arith,
}
use l5m.Prelude.Set
use l5m.Platform.{Platform}
use l5m.Outcome.{ok, ◌>>=◌}
use l5m.Capsule.{MemoryCapsule}
use l5m.Segment.Query.{Segment}
use l5m.Segment.Ids.{find, distinct, find-append, from_capsules-distinct}
use l5m.Store.{MemoryStore}
use l5m.Store.Buffer.{next}
use l5m.Store.Compact.{
  runs_newest_first, base_capsules, collect_live, clear_delta_state, compact, merged_runs,
  compact_delta,
}
use l5m.Store.View.{versions, view, find-take_live, distinct-take_live}
use l5m.Store.View.Writes.{IsDistinct, Holds}

module _ (p : Platform) (st : MemoryStore p.F32) where
  open p use {F32}

  find-collect_live : (id : ℕ) → find id (collect_live true st) ≡ view st id
  unfolding collect_live Set.contains
  find-collect_live id = find-take_live id st.tombstones [] (versions st) ∙ ground arith

  -- The store after `compact`, given the new base.
  based : Segment F32 → MemoryStore F32
  based compacted =
      let adopted = clear_delta_state st in
      record adopted {
        segments = record { path = none; segment = compacted } ∷ [];
        next_epoch = next st.next_epoch;
      }

  -- `compact` of any store returns a store whose buffer has no id twice and which holds what the old
  -- store held.
  pub compact-Holds : Holds (compact p st) (view st)
  unfolding compact based clear_delta_state runs_newest_first base_capsules Set.contains
  compact-Holds =
      let live = collect_live true st in
      let once : distinct live ≡ true =
        unfold collect_live in distinct-take_live st.tombstones [] (versions st) in
      let (run, e, same) = from_capsules-distinct p live st.next_epoch once in
      (
        based run,
        ap (λ m. m >>= λ r. ok (based r)) e,
        refl,
        λ id. ap (find id) (append-nil run.capsules ∙ same) ∙ find-collect_live id,
      )

  -- The store after `compact_delta`, given the merged runs.
  merged : List (Segment F32) → MemoryStore F32
  merged runs = record st {
    delta = [];
    delta_segment = none;
    sealed_deltas = runs;
    next_epoch = next st.next_epoch;
  }

  merged_runs_lem :
      (live : List (MemoryCapsule F32)) (epoch : ℕ)
      → distinct live ≡ true
      → (runs : List (Segment F32)) × (merged_runs p live epoch ≡ ok runs)
        × (runs_newest_first runs ≡ live)
  unfolding merged_runs runs_newest_first
  merged_runs_lem [] epoch h = ([], refl, refl)
  merged_runs_lem (c ∷ cs) epoch h =
      let (run, e, same) = from_capsules-distinct p (c ∷ cs) epoch h in
      (run ∷ [], ap (λ m. m >>= λ r. ok (r ∷ [])) e, same)

  distinct-delta_live : distinct (collect_live false st) ≡ true
  unfolding collect_live
  distinct-delta_live = distinct-take_live st.tombstones [] _

  find-delta_live :
      (id : ℕ)
      → find id (collect_live false st) ≡ (
          if Set.contains id st.tombstones
          then none
          else find id (st.delta ++ runs_newest_first st.sealed_deltas))
  unfolding collect_live Set.contains
  find-delta_live id =
      find-take_live id st.tombstones [] (st.delta ++ runs_newest_first st.sealed_deltas ++ [])
      ∙ (rw append-nil (ground arith))

  view-merged :
      (runs : List (Segment F32)) (id : ℕ)
      → runs_newest_first runs ≡ collect_live false st
      → view (merged runs) id ≡ view st id
  unfolding merged
  view-merged runs id e =
      let base = base_capsules st.segments in
      let live = ap (find id) e ∙ find-delta_live id in
      ground (
        arith,
        live,
        find-append id (runs_newest_first runs) base,
        find-append id (st.delta ++ runs_newest_first st.sealed_deltas) base,
      )

  -- If no id comes twice in the write buffer, `compact_delta` returns a store with such a buffer,
  -- which holds what the old store held.
  pub compact_delta-Holds : IsDistinct st → Holds (compact_delta p st) (view st)
  unfolding compact_delta merged
  compact_delta-Holds h = by_runs st.sealed_deltas
    where
      by_runs :
          (rs : List (Segment F32))
          → Holds
              (elim rs [
                | [] ↦ ok st
                | r ∷ rs' ↦
                    merged_runs p (collect_live false st) st.next_epoch >>= λ m. ok (merged m)
              ])
              (view st)
      by_runs [] = (st, refl, h, λ id. refl)
      by_runs (r ∷ rs) =
          let (runs, e, same) =
            merged_runs_lem (collect_live false st) st.next_epoch distinct-delta_live in
          (
            merged runs,
            ap (λ m. m >>= λ m'. ok (merged m')) e,
            refl,
            λ id. view-merged runs id same,
          )
