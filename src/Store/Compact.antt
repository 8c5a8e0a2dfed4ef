-- ===== src/Store/Compact.antt =====
-- crates/l5m-core/src/store.rs: the live capsules, and the compactions that keep them.
use l5m.Prelude.{
  true, false, ℕ, Bool, ◌||◌, none, some, List, [], ◌∷◌, ◌++◌, if◌then◌else◌, leb, length,
}
use l5m.Prelude.Set
use l5m.Platform.{Platform}
use l5m.Outcome.{Outcome, ok, ◌>>=◌}
use l5m.Capsule.{MemoryCapsule}
use l5m.Segment.Query.{Segment, from_capsules}
use l5m.Store.{MemoryStore, LoadedSegment}
use l5m.Store.Buffer.{next}

module _ {F : Type 0} where
  -- The capsules of the runs, the last run first.
  unfoldable pub runs_newest_first : List (Segment F) → List (MemoryCapsule F)
  runs_newest_first [] = []
  runs_newest_first (run ∷ runs) = runs_newest_first runs ++ run.capsules

  unfoldable pub base_capsules : List (LoadedSegment F) → List (MemoryCapsule F)
  base_capsules [] = []
  base_capsules (loaded ∷ rest) = loaded.segment.capsules ++ base_capsules rest

  -- The calls of the closure `take`: the first capsule of each id stays, unless it is hidden.
  unfoldable pub take_live : List ℕ → List ℕ → List (MemoryCapsule F) → List (MemoryCapsule F)
  unfolding Set.contains Set.insert
  take_live tombstones seen [] = []
  take_live tombstones seen (c ∷ cs) =
      if Set.contains c.capsule_id tombstones || Set.contains c.capsule_id seen
      then take_live tombstones seen cs
      else c ∷ take_live tombstones (Set.insert c.capsule_id seen) cs

  unfoldable pub collect_live : Bool → MemoryStore F → List (MemoryCapsule F)
  unfolding runs_newest_first base_capsules take_live
  collect_live include_base st = take_live st.tombstones [] (
      st.delta
      ++ runs_newest_first st.sealed_deltas
      ++ (if include_base then base_capsules st.segments else []))

  unfoldable pub clear_delta_state : MemoryStore F → MemoryStore F
  clear_delta_state st = record st {
    delta = [];
    sealed_deltas = [];
    delta_segment = none;
    tombstones = [];
  }

  loaded_segments : List (LoadedSegment F) → List (Segment F)
  loaded_segments [] = []
  loaded_segments (loaded ∷ rest) = loaded.segment ∷ loaded_segments rest

  -- All queryable segments, the oldest first.
  pub live_segments : MemoryStore F → List (Segment F)
  unfolding loaded_segments
  live_segments st =
      let active : List (Segment F) = elim st.delta_segment [
        | none ↦ []
        | some delta ↦ delta ∷ []
      ] in
      loaded_segments st.segments ++ st.sealed_deltas ++ active

module _ (p : Platform) where
  open p use {F32}

  unfoldable pub compact : MemoryStore F32 → Outcome (MemoryStore F32)
  unfolding from_capsules
  compact st = do
    compacted ← from_capsules p (collect_live true st) st.next_epoch
    let adopted = clear_delta_state st
    ok (record adopted {
      segments = record { path = none; segment = compacted } ∷ [];
      next_epoch = next st.next_epoch;
    })

  -- `if live.is_empty() { Vec::new() } else { vec![Segment::from_capsules(live, epoch)?] }`.
  unfoldable pub merged_runs : List (MemoryCapsule F32) → ℕ → Outcome (List (Segment F32))
  unfolding from_capsules
  merged_runs [] epoch = ok []
  merged_runs (c ∷ cs) epoch = do run ← from_capsules p (c ∷ cs) epoch; ok (run ∷ [])

  unfoldable pub compact_delta : MemoryStore F32 → Outcome (MemoryStore F32)
  unfolding merged_runs
  compact_delta st = elim st.sealed_deltas [
    | [] ↦ ok st
    | run ∷ runs ↦ do
      merged ← merged_runs (collect_live false st) st.next_epoch
      ok (record st {
        delta = [];
        delta_segment = none;
        sealed_deltas = merged;
        next_epoch = next st.next_epoch;
      })
  ]

  unfoldable pub maybe_auto_compact : MemoryStore F32 → Outcome (MemoryStore F32)
  unfolding compact_delta
  maybe_auto_compact st = elim st.auto_compact_runs [
    | none ↦ ok st
    | some threshold ↦ if leb threshold (length st.sealed_deltas) then compact_delta st else ok st
  ]
