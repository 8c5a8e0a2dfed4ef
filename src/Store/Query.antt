-- ===== src/Store/Query.antt =====
-- crates/l5m-core/src/store.rs: a query over all live segments, and the merging of their frames.
pub mod Visible
use l5m.Prelude.{
  ℕ, ◌+◌, max, compare, Ordering, Bool, true, false, not, ◌||◌, none, some, List, [], ◌∷◌, ◌++◌,
  if◌then◌else◌, length, set, take, filter,
}
use l5m.Prelude.Int.{compare_ℤ}
use l5m.Prelude.Map
use l5m.Prelude.Map.{Map}
use l5m.Prelude.Set
use l5m.Prelude.Sort.{then_with, or_equal}
use l5m.Sorting.{std_sort_by}
use l5m.Platform.{Platform, frame_entry}
use l5m.Outcome.{Outcome, ok, ◌>>=◌, for_each}
use l5m.Frame.{CoverageReport, FrameCapsule, MemoryFrame, MemoryProbe, no_coverage}
use l5m.Segment.Query.{Segment}
use l5m.Retrieve.Run.{retrieve}
use l5m.Store.{MemoryStore}
use l5m.Store.Compact.{live_segments}

add_coverage : CoverageReport → CoverageReport → CoverageReport
add_coverage a b = record {
  exact_entity_match = a.exact_entity_match || b.exact_entity_match;
  anchor_match_count = a.anchor_match_count + b.anchor_match_count;
  temporal_valid_count = a.temporal_valid_count + b.temporal_valid_count;
  trust_floor_met_count = a.trust_floor_met_count + b.trust_floor_met_count;
  context_valid_count = a.context_valid_count + b.context_valid_count;
  candidate_count_before_scoring =
      a.candidate_count_before_scoring + b.candidate_count_before_scoring;
}

module _ {F : Type 0} where
  -- One capsule of a frame, over the slots and the merged capsules: a later copy of an id
  -- overwrites an earlier one in its slot.
  merge_capsule : FrameCapsule F → Map ℕ × List (FrameCapsule F) → Map ℕ × List (FrameCapsule F)
  unfolding Map.get Map.insert
  merge_capsule c (slot_of, merged) = elim (Map.get c.capsule_id slot_of) [
    | some i ↦ (slot_of, set merged i c)
    | none ↦ (Map.insert c.capsule_id (length merged) slot_of, merged ++ c ∷ [])
  ]

  merge_capsules :
      List (FrameCapsule F) → Map ℕ × List (FrameCapsule F) → Map ℕ × List (FrameCapsule F)
  unfolding merge_capsule
  merge_capsules [] st = st
  merge_capsules (c ∷ cs) st = merge_capsules cs (merge_capsule c st)

  -- One frame of the loop.
  merge_frame : MemoryFrame F → MemoryFrame F × Map ℕ → MemoryFrame F × Map ℕ
  unfolding merge_capsules add_coverage
  merge_frame frame (merged, slot_of) =
      let (slot_of', capsules') = merge_capsules frame.capsules (slot_of, merged.capsules) in
      (
        record merged {
          epoch = max merged.epoch frame.epoch;
          conflicts = merged.conflicts ++ frame.conflicts;
          coverage = add_coverage merged.coverage frame.coverage;
          capsules = capsules';
        },
        slot_of',
      )

  merge_all : List (MemoryFrame F) → MemoryFrame F × Map ℕ → MemoryFrame F × Map ℕ
  unfolding merge_frame
  merge_all [] st = st
  merge_all (frame ∷ frames) st = merge_all frames (merge_frame frame st)

  -- `retain(|c| !tombstones.contains(&c.capsule_id) && seen.insert(c.capsule_id))`.
  retain_first : List ℕ → List ℕ → List (FrameCapsule F) → List (FrameCapsule F)
  unfolding Set.contains Set.insert
  retain_first tombstones seen [] = []
  retain_first tombstones seen (c ∷ cs) =
      if Set.contains c.capsule_id tombstones || Set.contains c.capsule_id seen
      then retain_first tombstones seen cs
      else c ∷ retain_first tombstones (Set.insert c.capsule_id seen) cs

  pub apply_tombstones_and_dedup : List ℕ → ℕ → MemoryFrame F → MemoryFrame F
  unfolding retain_first
  apply_tombstones_and_dedup tombstones limit frame = record frame {
    capsules = take limit (retain_first tombstones [] frame.capsules);
    conflicts = filter (λ c. not (Set.contains c.capsule_id tombstones)) frame.conflicts;
  }

module _ (p : Platform) where
  open p use {F32}

  unfoldable pub compare_frame_capsules : FrameCapsule F32 → FrameCapsule F32 → Ordering
  compare_frame_capsules left right = then_with (or_equal (p.compare right.score left.score)) (
      then_with (compare right.trust_level left.trust_level)
        (compare_ℤ right.valid_from left.valid_from))

  -- `sort_by(compare_frame_capsules)`.
  unfoldable pub sort_entries : List (FrameCapsule F32) → Outcome (List (FrameCapsule F32))
  unfolding std_sort_by compare_frame_capsules
  sort_entries = std_sort_by compare_frame_capsules (p.unordered frame_entry)

  pub merge_frames : List (MemoryFrame F32) → MemoryProbe F32 → Outcome (MemoryFrame F32)
  unfolding merge_all sort_entries
  merge_frames frames probe =
      let none_yet : MemoryFrame F32 = record {
        epoch = 0;
        query_hash = p.blake3 probe.query_text;
        capsules = [];
        conflicts = [];
        coverage = no_coverage;
      } in
      let merged = (merge_all frames (none_yet, [])).0 in
      sort_entries merged.capsules >>= λ sorted.
      ok (record merged { capsules = take probe.max_capsules sorted })

  -- One segment of the loop of `retrieve_l5m`.
  push_frame :
      MemoryProbe F32 → Segment F32 → List (MemoryFrame F32) → Outcome (List (MemoryFrame F32))
  unfolding retrieve
  push_frame probe segment frames = do frame ← retrieve p segment probe; ok (frames ++ frame ∷ [])

  pub retrieve_l5m : MemoryStore F32 → MemoryProbe F32 → Outcome (MemoryFrame F32)
  unfolding push_frame merge_frames for_each
  retrieve_l5m st probe = do
    frames ← for_each (push_frame probe) (live_segments st) []
    merge_frames frames probe

  -- The frame of `query` in the mode L5m.
  pub query_l5m : MemoryStore F32 → MemoryProbe F32 → Outcome (MemoryFrame F32)
  unfolding retrieve_l5m apply_tombstones_and_dedup
  query_l5m st probe = do
    frame ← retrieve_l5m st probe
    ok (apply_tombstones_and_dedup st.tombstones probe.max_capsules frame)
