-- ===== src/Store/Modes/Gated.antt =====
-- crates/l5m-core/src/store.rs, retrieve_fusion: the capsules behind its entries.
use l5m.Prelude.{ℕ, ◌≡◌, Bool, true, false, some, List, [], get_elem?, All}
use l5m.Prelude.Map
use l5m.Prelude.Map.{Map, AllValues}
use l5m.Sorting.{is_total_order}
use l5m.Platform.{Platform}
use l5m.Capsule.{MemoryCapsule}
use l5m.Frame.{FrameCapsule, MemoryProbe}
use l5m.Segment.Query.{Segment}
use l5m.Retrieve.Gates.{passes_hard_gates}
use l5m.Retrieve.Rank.{frame_capsule}
use l5m.Store.{MemoryStore}
use l5m.Store.Compact.{live_segments}
use l5m.Store.Query.{compare_frame_capsules}
use l5m.Store.Modes.{Group, no_fusion, hard_gates_pass, fuse_segments}

-- The entry shows, with some score, a capsule of a live segment that passes the hard gates.
pub record IsGated {F : Type 0} (st : MemoryStore F) (probe : MemoryProbe F) (x : FrameCapsule F)
    : Type 0 where
  pub k : ℕ
  pub segment : Segment F
  pub live : get_elem? (live_segments st) k ≡ some segment
  pub i : ℕ
  pub source : MemoryCapsule F
  pub found : get_elem? segment.capsules i ≡ some source
  pub gated : passes_hard_gates source probe ≡ true
  pub shown : x ≡ frame_capsule source x.score []

module _ (p : Platform) (st : MemoryStore p.F32) (probe : MemoryProbe p.F32) where
  open p use {F32}

  -- Whatever score the capsule gets, its entry is gated.
  abbrev Gives : MemoryCapsule F32 → Type 0
  Gives c =
      (score : F32) → hard_gates_pass c probe ≡ true → IsGated st probe (frame_capsule c score [])

  -- Entries that show such capsules, whose scores do not compare in a total order.
  pub record IsUnsortable : Type 0 where
    pub entries : List (FrameCapsule F32)
    pub gated : All (IsGated st probe) entries
    pub unordered : is_total_order (compare_frame_capsules p) entries ≡ false

  abbrev scored : Bool → List (FrameCapsule F32)
  scored b = (fuse_segments p b probe (live_segments st) no_fusion).scored

  -- The best capsule of each group is gated.
  abbrev Grouped : Map (Group F32) → Type 0
  Grouped = AllValues (λ g. IsGated st probe g.best)
