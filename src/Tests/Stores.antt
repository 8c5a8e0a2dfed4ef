-- ===== src/Tests/Stores.antt =====
-- A store with a base segment, a sealed run, a write buffer and a deletion.
use l5m.Prelude.{List, ℕ, refl, some, none, [], ◌∷◌, ◌==◌, if◌then◌else◌}
use l5m.Metrics.{no_metrics}
use l5m.Frame.{MemoryFrame, no_coverage}
use l5m.Retrieve.Rank.{frame_capsule}
use l5m.Segment.Ids.{find}
use l5m.Store.{MemoryStore, WalOp, insert as insert_op, delete as delete_op}
use l5m.Store.Replay.{open_durable}
use l5m.Store.Replay.Durable.{replayed, open_durable-Holds}
use l5m.Store.Query.{apply_tombstones_and_dedup}
use l5m.Store.Query.Visible.{IsVisible, apply_tombstones_and_dedup-IsVisible}
use l5m.Store.Compact.{base_capsules, compact, compact_delta}
use l5m.Store.Write.{insert, delete}
use l5m.Store.View.{view}
use l5m.Store.View.Indexed.{IsIndexed}
use l5m.Store.View.Writes.{Holds, delete-Holds}
use l5m.Store.View.Compaction.{compact-Holds, compact_delta-Holds}
use l5m.Store.View.Insert.{insert-Holds}
use l5m.Tests.{platform, note, old_note, segment}

-- The buffer has one capsule less than the threshold.
abbrev pub store : MemoryStore ℕ
store = record {
  segments = record { path = none; segment = segment } ∷ [];
  delta = note 21 7 [] ∷ [];
  delta_segment = none;
  sealed_deltas = segment ∷ [];
  seal_threshold = 2;
  auto_compact_runs = some 2;
  tombstones = 13 ∷ [];
  next_epoch = 3;
  metrics = no_metrics;
  wal = some [];
}

insert-Holds_example :
    (held : Holds
      (insert platform (note 13 7 []) store)
      (λ id. if 13 == id then some (note 13 7 []) else view store id))
    × IsIndexed platform held.0
insert-Holds_example = insert-Holds platform (note 13 7 []) store refl

delete-Holds_example :
    (held : Holds (delete platform 11 store) (λ k. if 11 == k then none else view store k))
    × IsIndexed platform held.0
delete-Holds_example = delete-Holds platform 11 store refl

compact-Holds_example : Holds (compact platform store) (view store)
compact-Holds_example = compact-Holds platform store

compact_delta-Holds_example : Holds (compact_delta platform store) (view store)
compact_delta-Holds_example = compact_delta-Holds platform store refl

abbrev frame : MemoryFrame ℕ
frame = record {
  epoch = 1;
  query_hash = [];
  capsules =
      frame_capsule old_note 1 []
      ∷ frame_capsule old_note 2 []
      ∷ frame_capsule (note 13 7 []) 3 []
      ∷ [];
  conflicts = [];
  coverage = no_coverage;
}

apply_tombstones_and_dedup-IsVisible_example :
    IsVisible (13 ∷ []) 2 (apply_tombstones_and_dedup (13 ∷ []) 2 frame)
apply_tombstones_and_dedup-IsVisible_example =
    apply_tombstones_and_dedup-IsVisible (13 ∷ []) 2 frame

-- Capsule 11 of the base is deleted, and capsule 21 comes twice.
abbrev log : List (WalOp ℕ)
log =
    insert_op (note 21 7 [])
    ∷ delete_op 11
    ∷ delete_op 21
    ∷ insert_op (note 21 8 [])
    ∷ insert_op (note 22 7 [])
    ∷ []

open_durable-Holds_example :
    Holds
      (open_durable platform store.segments log)
      (replayed log (λ id. find id (base_capsules store.segments)))
open_durable-Holds_example = open_durable-Holds platform store.segments log
