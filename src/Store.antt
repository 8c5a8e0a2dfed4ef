-- ===== src/Store.antt =====
-- crates/l5m-core/src/store.rs and wal.rs: the store of segments, sealed runs and a write buffer.
pub mod Buffer
pub mod Compact
pub mod Write
pub mod Replay
pub mod View
pub mod Query
pub mod Modes
use l5m.Prelude.{ℕ, ◌+◌, max, Option, none, some, List, [], ◌∷◌, ◌++◌, map, Bytes}
use l5m.Platform.{Platform}
use l5m.Capsule.{MemoryCapsule}
use l5m.Segment.Query.{Segment}
use l5m.Metrics.{Metrics, no_metrics}

-- The lines of the log. The program writes them as JSON; the model keeps what they say.
pub data WalOp (F : Type 0) : Type 0 where
  insert : MemoryCapsule F → WalOp F
  delete : ℕ → WalOp F

pub record LoadedSegment (F : Type 0) : Type 0 where
  pub path : Option Bytes
  pub segment : Segment F

pub record MemoryStore (F : Type 0) : Type 0 where
  pub segments : List (LoadedSegment F)
  pub delta : List (MemoryCapsule F)
  pub delta_segment : Option (Segment F)
  pub sealed_deltas : List (Segment F)
  pub seal_threshold : ℕ
  pub auto_compact_runs : Option ℕ
  pub tombstones : List ℕ
  pub next_epoch : ℕ
  pub metrics : Metrics
  pub wal : Option (List (WalOp F))

abbrev pub default_delta_seal_threshold : ℕ
default_delta_seal_threshold = 1024

abbrev pub default_auto_compact_runs : ℕ
default_auto_compact_runs = 16

module _ {F : Type 0} where
  max_epoch : List (LoadedSegment F) → ℕ
  max_epoch [] = 0
  max_epoch (loaded ∷ rest) = max loaded.segment.epoch (max_epoch rest)

  -- `open_segments`, over the segments that the paths hold.
  pub open_segments : List (LoadedSegment F) → MemoryStore F
  unfolding max_epoch
  open_segments segments = record {
    segments = segments;
    delta = [];
    delta_segment = none;
    sealed_deltas = [];
    seal_threshold = default_delta_seal_threshold;
    auto_compact_runs = some default_auto_compact_runs;
    tombstones = [];
    next_epoch = max_epoch segments + 1;
    metrics = no_metrics;
    wal = none;
  }

  pub empty : MemoryStore F
  empty = record {
    segments = [];
    delta = [];
    delta_segment = none;
    sealed_deltas = [];
    seal_threshold = default_delta_seal_threshold;
    auto_compact_runs = some default_auto_compact_runs;
    tombstones = [];
    next_epoch = 1;
    metrics = no_metrics;
    wal = none;
  }

  pub with_seal_threshold : ℕ → MemoryStore F → MemoryStore F
  with_seal_threshold threshold st = record st { seal_threshold = max threshold 1 }

  pub with_auto_compaction : Option ℕ → MemoryStore F → MemoryStore F
  with_auto_compaction none st = record st { auto_compact_runs = none }
  with_auto_compaction (some n) st = record st { auto_compact_runs = some (max n 1) }
