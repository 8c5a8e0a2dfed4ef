-- ===== src/Store/Replay.antt =====
-- crates/l5m-core/src/store.rs: `open_durable`, which folds the log into a buffer.
pub mod Slots
pub mod Points
pub mod Durable
use l5m.Prelude.{
  ℕ, zero, suc, ◌+◌, Bool, false, Option, none, some, List, [], ◌∷◌, ◌++◌, ◌==◌, if◌then◌else◌,
  length, set,
}
use l5m.Prelude.Map
use l5m.Prelude.Map.{Map}
use l5m.Prelude.Set
use l5m.Platform.{Platform}
use l5m.Outcome.{Outcome, ok, ◌>>=◌}
use l5m.Capsule.{MemoryCapsule}
use l5m.Metrics.{record_insert, record_delete}
use l5m.Store.{
  MemoryStore, LoadedSegment, WalOp, insert as insert_op, delete as delete_op, open_segments,
}
use l5m.Store.Buffer.{rebuild_active_segment}

-- The variables of the fold.
pub record Recovery (F : Type 0) : Type 0 where
  pub by_id : Map ℕ
  pub delta : List (MemoryCapsule F)
  pub tombstones : List ℕ
  pub inserts : ℕ
  pub deletes : ℕ

-- `by_id.get(&capsule.capsule_id) == Some(&pos)`.
canonical : Option ℕ → ℕ → Bool
canonical none pos = false
canonical (some i) pos = i == pos

module _ {F : Type 0} where
  pub replay_op : WalOp F → Recovery F → Recovery F
  unfolding Map.get Map.insert Map.remove Set.insert Set.remove
  replay_op (insert_op c) r = record r {
    by_id = elim (Map.get c.capsule_id r.by_id) [
      | some pos ↦ r.by_id
      | none ↦ Map.insert c.capsule_id (length r.delta) r.by_id
    ];
    delta = elim (Map.get c.capsule_id r.by_id) [
      | some pos ↦ set r.delta pos c
      | none ↦ r.delta ++ c ∷ []
    ];
    tombstones = Set.remove c.capsule_id r.tombstones;
    inserts = r.inserts + 1;
  }
  replay_op (delete_op id) r = record r {
    by_id = Map.remove id r.by_id;
    tombstones = Set.insert id r.tombstones;
    deletes = r.deletes + 1;
  }

  pub replay : List (WalOp F) → Recovery F → Recovery F
  unfolding replay_op
  replay [] r = r
  replay (op ∷ ops) r = replay ops (replay_op op r)

  -- The slots to which the map still points, the first slot being `pos`.
  pub canonical_slots : Map ℕ → ℕ → List (MemoryCapsule F) → List (MemoryCapsule F)
  unfolding canonical Map.get
  canonical_slots by_id pos [] = []
  canonical_slots by_id pos (c ∷ cs) =
      if canonical (Map.get c.capsule_id by_id) pos
      then c ∷ canonical_slots by_id (pos + 1) cs
      else canonical_slots by_id (pos + 1) cs

abbrev no_recovery : {F : Type 0} → Recovery F
no_recovery = record { by_id = []; delta = []; tombstones = []; inserts = 0; deletes = 0 }

-- `for _ in 0..n`.
times : {A : Type 0} → ℕ → (A → A) → A → A
times zero f a = a
times (suc n) f a = times n f (f a)

pub open_durable :
    (p : Platform) → List (LoadedSegment p.F32) → List (WalOp p.F32) → Outcome (MemoryStore p.F32)
unfolding open_segments replay canonical_slots times rebuild_active_segment
open_durable p segments ops = do
  let store = open_segments segments
  let r = replay ops no_recovery
  let counted = times r.deletes record_delete (times r.inserts record_insert store.metrics)
  recovered ← rebuild_active_segment p (record store {
    delta = canonical_slots r.by_id 0 r.delta;
    tombstones = r.tombstones;
    metrics = counted;
  })
  ok (record recovered { wal = some ops })
