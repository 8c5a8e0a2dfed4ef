-- ===== src/Store/Write.antt =====
-- crates/l5m-core/src/store.rs: insert, insert_many and delete. The model's log always takes a line.
use l5m.Prelude.{ℕ, none, some, List, [], ◌∷◌, ◌++◌, if◌then◌else◌, leb, length}
use l5m.Prelude.Set
use l5m.Platform.{Platform}
use l5m.Outcome.{Outcome, ok, ◌>>=◌}
use l5m.Capsule.{MemoryCapsule}
use l5m.Metrics.{record_insert, record_delete, record_insert_for}
use l5m.Store.{MemoryStore, WalOp, insert as insert_op, delete as delete_op}
use l5m.Store.Buffer.{
  without_id, push_into_buffer, rebuild_active_segment, seal_active_buffer, seal_or_reindex,
}
use l5m.Store.Compact.{maybe_auto_compact}

-- `if let Some(wal) = self.wal.as_mut() { wal.append(op)?; }`.
unfoldable pub wal_append : {F : Type 0} → WalOp F → MemoryStore F → MemoryStore F
wal_append op st = record st {
  wal = elim st.wal [ none ↦ none | some ops ↦ some (ops ++ op ∷ []) ];
}

-- The steps of a write up to the indexing.
unfoldable pub accept : {F : Type 0} → MemoryCapsule F → MemoryStore F → MemoryStore F
unfolding wal_append push_into_buffer
accept c st =
    let pushed = push_into_buffer c (wal_append (insert_op c) st) in
    record pushed { metrics = record_insert_for c.tenant_id (record_insert pushed.metrics) }

module _ (p : Platform) where
  open p use {F32}

  unfoldable pub insert : MemoryCapsule F32 → MemoryStore F32 → Outcome (MemoryStore F32)
  unfolding accept seal_or_reindex maybe_auto_compact
  insert c st = seal_or_reindex p (accept c st) >>= maybe_auto_compact p

  -- One round of `insert_many`.
  insert_one : MemoryCapsule F32 → MemoryStore F32 → Outcome (MemoryStore F32)
  unfolding accept seal_active_buffer maybe_auto_compact
  insert_one c st =
      let st' = accept c st in
      if leb st'.seal_threshold (length st'.delta)
      then seal_active_buffer p st' >>= maybe_auto_compact p
      else ok st'

  insert_rounds : List (MemoryCapsule F32) → MemoryStore F32 → Outcome (MemoryStore F32)
  unfolding insert_one
  insert_rounds [] st = ok st
  insert_rounds (c ∷ cs) st = insert_one c st >>= insert_rounds cs

  pub insert_many : List (MemoryCapsule F32) → MemoryStore F32 → Outcome (MemoryStore F32)
  unfolding insert_rounds rebuild_active_segment
  insert_many cs st = insert_rounds cs st >>= rebuild_active_segment p

  unfoldable pub delete : ℕ → MemoryStore F32 → Outcome (MemoryStore F32)
  unfolding wal_append rebuild_active_segment
  delete id st =
      let logged = wal_append (delete_op id) st in
      rebuild_active_segment p (record logged {
        delta = without_id id logged.delta;
        tombstones = Set.insert id logged.tombstones;
        metrics = record_delete logged.metrics;
      })
