-- ===== src/Store/Buffer.antt =====
-- crates/l5m-core/src/store.rs: the write buffer, and how it is indexed and sealed.
use l5m.Prelude.{
  ℕ, ◌+◌, ◌%◌, ◌^◌, not, none, some, List, [], ◌∷◌, ◌++◌, ◌==◌, if◌then◌else◌, leb, length, filter,
}
use l5m.Prelude.Set
use l5m.Platform.{Platform}
use l5m.Outcome.{Outcome, ok, ◌>>=◌}
use l5m.Capsule.{MemoryCapsule}
use l5m.Segment.Query.{from_capsules}
use l5m.Store.{MemoryStore}

-- `next_epoch += 1`.
abbrev pub next : ℕ → ℕ
next epoch = (epoch + 1) % 2 ^ 64

-- `retain(|existing| existing.capsule_id != id)`.
abbrev pub without_id : {F : Type 0} → ℕ → List (MemoryCapsule F) → List (MemoryCapsule F)
without_id id = filter (λ existing. not (existing.capsule_id == id))

unfoldable pub push_into_buffer : {F : Type 0} → MemoryCapsule F → MemoryStore F → MemoryStore F
unfolding Set.remove
push_into_buffer c st = record st {
  tombstones = Set.remove c.capsule_id st.tombstones;
  delta = without_id c.capsule_id st.delta ++ c ∷ [];
}

module _ (p : Platform) where
  open p use {F32}

  unfoldable pub rebuild_active_segment : MemoryStore F32 → Outcome (MemoryStore F32)
  unfolding from_capsules
  rebuild_active_segment st = elim st.delta [
    | [] ↦ ok (record st { delta_segment = none })
    | x ∷ xs ↦ do
      run ← from_capsules p st.delta st.next_epoch
      ok (record st { delta_segment = some run })
  ]

  unfoldable pub seal_active_buffer : MemoryStore F32 → Outcome (MemoryStore F32)
  unfolding from_capsules
  seal_active_buffer st = elim st.delta [
    | [] ↦ ok st
    | x ∷ xs ↦ do
      run ← from_capsules p st.delta st.next_epoch
      ok (record st {
        delta = [];
        next_epoch = next st.next_epoch;
        sealed_deltas = st.sealed_deltas ++ run ∷ [];
        delta_segment = none;
      })
  ]

  unfoldable pub seal_or_reindex : MemoryStore F32 → Outcome (MemoryStore F32)
  unfolding rebuild_active_segment seal_active_buffer
  seal_or_reindex st =
      if leb st.seal_threshold (length st.delta)
      then seal_active_buffer st
      else rebuild_active_segment st
