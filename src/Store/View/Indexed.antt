-- ===== src/Store/View/Indexed.antt =====
-- crates/l5m-core/src/store.rs: the segment that queries read the write buffer from.
use l5m.Prelude.{
  ℕ, ◌≡◌, ◌≢◌, refl, subst, Option, none, some, List, [], ◌∷◌, ◌++◌, ◌==◌, if◌then◌else◌,
  Bool-cases, inl, inr, leb, length, false, arith,
}
use l5m.Platform.{Platform}
use l5m.Outcome.{ok, ◌>>=◌, bind-ok, ok-injective}
use l5m.Capsule.{MemoryCapsule}
use l5m.Index.Build.{build}
use l5m.Segment.Query.{Segment, from_capsules}
use l5m.Prelude.Set
use l5m.Metrics.{record_delete}
use l5m.Store.{MemoryStore, delete as delete_op}
use l5m.Store.Buffer.{
  next, without_id, push_into_buffer, rebuild_active_segment, seal_active_buffer, seal_or_reindex,
}
use l5m.Store.Compact.{merged_runs, collect_live, compact_delta, maybe_auto_compact}
use l5m.Store.Write.{wal_append, accept, insert, delete}

-- The segment has these capsules, with their index; there is none if there are no capsules.
abbrev Indexes : (p : Platform) → Option (Segment p.F32) → List (MemoryCapsule p.F32) → Type 0
Indexes p none cs = cs ≡ []
Indexes p (some s) cs = (s.capsules ≡ cs) × (s.index ≡ build p cs)

-- The active segment is that of the write buffer.
abbrev pub IsIndexed : (p : Platform) → MemoryStore p.F32 → Type 0
IsIndexed p st = Indexes p st.delta_segment st.delta

from_capsules-Indexes :
    (p : Platform) (cs : List (MemoryCapsule p.F32)) (epoch : ℕ) {s : Segment p.F32}
    → from_capsules p cs epoch ≡ ok s
    → Indexes p (some s) cs
unfolding from_capsules
from_capsules-Indexes p cs epoch h = elim (Bool-cases (length (build p cs).by_id == length cs)) [
  | inl distinct ↦ subst (λ s. Indexes p (some s) cs) (ok-injective (rw distinct at h)) (refl, refl)
  | inr twice ↦ absurd (ground arith)
]

module _ (p : Platform) where
  open p use {F32}

  rebuild-IsIndexed :
      (st : MemoryStore F32) {st' : MemoryStore F32}
      → rebuild_active_segment p st ≡ ok st'
      → IsIndexed p st'
  unfolding rebuild_active_segment
  rebuild-IsIndexed st {st'} h = by_delta st.delta refl h
    where
      by_delta :
          (xs : List (MemoryCapsule F32))
          → st.delta ≡ xs
          → (elim xs [
            | [] ↦ ok (record st { delta_segment = none })
            | x ∷ xs' ↦ from_capsules p st.delta st.next_epoch >>= λ run.
                ok (record st { delta_segment = some run })
          ])
            ≡ ok st'
          → IsIndexed p st'
      by_delta [] e h = subst (IsIndexed p) (ok-injective h) e
      by_delta (x ∷ xs) e h =
          let (run, built, e') = bind-ok (from_capsules p st.delta st.next_epoch) _ h in
          subst (IsIndexed p) (ok-injective e')
            (from_capsules-Indexes p st.delta st.next_epoch built)

  seal-IsIndexed :
      (st : MemoryStore F32) {st' : MemoryStore F32}
      → st.delta ≢ []
      → seal_active_buffer p st ≡ ok st'
      → IsIndexed p st'
  unfolding seal_active_buffer
  seal-IsIndexed st {st'} full h = by_delta st.delta refl h
    where
      by_delta :
          (xs : List (MemoryCapsule F32))
          → st.delta ≡ xs
          → (elim xs [
            | [] ↦ ok st
            | x ∷ xs' ↦ from_capsules p st.delta st.next_epoch >>= λ run. ok (record st {
              delta = [];
              next_epoch = next st.next_epoch;
              sealed_deltas = st.sealed_deltas ++ run ∷ [];
              delta_segment = none;
            })
          ])
            ≡ ok st'
          → IsIndexed p st'
      by_delta [] e h = absurd (full e)
      by_delta (x ∷ xs) e h =
          let (run, built, e') = bind-ok (from_capsules p st.delta st.next_epoch) _ h in
          subst (IsIndexed p) (ok-injective e') refl

  seal_or_reindex-IsIndexed :
      (st : MemoryStore F32) {st' : MemoryStore F32}
      → st.delta ≢ []
      → seal_or_reindex p st ≡ ok st'
      → IsIndexed p st'
  unfolding seal_or_reindex
  seal_or_reindex-IsIndexed st full h =
      elim (Bool-cases (leb st.seal_threshold (length st.delta))) [
        | inl e ↦ seal-IsIndexed st full (rw e at h)
        | inr e ↦ rebuild-IsIndexed st (rw e at h)
      ]

  compact_delta-IsIndexed :
      (st : MemoryStore F32) {st' : MemoryStore F32}
      → IsIndexed p st
      → compact_delta p st ≡ ok st'
      → IsIndexed p st'
  unfolding compact_delta
  compact_delta-IsIndexed st {st'} i h = by_runs st.sealed_deltas h
    where
      by_runs :
          (runs : List (Segment F32))
          → (elim runs [
            | [] ↦ ok st
            | run ∷ runs' ↦ merged_runs p (collect_live false st) st.next_epoch >>= λ merged.
                ok (record st {
                  delta = [];
                  delta_segment = none;
                  sealed_deltas = merged;
                  next_epoch = next st.next_epoch;
                })
          ])
            ≡ ok st'
          → IsIndexed p st'
      by_runs [] h = subst (IsIndexed p) (ok-injective h) i
      by_runs (run ∷ runs) h =
          let (merged, e, e') = bind-ok (merged_runs p (collect_live false st) st.next_epoch) _ h in
          subst (IsIndexed p) (ok-injective e') refl

  maybe_auto_compact-IsIndexed :
      (st : MemoryStore F32) {st' : MemoryStore F32}
      → IsIndexed p st
      → maybe_auto_compact p st ≡ ok st'
      → IsIndexed p st'
  unfolding maybe_auto_compact
  maybe_auto_compact-IsIndexed st {st'} i h = by_setting st.auto_compact_runs h
    where
      by_setting :
          (o : Option ℕ)
          → (elim o [
            | none ↦ ok st
            | some n ↦ if leb n (length st.sealed_deltas) then compact_delta p st else ok st
          ])
            ≡ ok st'
          → IsIndexed p st'
      by_setting none h = subst (IsIndexed p) (ok-injective h) i
      by_setting (some n) h = elim (Bool-cases (leb n (length st.sealed_deltas))) [
        | inl many ↦ compact_delta-IsIndexed st i (rw many at h)
        | inr few ↦ subst (IsIndexed p) (ok-injective (rw few at h)) i
      ]

  append_one-ne : (xs : List (MemoryCapsule F32)) (c : MemoryCapsule F32) → (xs ++ c ∷ []) ≢ []
  append_one-ne [] c h = cc
  append_one-ne (x ∷ xs) c h = cc

  -- An insert leaves the active segment that of the buffer.
  pub insert-IsIndexed :
      (c : MemoryCapsule F32) (st : MemoryStore F32) {st' : MemoryStore F32}
      → insert p c st ≡ ok st'
      → IsIndexed p st'
  unfolding insert accept push_into_buffer
  insert-IsIndexed c st h =
      let (st1, e, e') = bind-ok (seal_or_reindex p (accept c st)) (maybe_auto_compact p) h in
      maybe_auto_compact-IsIndexed st1
        (seal_or_reindex-IsIndexed (accept c st) (append_one-ne _ c) e) e'

  -- So does a deletion.
  pub delete-IsIndexed :
      (id : ℕ) (st : MemoryStore F32) {st' : MemoryStore F32}
      → delete p id st ≡ ok st'
      → IsIndexed p st'
  unfolding delete
  delete-IsIndexed id st h =
      let logged = wal_append (delete_op id) st in
      rebuild-IsIndexed
        (record logged {
          delta = without_id id logged.delta;
          tombstones = Set.insert id logged.tombstones;
          metrics = record_delete logged.metrics;
        })
        h
