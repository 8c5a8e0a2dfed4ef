-- ===== src/Store/View/Insert.antt =====
-- crates/l5m-core/src/store.rs: insert, with the sealing and the compaction that it may start.
use l5m.Prelude.{
  ℕ, refl, ap, ◌∙◌, none, some, Option, inl, inr, Bool-cases, ◌==◌, if◌then◌else◌, leb, length,
}
use l5m.Platform.{Platform}
use l5m.Outcome.{ok, ◌>>=◌}
use l5m.Capsule.{MemoryCapsule}
use l5m.Store.{MemoryStore}
use l5m.Store.Compact.{compact_delta, maybe_auto_compact}
use l5m.Store.Write.{accept, insert}
use l5m.Store.View.{view}
use l5m.Store.View.Indexed.{IsIndexed, insert-IsIndexed}
use l5m.Store.View.Writes.{IsDistinct, Holds, accept-view, seal_or_reindex-Holds}
use l5m.Store.View.Compaction.{compact_delta-Holds}

maybe_auto_compact-Holds :
    (p : Platform) (st : MemoryStore p.F32)
    → IsDistinct st
    → Holds (maybe_auto_compact p st) (view st)
unfolding maybe_auto_compact
maybe_auto_compact-Holds p st h = by_setting st.auto_compact_runs
  where
    by_setting :
        (o : Option ℕ)
        → Holds
            (elim o [
              | none ↦ ok st
              | some n ↦ if leb n (length st.sealed_deltas) then compact_delta p st else ok st
            ])
            (view st)
    by_setting none = (st, refl, h, λ id. refl)
    by_setting (some n) = elim (Bool-cases (leb n (length st.sealed_deltas))) [
      | inl full ↦ rw full (compact_delta-Holds p st h)
      | inr few ↦ rw few (st, refl, h, λ id. refl)
    ]

-- If no id comes twice in the write buffer, `insert` returns a store with such a buffer, which holds
-- the capsule at its id, whatever was there or deleted before, and what the old store held
-- elsewhere, whether or not the buffer is sealed and the runs are merged. The segment that queries
-- read the buffer from has the capsules of the new buffer, with their index.
pub insert-Holds :
    (p : Platform) (c : MemoryCapsule p.F32) (st : MemoryStore p.F32)
    → IsDistinct st
    → (held : Holds (insert p c st) (λ id. if c.capsule_id == id then some c else view st id))
      × IsIndexed p held.0
unfolding insert
insert-Holds p c st h =
    let (distinct', added) = accept-view c st h in
    let (st1, e1, d1, same1) = seal_or_reindex-Holds p (accept c st) distinct' in
    let (st2, e2, d2, same2) = maybe_auto_compact-Holds p st1 d1 in
    let inserted = ap (λ m. m >>= maybe_auto_compact p) e1 ∙ e2 in
    (
      (st2, inserted, d2, λ id. same2 id ∙ same1 id ∙ added id),
      insert-IsIndexed p c st (unfold insert in inserted),
    )
