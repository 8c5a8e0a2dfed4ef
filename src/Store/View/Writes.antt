-- ===== src/Store/View/Writes.antt =====
-- crates/l5m-core/src/store.rs: the buffer operations and delete on what the store holds.
use l5m.Prelude.{
  ℕ, ◌≡◌, refl, sym, ap, ◌∙◌, true, Option, none, some, List, [], ◌∷◌, ◌++◌, append-nil,
  append_assoc, ◌==◌, ==_refl, inl, inr, Bool-cases, if◌then◌else◌, leb, length, arith,
}
use l5m.Prelude.Set
use l5m.Prelude.Set.{contains-insert, contains-remove}
use l5m.Platform.{Platform}
use l5m.Outcome.{Outcome, ok, ◌>>=◌}
use l5m.Capsule.{MemoryCapsule}
use l5m.Segment.Query.{Segment, from_capsules}
use l5m.Segment.Ids.{
  find, distinct, find-append, find-without, distinct-without, distinct-append_one,
  from_capsules-distinct,
}
use l5m.Metrics.{record_delete}
use l5m.Store.{MemoryStore, delete as delete_op}
use l5m.Store.Buffer.{
  next, without_id, rebuild_active_segment, seal_active_buffer, seal_or_reindex, push_into_buffer,
}
use l5m.Store.Compact.{runs_newest_first, base_capsules}
use l5m.Store.Write.{wal_append, accept, delete}
use l5m.Store.View.{versions, view}
use l5m.Store.View.Indexed.{IsIndexed, delete-IsIndexed}

-- No id comes twice in the write buffer.
abbrev pub IsDistinct : {F : Type 0} → MemoryStore F → Type 0
IsDistinct st = distinct st.delta ≡ true

-- The call returns a store that holds what is given, with a buffer of distinct ids.
abbrev pub Holds : {F : Type 0} → Outcome (MemoryStore F) → (ℕ → Option (MemoryCapsule F)) → Type 0
Holds {F} m now =
    (st : MemoryStore F) × (m ≡ ok st) × IsDistinct st × ((id : ℕ) → view st id ≡ now id)

runs-append_one :
    {F : Type 0} (runs : List (Segment F)) (run : Segment F)
    → runs_newest_first (runs ++ run ∷ []) ≡ run.capsules ++ runs_newest_first runs
unfolding runs_newest_first
runs-append_one [] run = sym (append-nil run.capsules)
runs-append_one (r ∷ runs) run =
    ap (λ xs. xs ++ r.capsules) (runs-append_one runs run)
    ∙ append_assoc run.capsules (runs_newest_first runs) r.capsules

module _ (p : Platform) where
  open p use {F32}

  -- Indexing the buffer changes nothing that the store holds.
  pub rebuild_active_segment-Holds :
      (st : MemoryStore F32) → IsDistinct st → Holds (rebuild_active_segment p st) (view st)
  unfolding rebuild_active_segment
  rebuild_active_segment-Holds st h = by_delta st.delta
    where
      by_delta :
          (xs : List (MemoryCapsule F32))
          → Holds
              (elim xs [
                | [] ↦ ok (record st { delta_segment = none })
                | x ∷ xs' ↦ from_capsules p st.delta st.next_epoch >>= λ run.
                    ok (record st { delta_segment = some run })
              ])
              (view st)
      by_delta [] = (record st { delta_segment = none }, refl, h, λ id. refl)
      by_delta (x ∷ xs) =
          let (run, e, same) = from_capsules-distinct p st.delta st.next_epoch h in
          (
            record st { delta_segment = some run },
            ap (λ m. m >>= λ r. ok (record st { delta_segment = some r })) e,
            h,
            λ id. refl,
          )

  -- Sealing moves the buffer to the newest run.
  pub seal_active_buffer-Holds :
      (st : MemoryStore F32) → IsDistinct st → Holds (seal_active_buffer p st) (view st)
  unfolding seal_active_buffer
  seal_active_buffer-Holds st h = by_delta st.delta
    where
      sealed : Segment F32 → MemoryStore F32
      sealed run = record st {
        delta = [];
        next_epoch = next st.next_epoch;
        sealed_deltas = st.sealed_deltas ++ run ∷ [];
        delta_segment = none;
      }

      moved : (run : Segment F32) → run.capsules ≡ st.delta → versions (sealed run) ≡ versions st
      moved run same =
          ap (λ xs. xs ++ base_capsules st.segments)
            (runs-append_one st.sealed_deltas run
              ∙ ap (λ xs. xs ++ runs_newest_first st.sealed_deltas) same)

      by_delta :
          (xs : List (MemoryCapsule F32))
          → Holds
              (elim xs [
                | [] ↦ ok st
                | x ∷ xs' ↦ from_capsules p st.delta st.next_epoch >>= λ run. ok (sealed run)
              ])
              (view st)
      by_delta [] = (st, refl, h, λ id. refl)
      by_delta (x ∷ xs) =
          let (run, e, same) = from_capsules-distinct p st.delta st.next_epoch h in
          (
            sealed run,
            ap (λ m. m >>= λ r. ok (sealed r)) e,
            refl,
            λ id.
                ap (λ xs. if Set.contains id st.tombstones then none else find id xs)
                  (moved run same),
          )

  pub seal_or_reindex-Holds :
      (st : MemoryStore F32) → IsDistinct st → Holds (seal_or_reindex p st) (view st)
  unfolding seal_or_reindex
  seal_or_reindex-Holds st h = elim (Bool-cases (leb st.seal_threshold (length st.delta))) [
    | inl full ↦ rw full (seal_active_buffer-Holds st h)
    | inr room ↦ rw room (rebuild_active_segment-Holds st h)
  ]

-- A write puts its capsule in front of all versions of the id, and shows the id again.
pub accept-view :
    {F : Type 0} (c : MemoryCapsule F) (st : MemoryStore F)
    → IsDistinct st
    → IsDistinct (accept c st)
      × ((id : ℕ) → view (accept c st) id ≡ (if c.capsule_id == id then some c else view st id))
unfolding accept wal_append push_into_buffer
accept-view {F} c st h = (
  distinct-append_one older c (distinct-without c.capsule_id st.delta h)
      (ground (arith, find-without c.capsule_id c.capsule_id st.delta, ==_refl c.capsule_id)),
  λ id. ground (
    arith,
    contains-remove c.capsule_id id st.tombstones,
    find-without c.capsule_id id st.delta,
    find-append id older (c ∷ []),
    find-append id (older ++ c ∷ []) runs,
    find-append id (older ++ c ∷ [] ++ runs) base,
    find-append id st.delta runs,
    find-append id (st.delta ++ runs) base,
  ),
)
  where
    older : List (MemoryCapsule F)
    older = without_id c.capsule_id st.delta

    runs : List (MemoryCapsule F)
    runs = runs_newest_first st.sealed_deltas

    base : List (MemoryCapsule F)
    base = base_capsules st.segments

-- A deletion hides the id.
hide : {F : Type 0} → ℕ → MemoryStore F → MemoryStore F
hide id st =
    let logged = wal_append (delete_op id) st in
    record logged {
      delta = without_id id logged.delta;
      tombstones = Set.insert id logged.tombstones;
      metrics = record_delete logged.metrics;
    }

hide-view :
    {F : Type 0} (id : ℕ) (st : MemoryStore F)
    → IsDistinct st
    → IsDistinct (hide id st)
      × ((k : ℕ) → view (hide id st) k ≡ (if id == k then none else view st k))
unfolding hide wal_append
hide-view {F} id st h = (
  distinct-without id st.delta h,
  λ k. ground (
    arith,
    contains-insert id k st.tombstones,
    find-without id k st.delta,
    find-append k (without_id id st.delta) runs,
    find-append k (without_id id st.delta ++ runs) base,
    find-append k st.delta runs,
    find-append k (st.delta ++ runs) base,
  ),
)
  where
    runs : List (MemoryCapsule F)
    runs = runs_newest_first st.sealed_deltas

    base : List (MemoryCapsule F)
    base = base_capsules st.segments

-- If no id comes twice in the write buffer, `delete` returns a store with such a buffer, which holds
-- nothing at the id, in whatever tier its versions are, and what the old store held elsewhere. The
-- segment that queries read the buffer from has the capsules of the new buffer, with their index.
pub delete-Holds :
    (p : Platform) (id : ℕ) (st : MemoryStore p.F32)
    → IsDistinct st
    → (held : Holds (delete p id st) (λ k. if id == k then none else view st k)) × IsIndexed p
        held.0
unfolding delete
delete-Holds p id st h =
    let (distinct', hidden) = hide-view id st h in
    let (st', e, d, same) = rebuild_active_segment-Holds p (hide id st) distinct' in
    let deleted : delete p id st ≡ ok st' = unfold hide in e in
    ((st', deleted, d, λ k. same k ∙ hidden k), delete-IsIndexed p id st deleted)
