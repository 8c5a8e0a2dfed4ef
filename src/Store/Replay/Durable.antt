-- ===== src/Store/Replay/Durable.antt =====
-- crates/l5m-core/src/store.rs, open_durable: the fold of the log as a function from ids to
-- capsules.
use l5m.Prelude.{
  ℕ, ◌+◌, ◌-◌, ◌≡◌, refl, sym, ap, ◌∙◌, Option, none, some, List, [], ◌∷◌, ◌++◌, append-nil, ◌==◌,
  if◌then◌else◌, length, set, get_elem?, arith,
}
use l5m.Prelude.Map
use l5m.Prelude.Map.{Map, get-insert, get-remove}
use l5m.Prelude.Set
use l5m.Prelude.Set.{contains-insert, contains-remove}
use l5m.Platform.{Platform}
use l5m.Outcome.{ok, ◌>>=◌}
use l5m.Capsule.{MemoryCapsule}
use l5m.Segment.Ids.{find, or_else, find-append}
use l5m.Metrics.{record_insert, record_delete}
use l5m.Store.{
  MemoryStore, LoadedSegment, WalOp, insert as insert_op, delete as delete_op, open_segments,
}
use l5m.Store.Compact.{runs_newest_first, base_capsules}
use l5m.Store.View.{view}
use l5m.Store.View.Writes.{IsDistinct, Holds, rebuild_active_segment-Holds}
use l5m.Store.Replay.{
  Recovery, replay_op, replay, canonical_slots, no_recovery, times, open_durable,
}
use l5m.Store.Replay.Slots.{slot_from, find-canonical_slots, distinct-canonical_slots}
use l5m.Store.Replay.Points.{id_of, Points, slot, overwrite, append, forget}

module _ {F : Type 0} where
  -- What the operations of a log make of what was held before.
  abbrev pub replayed :
      List (WalOp F) → (ℕ → Option (MemoryCapsule F)) → ℕ → Option (MemoryCapsule F)
  replayed [] now = now
  replayed (insert_op c ∷ ops) now =
      replayed ops (λ id. if c.capsule_id == id then some c else now id)
  replayed (delete_op k ∷ ops) now = replayed ops (λ id. if k == id then none else now id)

  module _ (base : ℕ → Option (MemoryCapsule F)) where
    -- What the variables of the fold stand for, over the base segments.
    abbrev recovered : Recovery F → ℕ → Option (MemoryCapsule F)
    recovered r id =
        if Set.contains id r.tombstones
        then none
        else or_else (slot r.delta (Map.get id r.by_id)) (base id)

    -- One operation.
    Stepped : (ℕ → Option (MemoryCapsule F)) → Recovery F → Type 0
    Stepped now r = Points r.by_id r.delta × ((id : ℕ) → recovered r id ≡ now id)

    insert-Stepped :
        (c : MemoryCapsule F) (r : Recovery F)
        → Points r.by_id r.delta
        → Stepped
            (λ id. if c.capsule_id == id then some c else recovered r id)
            (replay_op (insert_op c) r)
    unfolding replay_op Stepped
    insert-Stepped c r v = by_slot (Map.get c.capsule_id r.by_id) refl
      where
        now :
            (o : Option (MemoryCapsule F)) (id : ℕ)
            → o ≡ (if c.capsule_id == id then some c else slot r.delta (Map.get id r.by_id))
            → (if Set.contains id (Set.remove c.capsule_id r.tombstones)
                then none
                else or_else o (base id))
              ≡ (if c.capsule_id == id then some c else recovered r id)
        now o id e = ground (arith, e, contains-remove c.capsule_id id r.tombstones)

        by_slot :
            (o : Option ℕ)
            → Map.get c.capsule_id r.by_id ≡ o
            → Stepped
                (λ id. if c.capsule_id == id then some c else recovered r id)
                (record r {
                  by_id = elim o [
                    | some pos ↦ r.by_id
                    | none ↦ Map.insert c.capsule_id (length r.delta) r.by_id
                  ];
                  delta = elim o [ some pos ↦ set r.delta pos c | none ↦ r.delta ++ c ∷ [] ];
                  tombstones = Set.remove c.capsule_id r.tombstones;
                  inserts = r.inserts + 1;
                })
        by_slot none e = let (v', w) = append r.by_id r.delta v c e in (v', λ id. now _ id (w id))
        by_slot (some pos) e =
            let (v', w) = overwrite r.by_id r.delta v c pos e in (v', λ id. now _ id (w id))

    delete-Stepped :
        (k : ℕ) (r : Recovery F)
        → Points r.by_id r.delta
        → Stepped (λ id. if k == id then none else recovered r id) (replay_op (delete_op k) r)
    unfolding replay_op Stepped
    delete-Stepped k r v =
        let (v', w) = forget r.by_id r.delta v k in
        (v', λ id. ground (arith, w id, contains-insert k id r.tombstones))

    replay-Stepped :
        (ops : List (WalOp F)) (now : ℕ → Option (MemoryCapsule F)) (r : Recovery F)
        → Stepped now r
        → Stepped (replayed ops now) (replay ops r)
    unfolding replay Stepped
    replay-Stepped [] now r h = h
    replay-Stepped (insert_op c ∷ ops) now r (v, same) =
        let (v', w) = insert-Stepped c r v in
        replay-Stepped ops _ (replay_op (insert_op c) r)
          (v', λ id. w id ∙ ap (λ o. if c.capsule_id == id then some c else o) (same id))
    replay-Stepped (delete_op k ∷ ops) now r (v, same) =
        let (v', w) = delete-Stepped k r v in
        replay-Stepped ops _ (replay_op (delete_op k) r)
          (v', λ id. w id ∙ ap (λ o. if k == id then none else o) (same id))

slot_from-zero :
    {F : Type 0} (xs : List (MemoryCapsule F)) (o : Option ℕ) → slot_from 0 xs o ≡ slot xs o
slot_from-zero xs none = refl
slot_from-zero xs (some i) = let same : i - 0 ≡ i = omega arith in rw same (ground arith)

module _ (p : Platform) (segments : List (LoadedSegment p.F32)) (ops : List (WalOp p.F32)) where
  open p use {F32}

  base : ℕ → Option (MemoryCapsule F32)
  base id = find id (base_capsules segments)

  r : Recovery F32
  r = replay ops no_recovery

  stepped : Stepped base (replayed ops base) r
  unfolding r base Stepped Map.get Set.contains
  stepped =
      replay-Stepped base ops base no_recovery ((λ id i e. absurd (ground (arith, e))), λ id. refl)

  -- A capsule in the slot of an id has the id.
  slot-id :
      (i id : ℕ) (c : MemoryCapsule F32)
      → Map.get id r.by_id ≡ some (0 + i)
      → get_elem? r.delta i ≡ some c
      → c.capsule_id ≡ id
  unfolding Stepped
  slot-id i id c e at_i =
      let (d, at_d, same) = stepped.0 id i (e ∙ ap some (omega arith)) in
      ap id_of (sym at_i ∙ at_d) ∙ same

  -- The store before its buffer is indexed.
  loaded : MemoryStore F32
  loaded =
      let store = open_segments segments in
      record store {
        delta = canonical_slots r.by_id 0 r.delta;
        tombstones = r.tombstones;
        metrics = times r.deletes record_delete (times r.inserts record_insert store.metrics);
      }

  loaded-IsDistinct : IsDistinct loaded
  unfolding loaded Stepped
  loaded-IsDistinct = distinct-canonical_slots r.by_id r.delta 0 slot-id

  view-loaded : (id : ℕ) → view loaded id ≡ replayed ops base id
  unfolding loaded Stepped base open_segments runs_newest_first
  view-loaded id =
      let slots = canonical_slots r.by_id 0 r.delta in
      let found : find id slots ≡ slot r.delta (Map.get id r.by_id) =
        find-canonical_slots r.by_id id r.delta 0 (λ i. slot-id i id)
        ∙ slot_from-zero r.delta (Map.get id r.by_id) in
      let split = find-append id slots (base_capsules segments) in
      let bare : slots ++ [] ≡ slots = append-nil slots in
      rw bare (ground (arith, found, split)) ∙ stepped.1 id

-- `open_durable` on any base segments and any log returns a store whose buffer has no id twice. At
-- each id it holds what the last operation of the log left: the capsule inserted last, nothing if
-- it was deleted last, and the base's capsule if the log does not name the id.
pub open_durable-Holds :
    (p : Platform) (segments : List (LoadedSegment p.F32)) (ops : List (WalOp p.F32))
    → Holds (open_durable p segments ops) (replayed ops (λ id. find id (base_capsules segments)))
unfolding open_durable loaded r base
open_durable-Holds p segments ops =
    let (st, e, d, same) =
      rebuild_active_segment-Holds p (loaded p segments ops) (loaded-IsDistinct p segments ops) in
    (
      record st { wal = some ops },
      ap (λ m. m >>= λ (s : MemoryStore p.F32). ok (record s { wal = some ops })) e,
      d,
      λ id. same id ∙ view-loaded p segments ops id,
    )
