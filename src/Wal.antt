-- ===== src/Wal.antt =====
-- crates/l5m-core/src/wal.rs: the log of writes as a file of one JSON operation in each line. A file
-- is its bytes, or none where there is no file; writing to it succeeds.
pub mod Torn
use l5m.Prelude.{Option, none, some, List, [], ◌∷◌, ◌++◌, Bytes, if◌then◌else◌}
use l5m.Outcome.{Outcome, ok, err, ◌>>=◌, json}
use l5m.Ingest.{RawCapsule}
use l5m.Audit.{for_each_line, is_blank}

-- `WalOp`, with the capsule as its JSON and the id as its text.
pub data LoggedOp (F : Type 0) : Type 0 where
  insert : RawCapsule F → LoggedOp F
  delete : Bytes → LoggedOp F

module _ {F : Type 0} where
  -- `Wal::append`: the file after it; `to_json` is `serde_json::to_string`.
  unfoldable pub append : (LoggedOp F → Outcome Bytes) → LoggedOp F → Bytes → Outcome Bytes
  append to_json op file = to_json op >>= λ line. ok (file ++ line ++ 10 ∷ [])

  -- `serde_json::from_str`.
  module _ (from_json : Bytes → Option (LoggedOp F)) where
    -- One round of the loop of `replay`.
    unfoldable pub push_op : Bytes → List (LoggedOp F) → Outcome (List (LoggedOp F))
    push_op line ops =
        if is_blank line
        then ok ops
        else elim (from_json line) [ none ↦ err json | some op ↦ ok (ops ++ op ∷ []) ]

    -- `Wal::replay`.
    unfoldable pub replay : Option Bytes → Outcome (List (LoggedOp F))
    unfolding push_op for_each_line
    replay none = ok []
    replay (some file) = for_each_line push_op file []

-- `Wal::truncate`.
unfoldable pub truncate : Bytes → Bytes
truncate file = []
