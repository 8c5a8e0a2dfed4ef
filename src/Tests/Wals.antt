-- ===== src/Tests/Wals.antt =====
-- A log of deletions: the text of an operation is the text of its id.
use l5m.Prelude.{◌≡◌, refl, Option, [], ◌∷◌, ◌++◌, Bytes, bytes_eq, if◌then◌else◌, arith}
use l5m.Prelude.Text.{chars, is_whitespace}
use l5m.Outcome.{Outcome, ok, err, ◌>>=◌, for_each, io, json}
use l5m.Prelude.Utf8.{is_utf8}
use l5m.Audit.{for_each_line, split_lines, is_blank}
use l5m.Audit.Chain.{ends_line}
use l5m.Wal.{LoggedOp, insert, delete, append, replay, push_op}
use l5m.Wal.Torn.{replay-append, replay-torn}
use l5m.Prelude.{ℕ, true, not, none, some}

abbrev print : LoggedOp ℕ → Outcome Bytes
print (insert raw) = ok (123 ∷ [])
print (delete id) = ok id

-- "{" alone is no operation.
abbrev read : Bytes → Option (LoggedOp ℕ)
read line = if bytes_eq line (123 ∷ []) then none else some (delete line)

abbrev file : Bytes
file = 49 ∷ 10 ∷ []

file_replays : replay read (some file) ≡ ok (delete (49 ∷ []) ∷ [])
unfolding replay push_op for_each_line for_each split_lines is_utf8 is_blank chars is_whitespace
file_replays = refl

replay-append_example :
    (file' : Bytes) × (append print (delete (50 ∷ [])) file ≡ ok file')
    × (ends_line file' ≡ true)
    × (replay read (some file') ≡ ok (delete (49 ∷ []) ∷ delete (50 ∷ []) ∷ []))
unfolding is_blank chars is_whitespace is_utf8
replay-append_example =
    replay-append read print (delete (50 ∷ [])) (delete (49 ∷ []) ∷ []) file (50 ∷ []) refl
      file_replays refl refl (omega arith, tt) refl refl

-- "{" alone is the start of a line that is no operation.
replay-torn_example : replay read (some (file ++ 123 ∷ [])) ≡ (
    replay read (some file) >>= λ ops.
    if not (is_utf8 (123 ∷ []))
    then err io
    else if is_blank (123 ∷ [])
    then ok ops
    else elim (read (123 ∷ [])) [ none ↦ err json | some op ↦ ok (ops ++ op ∷ []) ])
replay-torn_example = replay-torn read file 123 [] refl (omega arith, tt)

torn_fails : replay read (some (file ++ 123 ∷ [])) ≡ err json
unfolding replay push_op for_each_line for_each split_lines is_blank chars is_whitespace is_utf8
torn_fails = refl

-- A character of two bytes that is cut.
cut_fails : replay read (some (file ++ 0xC3 ∷ [])) ≡ err io
unfolding replay push_op for_each_line for_each split_lines is_blank chars is_whitespace is_utf8
cut_fails = refl
