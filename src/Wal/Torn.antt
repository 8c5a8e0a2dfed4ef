-- ===== src/Wal/Torn.antt =====
-- crates/l5m-core/src/wal.rs: what is appended is replayed, and what a crash leaves is not.
use l5m.Prelude.Utf8.{is_utf8}
use l5m.Prelude.{
  fun_ext, append_assoc, not, if◌then◌else◌, ℕ, ◌≤◌, ◌≡◌, refl, ap, ◌∙◌, true, false, Option, none,
  some, List, [], ◌∷◌, ◌++◌, Bytes, All, arith,
}
use l5m.Outcome.{Outcome, ok, err, panic, ◌>>=◌, for_each, for_each-append, io, json}
use l5m.Audit.{for_each_line, reading, read_line, split_lines, line_step, add_char, is_blank}
use l5m.Audit.Chain.{ends_line, ends_line-append, lines-line, lines-append, reading-utf8}
use l5m.Wal.{LoggedOp, append, push_op, replay}

-- A rest without line ends is a line.
lines-rest :
    (b : ℕ) (bs : Bytes) → All (λ b. 32 ≤ b) (b ∷ bs) → split_lines (b ∷ bs) ≡ (b ∷ bs) ∷ []
unfolding split_lines line_step add_char
lines-rest b [] h = ground (arith, h.0)
lines-rest b (c ∷ cs) h = rw (lines-rest c cs h.1) (ground (arith, h.0))

bind-ok_id : {A : Type 0} (m : Outcome A) → (m >>= λ a. ok a) ≡ m
bind-ok_id (ok a) = refl
bind-ok_id (err e) = refl
bind-ok_id panic = refl

module _ {F : Type 0} (from_json : Bytes → Option (LoggedOp F)) where
  push_op-reads :
      (line : Bytes) (op : LoggedOp F) (ops : List (LoggedOp F))
      → is_blank line ≡ false
      → from_json line ≡ some op
      → push_op from_json line ops ≡ ok (ops ++ op ∷ [])
  unfolding push_op
  push_op-reads line op ops full reads = rw (full, reads) refl

  -- A last line is read after the others, whether it has its end or not.
  replay-last :
      (file last line : Bytes)
      → ends_line file ≡ true
      → split_lines last ≡ line ∷ []
      → replay from_json (some (file ++ last))
        ≡ (replay from_json (some file) >>= reading (push_op from_json) line)
  unfolding replay for_each_line for_each
  replay-last file last line ends one =
      ap (λ ls. for_each (reading (push_op from_json)) ls [])
        (lines-append file last ends ∙ ap (λ ls. split_lines file ++ ls) one)
      ∙ for_each-append (reading (push_op from_json)) (split_lines file) (line ∷ []) []
      ∙ ap (λ f. for_each (reading (push_op from_json)) (split_lines file) [] >>= f)
          (fun_ext (λ ops. bind-ok_id (reading (push_op from_json) line ops)))

  -- An operation that is appended to a log that can be replayed is replayed after the others, from
  -- a log to which more can be appended. The JSON library is to print it as one line of UTF-8 that
  -- it reads back.
  pub replay-append :
      (to_json : LoggedOp F → Outcome Bytes) (op : LoggedOp F) (ops : List (LoggedOp F))
      (file line : Bytes)
      → ends_line file ≡ true
      → replay from_json (some file) ≡ ok ops
      → to_json op ≡ ok line
      → from_json line ≡ some op
      → All (λ b. 32 ≤ b) line
      → is_utf8 line ≡ true
      → is_blank line ≡ false
      → (file' : Bytes) × (append to_json op file ≡ ok file')
        × (ends_line file' ≡ true)
        × (replay from_json (some file') ≡ ok (ops ++ op ∷ []))
  unfolding append split_lines
  replay-append to_json op ops file line ends before prints reads plain utf8 full = (
    file ++ line ++ 10 ∷ [],
    ap (λ m. m >>= λ line. ok (file ++ line ++ 10 ∷ [])) prints,
    ends_line-append (file ++ line),
    ap (λ bs. replay from_json (some bs)) (append_assoc file line (10 ∷ []))
        ∙ replay-last file (line ++ 10 ∷ []) line ends (lines-line line [] plain)
        ∙ ap (λ m. m >>= reading (push_op from_json) line) before
        ∙ reading-utf8 (push_op from_json) line ops utf8
        ∙ push_op-reads line op ops full reads,
  )

  -- What a log gives to which a crash has left only the start of a line: the operations before it
  -- if the start is blank, and these with one more if it is itself an operation. Otherwise they are
  -- lost: the start gives an I/O error if it is cut inside a character, and a JSON error if not.
  pub replay-torn :
      (file : Bytes) (b : ℕ) (bs : Bytes)
      → ends_line file ≡ true
      → All (λ b. 32 ≤ b) (b ∷ bs)
      → replay from_json (some (file ++ b ∷ bs)) ≡ (
          replay from_json (some file) >>= λ ops.
          if not (is_utf8 (b ∷ bs))
          then err io
          else if is_blank (b ∷ bs)
          then ok ops
          else elim (from_json (b ∷ bs)) [ none ↦ err json | some op ↦ ok (ops ++ op ∷ []) ])
  unfolding reading read_line push_op
  replay-torn file b bs ends plain =
      replay-last file (b ∷ bs) (b ∷ bs) ends (lines-rest b bs plain)
      ∙ ap (λ f. replay from_json (some file) >>= f) (fun_ext (λ ops. ground arith))
