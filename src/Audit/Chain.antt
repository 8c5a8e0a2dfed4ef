-- ===== src/Audit/Chain.antt =====
-- crates/l5m-core/src/audit.rs: the lines of the log, and what a written record does to its chain.
use l5m.Prelude.{
  ℕ, ◌+◌, ◌≤◌, ◌≡◌, ◌≢◌, refl, sym, ap, ◌∙◌, Bool, true, false, Option, none, some, List, [], ◌∷◌,
  ◌++◌, append_assoc, Bytes, bytes_eq, bytes_eq_refl, bytes_eq→eq, ◌==◌, All, Bool-cases, arith,
  ==_iff, inl, inr, Option-cases,
}
use l5m.Prelude.Utf8.{is_utf8}
use l5m.Platform.{Platform}
use l5m.Outcome.{Outcome, ok, ◌>>=◌, for_each, bind-ok, for_each-append}
use l5m.Frame.{MemoryFrame, MemoryProbe}
use l5m.Audit.{
  covered, AuditRecord, AuditLog, Progress, split_lines, add_char, starts_with_newline, line_step,
  is_blank, from_query, chained, last_of, last_record_hash, content, open_log, record_query,
  read_line, reading, for_each_line, check_record, check_line, verify_chain, start, zero_hash,
  compute_hash,
}

-- The text is empty or its last line has its end.
abbrev pub ends_line : Bytes → Bool
ends_line [] = true
ends_line (b ∷ []) = b == 10
ends_line (b ∷ c ∷ bs) = ends_line (c ∷ bs)

pub ends_line-append : (bs : Bytes) → ends_line (bs ++ 10 ∷ []) ≡ true
ends_line-append [] = refl
ends_line-append (b ∷ []) = refl
ends_line-append (b ∷ c ∷ bs) = ends_line-append (c ∷ bs)

line_step-append :
    (b : ℕ) (next : Bool) (ls ms : List Bytes)
    → ls ≢ []
    → line_step b next (ls ++ ms) ≡ line_step b next ls ++ ms
unfolding line_step add_char
line_step-append b next [] ms h = absurd (h refl)
line_step-append b next (l ∷ ls) ms h = ground arith

line_step-ne :
    (b : ℕ) (next : Bool) (ls : List Bytes) → (next ≡ true → ls ≢ []) → line_step b next ls ≢ []
unfolding line_step add_char
line_step-ne b true [] h e = h refl refl
line_step-ne b false [] h e = ground arith
line_step-ne b next (l ∷ ls) h e = ground arith

-- A line without control characters is split off whole.
pub lines-line :
    (line rest : Bytes)
    → All (λ b. 32 ≤ b) line
    → split_lines (line ++ 10 ∷ rest) ≡ line ∷ split_lines rest
unfolding split_lines line_step add_char
lines-line [] rest h = refl
lines-line (b ∷ bs) rest h = rw (lines-line bs rest h.1) (ground (arith, h.0))

starts-lines-ne : (bs : Bytes) → starts_with_newline bs ≡ true → split_lines bs ≢ []
unfolding split_lines line_step starts_with_newline
starts-lines-ne [] h e = absurd (cc)
starts-lines-ne (b ∷ bs) h e = ground arith

lines-ne : (b : ℕ) (bs : Bytes) → split_lines (b ∷ bs) ≢ []
unfolding split_lines
lines-ne b bs = line_step-ne b (starts_with_newline bs) (split_lines bs) (starts-lines-ne bs)

pub lines-append :
    (xs ys : Bytes)
    → ends_line xs ≡ true
    → split_lines (xs ++ ys) ≡ split_lines xs ++ split_lines ys
unfolding split_lines starts_with_newline
lines-append [] ys h = refl
lines-append (b ∷ []) ys h = let e : b ≡ 10 = (==_iff b 10).0 h in rw e refl
lines-append (b ∷ c ∷ bs) ys h =
    ap (line_step b (c == 10)) (lines-append (c ∷ bs) ys h)
    ∙ line_step-append b (c == 10) (split_lines (c ∷ bs)) (split_lines ys) (lines-ne c bs)

-- A round that returns has read a line of UTF-8.
pub reading-ok {ℓ} :
    {S : Type ℓ} (body : Bytes → S → Outcome S) (l : Bytes) (s : S) {s' : S}
    → reading body l s ≡ ok s'
    → (is_utf8 l ≡ true) × (body l s ≡ ok s')
unfolding reading read_line
reading-ok body l s h = elim (Bool-cases (is_utf8 l)) [
  | inl e ↦ (e, rw e at h)
  | inr e ↦ absurd (ground arith)
]

pub reading-utf8 {ℓ} :
    {S : Type ℓ} (body : Bytes → S → Outcome S) (l : Bytes) (s : S)
    → is_utf8 l ≡ true
    → reading body l s ≡ body l s
unfolding reading read_line
reading-utf8 body l s e = rw e refl

-- What verification goes on with after a record.
abbrev pub after : AuditRecord → Progress → Progress
after r p = record { index = p.index + 1; expected_prev = r.record_hash; count = p.count + 1 }

-- A record that is accepted goes on from the expected hash and recomputes, and its hash is the next.
pub check_record-ok :
    (platform : Platform) (r : AuditRecord) (p : Progress) {q : Progress}
    → check_record platform r p ≡ ok q
    → (r.prev_hash ≡ p.expected_prev) × (compute_hash platform r ≡ r.record_hash) × (q ≡ after r p)
unfolding check_record
check_record-ok platform r p {q} h = elim (Bool-cases (bytes_eq r.prev_hash p.expected_prev)) [
  | inr e ↦ absurd (ground arith)
  | inl e ↦ elim (Bool-cases (bytes_eq (compute_hash platform r) r.record_hash)) [
    | inr e' ↦ absurd (ground arith)
    | inl e' ↦ (bytes_eq→eq _ _ e, bytes_eq→eq _ _ e', ground arith)
  ]
]

check_record-accepts :
    (platform : Platform) (r : AuditRecord) (p : Progress)
    → r.prev_hash ≡ p.expected_prev
    → compute_hash platform r ≡ r.record_hash
    → check_record platform r p ≡ ok (after r p)
unfolding check_record
check_record-accepts platform r p prev hash =
    rw (hash, bytes_eq_refl r.record_hash, prev, bytes_eq_refl p.expected_prev) refl

chained-prev_hash :
    (platform : Platform) (r : AuditRecord) (prev : Bytes)
    → (chained platform r prev).prev_hash ≡ prev
unfolding chained
chained-prev_hash platform r prev = refl

-- A written record has the hash that verification computes.
compute_hash-chained :
    (platform : Platform) (r : AuditRecord) (prev : Bytes)
    → compute_hash platform (chained platform r prev) ≡ (chained platform r prev).record_hash
unfolding chained compute_hash covered
compute_hash-chained platform r prev = refl

-- A line after the end of the others is read after them.
pub lines-add :
    (file line : Bytes)
    → ends_line file ≡ true
    → All (λ b. 32 ≤ b) line
    → split_lines (file ++ line ++ 10 ∷ []) ≡ split_lines file ++ line ∷ []
unfolding split_lines
lines-add file line ends h =
    ap split_lines (append_assoc file line (10 ∷ []))
    ∙ lines-append file (line ++ 10 ∷ []) ends
    ∙ ap (λ ls. split_lines file ++ ls) (lines-line line [] h)

module _ (from_json : Bytes → Option AuditRecord) (platform : Platform) where
  abbrev check : Bytes → Progress → Outcome Progress
  check = reading (check_line from_json platform)

  -- One line: what verification accepts, reopening reads, with the same hash after it.
  pub check_line-ok :
      (line : Bytes) (p : Progress) {q : Progress}
      → check_line from_json platform line p ≡ ok q
      → last_of from_json line p.expected_prev ≡ ok q.expected_prev
  unfolding check_line last_of
  check_line-ok line p {q} h = elim (Bool-cases (is_blank line)) [
    | inl e ↦ rw e (hash_of (rw e at h))
    | inr e ↦ elim (Option-cases (from_json line)) [
      | inl e' ↦ absurd (ground arith)
      | inr (r, e') ↦
          rw (e, e')
            (ap (λ q. ok q.expected_prev) (sym (check_record-ok platform r p (rw (e, e') at h)).2))
    ]
  ]
    where
      hash_of : {a b : Progress} → ok a ≡ ok b → ok a.expected_prev ≡ ok b.expected_prev
      hash_of h = ap (λ (m : Outcome Progress). m >>= λ p. ok p.expected_prev) h

  reads_same :
      (l : Bytes) (p : Progress) {q : Progress}
      → check l p ≡ ok q
      → reading (last_of from_json) l p.expected_prev ≡ ok q.expected_prev
  reads_same l p h =
      let (utf8, e) = reading-ok (check_line from_json platform) l p h in
      reading-utf8 (last_of from_json) l p.expected_prev utf8 ∙ check_line-ok l p e

  pub check_lines-ok :
      (ls : List Bytes) (p : Progress) {q : Progress}
      → for_each check ls p ≡ ok q
      → for_each (reading (last_of from_json)) ls p.expected_prev ≡ ok q.expected_prev
  unfolding for_each
  check_lines-ok [] p h = ap (λ (m : Outcome Progress). m >>= λ p. ok p.expected_prev) h
  check_lines-ok (l ∷ ls) p h =
      let (p', e, e') = bind-ok (check l p) (for_each check ls) h in
      ap (λ m. m >>= for_each (reading (last_of from_json)) ls) (reads_same l p e)
      ∙ check_lines-ok ls p' e'

  -- Verification as a pass over the lines.
  pub verified :
      (file : Bytes) {n : ℕ}
      → verify_chain from_json platform (some file) ≡ ok n
      → (q : Progress) × (for_each check (split_lines file) start ≡ ok q) × (q.count ≡ n)
  unfolding verify_chain for_each_line
  verified file h =
      let (q, e, e') = bind-ok (for_each check (split_lines file) start) (λ q. ok q.count) h in
      (q, e, cc)

  pub record IsIntact (log : AuditLog) (n : ℕ) : Type 0 where
    pub ends : ends_line log.file ≡ true
    pub verifies : verify_chain from_json platform (some log.file) ≡ ok n
    pub resumes : last_record_hash from_json (some log.file) ≡ ok log.prev_hash

  -- A log that verifies and ends a line is opened as an intact log, and so is a missing one.
  pub open_log-IsIntact :
      (path : Option Bytes) (n : ℕ)
      → ends_line (content path) ≡ true
      → verify_chain from_json platform (some (content path)) ≡ ok n
      → (log : AuditLog) × (open_log from_json path ≡ ok log) × IsIntact log n
  unfolding open_log content last_record_hash verify_chain for_each_line for_each split_lines
  open_log-IsIntact none n ends h = (
    record { file = []; prev_hash = zero_hash },
    refl,
    record { ends = ends; verifies = h; resumes = refl },
  )
  open_log-IsIntact (some file) n ends h =
      let (q, e, c) = verified file h in
      let last = check_lines-ok (split_lines file) start e in
      (
        record { file = file; prev_hash = q.expected_prev },
        ap (λ m. m >>= λ prev. ok (record { file = file; prev_hash = prev })) last,
        record { ends = ends; verifies = h; resumes = last },
      )

  accepts_line :
      (r : AuditRecord) (line : Bytes) (p : Progress)
      → from_json line ≡ some r
      → is_utf8 line ≡ true
      → is_blank line ≡ false
      → r.prev_hash ≡ p.expected_prev
      → compute_hash platform r ≡ r.record_hash
      → check line p ≡ ok (after r p)
  unfolding check_line
  accepts_line r line p reads utf8 full prev hash =
      reading-utf8 (check_line from_json platform) line p utf8
      ∙ rw (full, reads) (check_record-accepts platform r p prev hash)

  -- A record that is written to an intact log leaves it intact with one record more. The JSON
  -- library is to print the record as one line of UTF-8 that it reads back.
  pub record_query-IsIntact :
      (to_json : AuditRecord → Outcome Bytes) (probe : MemoryProbe platform.F32)
      (frame : MemoryFrame platform.F32) (timestamp_unix : ℕ) (log : AuditLog) (n : ℕ)
      (line : Bytes)
      → IsIntact log n
      → to_json (chained platform (from_query platform probe frame timestamp_unix) log.prev_hash)
        ≡ ok line
      → from_json line
        ≡ some (chained platform (from_query platform probe frame timestamp_unix) log.prev_hash)
      → All (λ b. 32 ≤ b) line
      → is_utf8 line ≡ true
      → is_blank line ≡ false
      → (r : AuditRecord) × (log' : AuditLog) × (record_query to_json platform probe frame
            timestamp_unix log
          ≡ ok (r, log'))
        × IsIntact log' (n + 1)
  unfolding record_query verify_chain last_record_hash for_each_line for_each
  record_query-IsIntact to_json probe frame timestamp_unix log n line h prints reads plain utf8
        full =
      let r = chained platform (from_query platform probe frame timestamp_unix) log.prev_hash in
      let (q, e, c) = verified log.file h.verifies in
      let same : ok log.prev_hash ≡ ok q.expected_prev =
        sym h.resumes ∙ check_lines-ok (split_lines log.file) start e in
      let built = from_query platform probe frame timestamp_unix in
      let prev : r.prev_hash ≡ q.expected_prev =
        chained-prev_hash platform built log.prev_hash ∙ cc in
      let file = log.file ++ line ++ 10 ∷ [] in
      let passes : for_each check (split_lines file) start ≡ ok (after r q) =
        ap (λ ls. for_each check ls start) (lines-add log.file line h.ends plain)
        ∙ for_each-append check (split_lines log.file) (line ∷ []) start
        ∙ ap (λ m. m >>= for_each check (line ∷ [])) e
        ∙ ap (λ m. m >>= for_each check [])
            (accepts_line r line q reads utf8 full prev
              (compute_hash-chained platform built log.prev_hash)) in
      let log' : AuditLog = record { file = file; prev_hash = r.record_hash } in
      (
        r,
        log',
        ap
            (λ m. m >>= λ line.
              ok (r, record { file = log.file ++ line ++ (10 ∷ []); prev_hash = r.record_hash }))
            prints,
        record {
          ends = ends_line-append (log.file ++ line);
          verifies = ap (λ m. m >>= λ p. ok p.count) passes ∙ ap (λ k. ok (k + 1)) c;
          resumes = check_lines-ok (split_lines file) start passes;
        },
      )
