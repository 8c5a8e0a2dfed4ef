-- ===== src/Audit.antt =====
-- crates/l5m-core/src/audit.rs: the audit log, a file of one JSON record in each line whose hashes
-- form a chain. A file is its bytes, or none where there is no file; writing to it succeeds.
pub mod Chain
pub mod Tamper
use l5m.Prelude.{
  ℕ, suc, ◌+◌, Bool, true, false, not, ◌&&◌, Option, none, some, List, [], ◌∷◌, ◌++◌, map, Bytes,
  bytes_eq, ◌==◌, if◌then◌else◌, all, length, replicate,
}
use l5m.Prelude.Int.{ℤ}
use l5m.Prelude.Text.{chars, is_whitespace}
use l5m.Prelude.Digits.{decimal, hex, hex_bytes, to_le, unsigned}
use l5m.Prelude.Utf8.{is_utf8}
use l5m.Platform.{Platform}
use l5m.Outcome.{
  Outcome, ok, err, ◌>>=◌, for_each, io, json, format, chain_broken, record_modified, unparseable,
}
use l5m.Frame.{FrameCapsule, MemoryFrame, MemoryProbe}

pub record AuditReturned : Type 0 where
  pub capsule_id : Bytes
  pub source_hash : Bytes
  pub trust_level : ℕ

pub record AuditRecord : Type 0 where
  pub timestamp_unix : ℕ
  pub tenant_id : ℕ
  pub context_mask : Bytes
  pub policy_mask : Bytes
  pub trust_floor : ℕ
  pub as_of : ℤ
  pub query_hash : Bytes
  pub candidate_count_before_scoring : ℕ
  pub returned_count : ℕ
  pub returned : List AuditReturned
  pub prev_hash : Bytes
  pub record_hash : Bytes

audit_returned : {F : Type 0} → FrameCapsule F → AuditReturned
audit_returned c = record {
  capsule_id = decimal c.capsule_id;
  source_hash = hex_bytes c.source_hash;
  trust_level = c.trust_level;
}

-- The bytes that the entries for the returned capsules add to the hash.
unfoldable pub returned_bytes : List AuditReturned → Bytes
returned_bytes [] = []
returned_bytes (r ∷ rs) = r.capsule_id ++ r.source_hash ++ (r.trust_level ∷ []) ++ returned_bytes rs

-- What the hash covers after `prev_hash`.
unfoldable pub covered : AuditRecord → Bytes
covered r =
    to_le 8 r.timestamp_unix
    ++ to_le 8 r.tenant_id
    ++ r.context_mask
    ++ r.policy_mask
    ++ (r.trust_floor ∷ [])
    ++ to_le 8 (unsigned 64 r.as_of)
    ++ r.query_hash
    ++ to_le 8 r.candidate_count_before_scoring
    ++ to_le 8 r.returned_count
    ++ returned_bytes r.returned

abbrev pub zero_hash : Bytes
zero_hash = replicate 64 48

-- The pieces between line ends, which are "\n" or "\r\n".
unfoldable pub add_char : ℕ → List Bytes → List Bytes
add_char b [] = (b ∷ []) ∷ []
add_char b (l ∷ ls) = (b ∷ l) ∷ ls

unfoldable pub starts_with_newline : Bytes → Bool
starts_with_newline [] = false
starts_with_newline (b ∷ bs) = b == 10

-- The lines from a character on, before the lines of the rest; `next` says if that starts with "\n".
unfoldable pub line_step : ℕ → Bool → List Bytes → List Bytes
unfolding add_char
line_step b next rest =
    if b == 10 then [] ∷ rest else if b == 13 && next then rest else add_char b rest

unfoldable pub split_lines : Bytes → List Bytes
unfolding line_step starts_with_newline
split_lines [] = []
split_lines (b ∷ bs) = let rest = split_lines bs in line_step b (starts_with_newline bs) rest

-- One line of `BufRead::lines`: an error where the piece is not UTF-8.
unfoldable pub read_line : Bytes → Outcome Bytes
unfolding is_utf8
read_line piece = if is_utf8 piece then ok piece else err io

-- `let line = line?;` and the rest of a round.
unfoldable pub reading {ℓ} : {S : Type ℓ} → (Bytes → S → Outcome S) → Bytes → S → Outcome S
unfolding read_line
reading body piece s = read_line piece >>= λ line. body line s

-- `for line in BufReader::new(file).lines()`, over the variables that the body assigns.
unfoldable pub for_each_line {ℓ} : {S : Type ℓ} → (Bytes → S → Outcome S) → Bytes → S → Outcome S
unfolding reading split_lines for_each
for_each_line body file = for_each (reading body) (split_lines file)

-- `line.trim().is_empty()`.
unfoldable pub is_blank : Bytes → Bool
is_blank line = all is_whitespace (chars line)

-- `AuditRecord::compute_hash`.
unfoldable pub compute_hash : Platform → AuditRecord → Bytes
unfolding covered
compute_hash platform r = hex_bytes (platform.blake3 (r.prev_hash ++ covered r))

-- `AuditRecord::from_query`.
unfoldable pub from_query :
    (platform : Platform) → MemoryProbe platform.F32 → MemoryFrame platform.F32 → ℕ → AuditRecord
unfolding audit_returned
from_query platform probe frame timestamp_unix = record {
  timestamp_unix = timestamp_unix;
  tenant_id = probe.tenant_id;
  context_mask = hex probe.context_mask;
  policy_mask = hex probe.caller_policy_mask;
  trust_floor = probe.trust_floor;
  as_of = probe.as_of;
  query_hash = hex_bytes (platform.blake3 probe.query_text);
  candidate_count_before_scoring = frame.coverage.candidate_count_before_scoring;
  returned_count = length frame.capsules;
  returned = map audit_returned frame.capsules;
  prev_hash = [];
  record_hash = [];
}

pub record AuditLog : Type 0 where
  pub file : Bytes
  pub prev_hash : Bytes

-- The variables of the loop of `verify_chain`; `index` is the loop's.
pub record Progress : Type 0 where
  pub index : ℕ
  pub expected_prev : Bytes
  pub count : ℕ

abbrev pub start : Progress
start = record { index = 0; expected_prev = zero_hash; count = 0 }

unfoldable pub or_missing : Option Bytes → Outcome Bytes
or_missing none = err io
or_missing (some file) = ok file

-- `chained platform record prev_hash`: the record as it is written.
unfoldable pub chained : Platform → AuditRecord → Bytes → AuditRecord
chained platform r prev =
    let linked = record r { prev_hash = prev } in
    record linked { record_hash = compute_hash platform linked }

-- `AuditLog::record`: the record, and the log after it; `to_json` is `serde_json::to_string`.
unfoldable pub record_query :
    (AuditRecord → Outcome Bytes)
    → (platform : Platform) → MemoryProbe platform.F32
    → MemoryFrame platform.F32
    → ℕ
    → AuditLog
    → Outcome (AuditRecord × AuditLog)
record_query to_json platform probe frame timestamp_unix log =
    let written = chained platform (from_query platform probe frame timestamp_unix) log.prev_hash in
    to_json written >>= λ line.
    ok (written, record { file = log.file ++ line ++ (10 ∷ []); prev_hash = written.record_hash })

-- The checks of a record that is at the place that the progress says.
unfoldable pub check_record : Platform → AuditRecord → Progress → Outcome Progress
check_record platform r p =
    if not (bytes_eq r.prev_hash p.expected_prev)
    then err (format (chain_broken p.index))
    else if not (bytes_eq (compute_hash platform r) r.record_hash)
    then err (format (record_modified p.index))
    else ok (record { index = p.index + 1; expected_prev = r.record_hash; count = p.count + 1 })

unfoldable pub content : Option Bytes → Bytes
content none = []
content (some file) = file

-- `serde_json::from_str`.
module _ (from_json : Bytes → Option AuditRecord) where
  -- One round of the loop of `last_record_hash`.
  unfoldable pub last_of : Bytes → Bytes → Outcome Bytes
  last_of line last =
      if is_blank line
      then ok last
      else elim (from_json line) [ none ↦ err json | some r ↦ ok r.record_hash ]

  unfoldable pub last_record_hash : Option Bytes → Outcome Bytes
  unfolding last_of for_each_line
  last_record_hash none = ok zero_hash
  last_record_hash (some file) = for_each_line last_of file zero_hash

  -- `AuditLog::open`.
  unfoldable pub open_log : Option Bytes → Outcome AuditLog
  open_log path = do
    prev ← last_record_hash path
    ok (record { file = content path; prev_hash = prev })

  unfoldable pub check_line : Platform → Bytes → Progress → Outcome Progress
  check_line platform line p =
      if is_blank line then ok (record p { index = p.index + 1 }) else elim (from_json line) [
        | none ↦ err (format (unparseable p.index))
        | some r ↦ check_record platform r p
      ]

  unfoldable pub verify_chain : Platform → Option Bytes → Outcome ℕ
  unfolding check_line or_missing for_each_line
  verify_chain platform path =
      or_missing path >>= λ file. for_each_line (check_line platform) file start >>= λ p. ok p.count
