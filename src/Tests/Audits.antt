-- ===== src/Tests/Audits.antt =====
-- An audit log of one record, and a hash of 32 bytes.
use l5m.Prelude.{
  arith, ℕ, ◌≡◌, refl, Option, some, [], ◌∷◌, ◌++◌, map, Bytes, length, replicate, bytes_eq,
  if◌then◌else◌,
}
use l5m.Prelude.Int.{pos}
use l5m.Prelude.Text.{chars, is_whitespace}
use l5m.Prelude.Digits.{hex_bytes, to_le}
use l5m.Prelude.Utf8.{is_utf8}
use l5m.Platform.{Platform}
use l5m.Outcome.{ok, err, for_each, format, chain_broken}
use l5m.Frame.{MemoryFrame, no_coverage}
use l5m.Retrieve.Rank.{frame_capsule}
use l5m.Audit.{
  AuditRecord, AuditLog, AuditReturned, for_each_line, split_lines, is_blank, from_query, chained,
  start, last_record_hash, content, open_log, record_query, check_record, check_line, verify_chain,
  zero_hash, compute_hash, covered, returned_bytes,
}
use l5m.Audit.Chain.{IsIntact, open_log-IsIntact, record_query-IsIntact}
use l5m.Audit.Tamper.{
  history, signed, verify_chain-same_history, verify_chain-rejects, check_record-field_shift,
}
use l5m.Tests.{platform, note, probe}

abbrev pub hashing : Platform
hashing = record platform { blake3 = λ text. replicate 31 1 ++ length text ∷ [] }

abbrev disclosed : AuditReturned
disclosed = record { capsule_id = 49 ∷ 50 ∷ []; source_hash = 97 ∷ []; trust_level = 5 }

abbrev entry : AuditRecord
entry = record {
  timestamp_unix = 100;
  tenant_id = 7;
  context_mask = 48 ∷ 120 ∷ 49 ∷ [];
  policy_mask = 48 ∷ 120 ∷ 49 ∷ [];
  trust_floor = 2;
  as_of = pos 10;
  query_hash = 98 ∷ [];
  candidate_count_before_scoring = 1;
  returned_count = 1;
  returned = disclosed ∷ [];
  prev_hash = zero_hash;
  record_hash = zero_hash;
}

-- Lines of one letter, read as records: `a` is the entry, and `b` the entry with another hash.
abbrev read : Bytes → Option AuditRecord
read line = if bytes_eq line (97 ∷ []) then some (chained hashing entry zero_hash) else some entry

abbrev file : Bytes
file = 97 ∷ 10 ∷ []

file_verifies : verify_chain read hashing (some file) ≡ ok 1
unfolding verify_chain for_each_line for_each split_lines is_utf8 check_line is_blank chars
    is_whitespace check_record chained compute_hash hex_bytes to_le returned_bytes covered
    last_record_hash
file_verifies = refl

file_resumes : last_record_hash read (some file) ≡ ok (chained hashing entry zero_hash).record_hash
unfolding verify_chain for_each_line for_each split_lines is_utf8 check_line is_blank chars
    is_whitespace check_record chained compute_hash hex_bytes to_le returned_bytes covered
    last_record_hash
file_resumes = refl

open_log-IsIntact_example :
    (log : AuditLog) × (open_log read (some file) ≡ ok log) × IsIntact read hashing log 1
unfolding content
open_log-IsIntact_example = open_log-IsIntact read hashing (some file) 1 refl file_verifies

abbrev pub empty_log : AuditLog
empty_log = record { file = []; prev_hash = zero_hash }

abbrev pub answer : MemoryFrame ℕ
answer = record {
  epoch = 1;
  query_hash = [];
  capsules = frame_capsule (note 12 7 []) 1 [] ∷ [];
  conflicts = [];
  coverage = no_coverage;
}

abbrev written : AuditRecord
written = chained hashing (from_query hashing probe answer 100) zero_hash

empty-IsIntact : IsIntact (λ line. some written) hashing empty_log 0
unfolding verify_chain for_each_line for_each split_lines is_utf8 check_line is_blank chars
    is_whitespace check_record chained compute_hash hex_bytes to_le returned_bytes covered
    last_record_hash
empty-IsIntact = record { ends = refl; verifies = refl; resumes = refl }

record_query-IsIntact_example :
    (r : AuditRecord) × (log : AuditLog) × (record_query
        (λ r. ok (97 ∷ []))
        hashing
        probe
        answer
        100
        empty_log
      ≡ ok (r, log))
    × IsIntact (λ line. some written) hashing log 1
unfolding is_blank chars is_whitespace is_utf8
record_query-IsIntact_example =
    record_query-IsIntact (λ line. some written) hashing (λ r. ok (97 ∷ [])) probe answer 100
      empty_log 0 (97 ∷ []) empty-IsIntact refl refl (omega arith, tt) refl refl

verify_chain-same_history_example : map signed (history read file) ≡ map signed (history read file)
unfolding verify_chain for_each_line for_each split_lines is_utf8 check_line is_blank chars
    is_whitespace check_record chained compute_hash hex_bytes to_le returned_bytes covered
    last_record_hash
verify_chain-same_history_example =
    verify_chain-same_history hashing read file file 1 1
      (chained hashing entry zero_hash).record_hash (λ text. refl) (((λ e. refl), tt), tt)
      ((λ e. absurd (cc)), tt) ((λ e. absurd (cc)), tt) file_verifies file_verifies file_resumes
      file_resumes

verify_chain-rejects_example :
    verify_chain read hashing (some (file ++ (98 ∷ 10 ∷ file))) ≡ err (format (chain_broken 1))
unfolding verify_chain for_each_line for_each split_lines is_utf8 check_line is_blank chars
    is_whitespace check_record chained compute_hash hex_bytes to_le returned_bytes covered
    last_record_hash
verify_chain-rejects_example =
    verify_chain-rejects hashing read file (98 ∷ []) file 1
      (chained hashing entry zero_hash).record_hash entry refl file_verifies file_resumes
      (omega arith, tt) refl refl refl refl

check_record-field_shift_example :
    (check_record hashing
        (record entry { context_mask = 48 ∷ 120 ∷ 49 ∷ []; policy_mask = [] })
        start
      ≡ check_record hashing
          (record entry { context_mask = 48 ∷ 120 ∷ []; policy_mask = 49 ∷ [] })
          start)
    × (check_record hashing
          (record entry {
            returned = record disclosed { capsule_id = 48 ∷ 120 ∷ 49 ∷ []; source_hash = [] } ∷ [];
          })
          start
        ≡ check_record hashing
            (record entry {
              returned =
                  record disclosed { capsule_id = 48 ∷ 120 ∷ []; source_hash = 49 ∷ [] } ∷ [];
            })
            start)
check_record-field_shift_example =
    check_record-field_shift hashing entry disclosed [] (48 ∷ 120 ∷ []) (49 ∷ []) [] start
