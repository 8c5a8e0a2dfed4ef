-- ===== src/Tests/Disclosures.antt =====
-- A query through the server's handler, with an audit log that is empty before it.
use l5m.Prelude.{ℕ, refl, ap, ap₂, some, none, [], ◌∷◌, arith}
use l5m.Prelude.Text.{chars, is_whitespace}
use l5m.Prelude.Utf8.{is_utf8}
use l5m.Outcome.{Outcome, ok}
use l5m.Frame.{MemoryFrame, MemoryProbe}
use l5m.Audit.{
  AuditRecord, is_blank, from_query, chained, for_each_line, split_lines, last_record_hash,
  verify_chain,
}
use l5m.Audit.Chain.{IsIntact}
use l5m.Store.Modes.{QueryRequest, to_probe, query}
use l5m.Server.{done}
use l5m.Server.Principal.{Principal, read}
use l5m.Server.Query.{QueryBody, request_of, query_memory}
use l5m.Server.Query.Audited.{Audited, query_memory-Audited}
use l5m.Outcome.{for_each}
use l5m.Tests.{probe}
use l5m.Tests.Audits.{hashing, empty_log, answer}
use l5m.Tests.Stores.{store}

abbrev reader : Principal
reader = record {
  tenant_id = 7;
  context_mask = 49 ∷ [];
  policy_mask = 49 ∷ [];
  trust_floor = 0;
  scope = read;
}

-- The mode is "hybrid".
abbrev body : QueryBody ℕ
body = record {
  query = 97 ∷ [];
  max_capsules = none;
  as_of = none;
  mode = some (104 ∷ 121 ∷ 98 ∷ 114 ∷ 105 ∷ 100 ∷ []);
  embedding = [];
}

abbrev request : QueryRequest ℕ
request = request_of reader body

abbrev or_default {ℓ} : {A : Type ℓ} → A → Outcome A → A
or_default d (ok a) = a
or_default d _ = d

abbrev record_of : MemoryProbe ℕ → MemoryFrame ℕ → AuditRecord
record_of p f = chained hashing (from_query hashing p f 100) empty_log.prev_hash

-- The record of this query.
abbrev disclosed : AuditRecord
disclosed =
    record_of (or_default probe (to_probe hashing request))
      (or_default answer (query hashing (λ xs. xs) store request))

empty-IsIntact : IsIntact (λ line. some disclosed) hashing empty_log 0
unfolding verify_chain for_each_line for_each split_lines last_record_hash
empty-IsIntact = record { ends = refl; verifies = refl; resumes = refl }

query_memory-Audited_example :
    Audited
      (λ line. some disclosed)
      (λ r. ok (97 ∷ []))
      hashing
      0
      (query_memory
        (λ r. ok (97 ∷ []))
        hashing
        (λ xs. xs)
        (done reader)
        body
        store
        100
        (some empty_log))
unfolding is_blank chars is_whitespace is_utf8
query_memory-Audited_example =
    query_memory-Audited (λ line. some disclosed) (λ r. ok (97 ∷ [])) hashing (λ xs. xs) reader body
      store 100 empty_log 0 empty-IsIntact
      (λ p f found answered. record {
        line = 97 ∷ [];
        prints = refl;
        reads =
            ap₂ (λ p f. some (record_of p f)) (ap (or_default probe) found)
              (ap (or_default answer) answered);
        plain = (omega arith, tt);
        utf8 = refl;
        full = refl;
      })
