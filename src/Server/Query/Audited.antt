-- ===== src/Server/Query/Audited.antt =====
-- crates/l5m-server/src/lib.rs, query: the audit log after the handler.
use l5m.Prelude.{true, ℕ, ◌+◌, ◌≤◌, ◌≡◌, refl, false, Option, none, some, List, Bytes, All}
use l5m.Prelude.Utf8.{is_utf8}
use l5m.Platform.{Platform}
use l5m.Outcome.{Outcome, ok, err, panic, bind-ok}
use l5m.Frame.{FrameCapsule, MemoryFrame, MemoryProbe}
use l5m.Audit.{AuditRecord, AuditLog, is_blank, from_query, chained}
use l5m.Audit.Chain.{IsIntact, record_query-IsIntact}
use l5m.Store.{MemoryStore}
use l5m.Store.Modes.{QueryRequest, to_probe, query}
use l5m.Server.{Result, done, failed}
use l5m.Server.Principal.{Principal}
use l5m.Server.Authorize.{Status}
use l5m.Server.Query.{
  QueryBody, log_after, audit_probe, audit_query, answer, request_of, query_memory,
}

-- A query that the store answers has a probe.
query-to_probe :
    (p : Platform) (arrange : List (FrameCapsule p.F32) → List (FrameCapsule p.F32))
    (store : MemoryStore p.F32) (request : QueryRequest p.F32) {frame : MemoryFrame p.F32}
    → query p arrange store request ≡ ok frame
    → (probe : MemoryProbe p.F32) × (to_probe p request ≡ ok probe)
unfolding query
query-to_probe p arrange store request h =
    let (probe, e, rest) = bind-ok (to_probe p request) _ h in (probe, e)

module _ (from_json : Bytes → Option AuditRecord) (to_json : AuditRecord → Outcome Bytes)
    (platform : Platform) where
  open platform use {F32}

  -- The JSON library prints the record as one line of UTF-8 that it reads back.
  pub record IsPrinted (r : AuditRecord) : Type 0 where
    pub line : Bytes
    pub prints : to_json r ≡ ok line
    pub reads : from_json line ≡ some r
    pub plain : All (λ b. 32 ≤ b) line
    pub utf8 : is_utf8 line ≡ true
    pub full : is_blank line ≡ false

  -- After a handler that began with an intact log of `n` records: an answered query has added one
  -- record, and an error none.
  abbrev pub Audited : ℕ → Outcome (Result Status (MemoryFrame F32) × Option AuditLog) → Type 0
  Audited n (ok (done frame, some log)) = IsIntact from_json platform log (n + 1)
  Audited n (ok (failed e, some log)) = IsIntact from_json platform log n
  Audited n (ok (r, none)) = ⊥
  Audited n (err e) = ⊥
  Audited n panic = Unit

  answer-Audited :
      (request : QueryRequest F32) (now : ℕ) (log : AuditLog) (n : ℕ)
      (answered : Outcome (MemoryFrame F32))
      → IsIntact from_json platform log n
      → ((frame : MemoryFrame F32)
          → answered ≡ ok frame
          → (probe : MemoryProbe F32) × (to_probe platform request ≡ ok probe)
            × IsPrinted (chained platform (from_query platform probe frame now) log.prev_hash))
      → Audited n (answer to_json platform request now (some log) answered)
  unfolding answer audit_query audit_probe log_after
  answer-Audited request now log n (ok frame) h printed =
      let (probe, e, line) = printed frame refl in
      let (r, log', writes, intact) =
        record_query-IsIntact from_json platform to_json probe frame now log n line.line h
          line.prints line.reads line.plain line.utf8 line.full in
      rw (e, writes) intact
  answer-Audited request now log n (err e) h printed = h
  answer-Audited request now log n panic h printed = tt

-- If the audit log verifies with `n` records, then after an authorized query it verifies with one
-- record more if the query is answered, and with `n` if the store returns an error. The JSON library
-- is to print the record of the query as one line of UTF-8 that it reads back.
pub query_memory-Audited :
    (from_json : Bytes → Option AuditRecord) (to_json : AuditRecord → Outcome Bytes)
    (platform : Platform)
    (arrange : List (FrameCapsule platform.F32) → List (FrameCapsule platform.F32))
    (principal : Principal) (body : QueryBody platform.F32) (store : MemoryStore platform.F32)
    (now : ℕ) (log : AuditLog) (n : ℕ)
    → IsIntact from_json platform log n
    → ((probe : MemoryProbe platform.F32) (frame : MemoryFrame platform.F32)
        → to_probe platform (request_of principal body) ≡ ok probe
        → query platform arrange store (request_of principal body) ≡ ok frame
        → IsPrinted from_json to_json platform
            (chained platform (from_query platform probe frame now) log.prev_hash))
    → Audited from_json to_json platform n
        (query_memory to_json platform arrange (done principal) body store now (some log))
unfolding query_memory
query_memory-Audited from_json to_json platform arrange principal body store now log n h printed =
    let request = request_of principal body in
    answer-Audited from_json to_json platform request now log n
      (query platform arrange store request) h
      (λ frame e.
        let (probe, found) = query-to_probe platform arrange store request e in
        (probe, found, printed probe frame found e))
