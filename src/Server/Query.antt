-- ===== src/Server/Query.antt =====
-- crates/l5m-server/src/lib.rs: the handler `query`, with the audit record of what it discloses. Of
-- the response the model keeps the frame, and of an error its status.
pub mod Audited
use l5m.Prelude.{
  ℕ, ◌-◌, ◌^◌, Bool, true, false, Option, none, some, List, [], ◌∷◌, Bytes, bytes_eq, if◌then◌else◌,
}
use l5m.Prelude.Int.{ℤ, pos}
use l5m.Platform.{Platform}
use l5m.Outcome.{Outcome, ok, err, panic, ◌>>=◌}
use l5m.Frame.{FrameCapsule, MemoryFrame, MemoryProbe}
use l5m.Audit.{AuditRecord, AuditLog, record_query}
use l5m.Store.{MemoryStore}
use l5m.Store.Modes.{
  RetrievalMode, l5m_mode, parent_aggregate_mode, hybrid_bm25_l5m, rrf_fusion_parent, QueryRequest,
  to_probe, query,
}
use l5m.Server.{Result, done, failed}
use l5m.Server.Principal.{Principal}
use l5m.Server.Authorize.{Status, internal_server_error}

pub record QueryBody (F : Type 0) : Type 0 where
  pub query : Bytes
  pub max_capsules : Option ℕ
  pub as_of : Option ℤ
  pub mode : Option Bytes
  pub embedding : List F

unfoldable pub parse_mode : Option Bytes → RetrievalMode
parse_mode none = l5m_mode
parse_mode (some mode) =
    if bytes_eq mode (
      112 ∷ 97 ∷ 114 ∷ 101 ∷ 110 ∷ 116 ∷ 45 ∷ 97 ∷ 103 ∷ 103 ∷ 114 ∷ 101 ∷ 103 ∷ 97 ∷ 116 ∷ 101
      ∷ [])
    then parent_aggregate_mode
    else if bytes_eq mode (104 ∷ 121 ∷ 98 ∷ 114 ∷ 105 ∷ 100 ∷ [])
    then hybrid_bm25_l5m
    else if bytes_eq mode (114 ∷ 114 ∷ 102 ∷ 45 ∷ 112 ∷ 97 ∷ 114 ∷ 101 ∷ 110 ∷ 116 ∷ [])
    then rrf_fusion_parent
    else l5m_mode

-- `unwrap_or`.
abbrev unwrap_or {ℓ} : {A : Type ℓ} → Option A → A → A
unwrap_or none d = d
unwrap_or (some a) d = a

-- The request that the handler makes of the principal and the body.
unfoldable pub request_of : {F : Type 0} → Principal → QueryBody F → QueryRequest F
unfolding parse_mode
request_of principal body = record {
  query = body.query;
  tenant_id = principal.tenant_id;
  as_of = unwrap_or body.as_of (pos (2 ^ 63 - 1));
  context_mask = principal.context_mask;
  policy_mask = principal.policy_mask;
  trust_floor = principal.trust_floor;
  max_capsules = unwrap_or body.max_capsules 8;
  max_tokens = 2 ^ 64 - 1;
  include_supporting = false;
  include_contradictions = false;
  max_hops = 1;
  mode = parse_mode body.mode;
  embedding = body.embedding;
}

-- `let _ =` on what `AuditLog::record` returns: after an error the log is what it was.
unfoldable pub log_after : AuditLog → Outcome (AuditRecord × AuditLog) → Outcome (Option AuditLog)
log_after log (ok written) = ok (some written.1)
log_after log (err e) = ok (some log)
log_after log panic = panic

module _ (to_json : AuditRecord → Outcome Bytes) (platform : Platform) where
  open platform use {F32}

  -- `if let Ok(probe) = request.to_probe()`.
  unfoldable pub audit_probe :
      Outcome (MemoryProbe F32) → MemoryFrame F32 → ℕ → AuditLog → Outcome (Option AuditLog)
  unfolding log_after record_query
  audit_probe (ok probe) frame now log =
      log_after log (record_query to_json platform probe frame now log)
  audit_probe (err e) frame now log = ok (some log)
  audit_probe panic frame now log = panic

  -- The log after the audit of a frame, if there is a log.
  unfoldable pub audit_query :
      QueryRequest F32 → MemoryFrame F32 → ℕ → Option AuditLog → Outcome (Option AuditLog)
  unfolding audit_probe
  audit_query request frame now none = ok none
  audit_query request frame now (some log) = audit_probe (to_probe platform request) frame now log

  -- What the handler does with the result of the store's query.
  unfoldable pub answer :
      QueryRequest F32
      → ℕ
      → Option AuditLog
      → Outcome (MemoryFrame F32)
      → Outcome (Result Status (MemoryFrame F32) × Option AuditLog)
  unfolding audit_query
  answer request now audit (ok frame) =
      audit_query request frame now audit >>= λ audit'. ok (done frame, audit')
  answer request now audit (err e) = ok (failed internal_server_error, audit)
  answer request now audit panic = panic

  -- The handler `query`.
  unfoldable pub query_memory :
      (List (FrameCapsule F32) → List (FrameCapsule F32))
      → Result Status Principal
      → QueryBody F32
      → MemoryStore F32
      → ℕ
      → Option AuditLog
      → Outcome (Result Status (MemoryFrame F32) × Option AuditLog)
  unfolding answer request_of query
  query_memory arrange (failed e) body store now audit = ok (failed e, audit)
  query_memory arrange (done principal) body store now audit =
      let request = request_of principal body in
      answer request now audit (query platform arrange store request)
