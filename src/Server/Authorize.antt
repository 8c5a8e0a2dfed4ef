-- ===== src/Server/Authorize.antt =====
-- crates/l5m-server/src/lib.rs: `AppState::authorize` and the handlers of writes. A handler gets the
-- result of `authorize`; an error response is its status, and its message is left out. The handlers
-- hold the lock of the store for the call on the store, so that calls come one after the other.
pub mod Owned
use l5m.Prelude.{ℕ, ◌^◌, Bool, true, false, not, Option, none, some, Bytes, leb, if◌then◌else◌}
use l5m.Platform.{Platform}
use l5m.Outcome.{Outcome, ok, err, panic, ◌>>=◌}
use l5m.Capsule.{MemoryCapsule}
use l5m.Store.{MemoryStore}
use l5m.Store.Write
use l5m.Store.Compact
use l5m.Prelude.Parse.{from_str_radix}
use l5m.Ingest.{RawCapsule, into_capsule}
use l5m.Server.{Result, done, failed}
use l5m.Server.Principal.{
  Scope, rank, Principal, Headers, AuthError, unauthorized, missing, invalid, bind,
}
use l5m.Server.Limit.{Clock, RateLimiter, allow}

pub data Status : Type 0 where
  bad_request unauthorized_status forbidden too_many_requests internal_server_error : Status

-- `From<AuthError> for ApiError`.
unfoldable pub auth_status : AuthError → Status
auth_status unauthorized = unauthorized_status
auth_status (missing h) = unauthorized_status
auth_status (invalid h) = bad_request

module _ (clock : Clock) where
  -- The rate limit of the principal's tenant, if there is a limiter.
  unfoldable pub limit :
      clock.Instant
      → Principal
      → Option (RateLimiter clock)
      → Result Status Principal × Option (RateLimiter clock)
  unfolding allow
  limit now principal none = (done principal, none)
  limit now principal (some limiter) =
      let allowed = allow clock principal.tenant_id now limiter in
      (if allowed.0 then done principal else failed too_many_requests, some allowed.1)

  -- `principal.scope < required`, and the limit.
  unfoldable pub permit :
      Scope
      → clock.Instant
      → Option (RateLimiter clock)
      → Principal
      → Result Status Principal × Option (RateLimiter clock)
  unfolding limit
  permit required now limiter principal =
      if not (leb (rank required) (rank principal.scope))
      then (failed forbidden, limiter)
      else limit now principal limiter

  -- What becomes of the principal that the provider has found, or of its error.
  unfoldable pub authorize_found :
      Scope
      → clock.Instant
      → Option (RateLimiter clock)
      → Result AuthError Principal
      → Result Status Principal × Option (RateLimiter clock)
  unfolding permit auth_status
  authorize_found required now limiter (failed e) = (failed (auth_status e), limiter)
  authorize_found required now limiter (done principal) = permit required now limiter principal

  -- `AppState::authorize` at `now`, and the limiter after it.
  unfoldable pub authorize :
      (Headers → Result AuthError Principal)
      → Scope
      → clock.Instant
      → Headers
      → Option (RateLimiter clock)
      → Result Status Principal × Option (RateLimiter clock)
  unfolding authorize_found
  authorize provider required now headers limiter =
      authorize_found required now limiter (provider headers)

-- `.map_err(|e| …)?` on a call of the store: the store after it, or the status of the error.
unfoldable pub respond {ℓ} : {A : Type ℓ} → Status → Outcome A → Outcome (Result Status A)
respond status (ok a) = ok (done a)
respond status (err e) = ok (failed status)
respond status panic = panic

module _ (platform : Platform) where
  -- `MemoryStore::insert_json`.
  unfoldable pub insert_json :
      RawCapsule platform.F32 → MemoryStore platform.F32 → Outcome (MemoryStore platform.F32)
  unfolding into_capsule Write.insert
  insert_json raw store = into_capsule platform raw >>= λ c. Write.insert platform c store

  -- The handler `insert`.
  unfoldable pub insert_memory :
      Result Status Principal
      → RawCapsule platform.F32
      → MemoryStore platform.F32
      → Outcome (Result Status (MemoryStore platform.F32))
  unfolding insert_json respond
  insert_memory (failed e) body store = ok (failed e)
  insert_memory (done principal) body store =
      respond bad_request (insert_json (record body { tenant_id = principal.tenant_id }) store)

  -- The handler `delete_memory`.
  unfoldable pub delete_memory :
      Result Status Principal
      → Bytes
      → MemoryStore platform.F32
      → Outcome (Result Status (MemoryStore platform.F32))
  unfolding respond from_str_radix Write.delete
  delete_memory (failed e) id store = ok (failed e)
  delete_memory (done principal) id store = elim (from_str_radix 10 id) [
    | none ↦ ok (failed bad_request)
    | some n ↦ respond internal_server_error (Write.delete platform n store)
  ]

  -- The handler `admin_compact`.
  unfoldable pub admin_compact :
      Result Status Principal
      → MemoryStore platform.F32
      → Outcome (Result Status (MemoryStore platform.F32))
  unfolding respond Compact.compact_delta
  admin_compact (failed e) store = ok (failed e)
  admin_compact (done principal) store =
      respond internal_server_error (Compact.compact_delta platform store)
