-- ===== src/Server/Authorize/Owned.antt =====
-- crates/l5m-server/src/lib.rs: whom `authorize` lets through, and what the handlers of writes do.
use l5m.Prelude.{
  ℕ, ◌≤◌, ◌≡◌, ap, ◌∙◌, subst, Option, none, some, Bytes, leb, leb→le, ◌==◌, if◌then◌else◌,
  Bool-cases, inl, inr, arith,
}
use l5m.Prelude.Parse.{from_str_radix}
use l5m.Platform.{Platform}
use l5m.Outcome.{ok, ◌>>=◌}
use l5m.Capsule.{MemoryCapsule}
use l5m.Store.{MemoryStore}
use l5m.Store.Write.{insert}
use l5m.Store.View.{view}
use l5m.Store.View.Writes.{IsDistinct, delete-Holds}
use l5m.Store.View.Insert.{insert-Holds}
use l5m.Ingest.{RawCapsule, into_capsule}
use l5m.Ingest.Replay.{into_capsule-tenant}
use l5m.Server.{Result, done, failed}
use l5m.Server.Principal.{Scope, rank, Principal, Headers, AuthError}
use l5m.Server.Limit.{Clock, RateLimiter, allow}
use l5m.Server.Authorize.{
  Status, limit, permit, authorize, authorize_found, respond, insert_json, insert_memory,
  delete_memory, internal_server_error, bad_request,
}

done-injective : {A : Type 0} {a b : A} → ◌≡◌ {A = Result Status A} (done a) (done b) → a ≡ b
done-injective h = cc

module _ (clock : Clock) where
  limit-done :
      (now : clock.Instant) (principal : Principal) (limiter : Option (RateLimiter clock))
      {p : Principal}
      → (limit clock now principal limiter).0 ≡ done p
      → principal ≡ p
  unfolding limit
  limit-done now principal none h = done-injective h
  limit-done now principal (some limiter) h =
      elim (Bool-cases (allow clock principal.tenant_id now limiter).0) [
        | inl e ↦ done-injective (rw e at h)
        | inr e ↦ absurd (ground arith)
      ]

  permit-done :
      (required : Scope) (now : clock.Instant) (limiter : Option (RateLimiter clock))
      (principal : Principal) {p : Principal}
      → (permit clock required now limiter principal).0 ≡ done p
      → (principal ≡ p) × (rank required ≤ rank principal.scope)
  unfolding permit
  permit-done required now limiter principal h =
      elim (Bool-cases (leb (rank required) (rank principal.scope))) [
        | inl e ↦ (limit-done now principal limiter (rw e at h), leb→le _ _ e)
        | inr e ↦ absurd (ground arith)
      ]

  authorize_found-done :
      (required : Scope) (now : clock.Instant) (limiter : Option (RateLimiter clock))
      (found : Result AuthError Principal) {p : Principal}
      → (authorize_found clock required now limiter found).0 ≡ done p
      → (found ≡ done p) × (rank required ≤ rank p.scope)
  unfolding authorize_found
  authorize_found-done required now limiter (failed e) h = absurd (cc)
  authorize_found-done required now limiter (done q) h =
      let (same, enough) = permit-done required now limiter q h in
      (ap done same, subst (λ p. rank required ≤ rank p.scope) same enough)

  -- A request that `authorize` lets through has the principal that the provider has resolved from
  -- its headers, and the scope of that principal is at or above the one that the operation requires.
  pub authorize-IsPermitted :
      (provider : Headers → Result AuthError Principal) (required : Scope) (now : clock.Instant)
      (headers : Headers) (limiter : Option (RateLimiter clock)) (p : Principal)
      → (authorize clock provider required now headers limiter).0 ≡ done p
      → (provider headers ≡ done p) × (rank required ≤ rank p.scope)
  unfolding authorize
  authorize-IsPermitted provider required now headers limiter p h =
      authorize_found-done required now limiter (provider headers) h

module _ (platform : Platform) where
  -- A capsule that the handler accepts belongs to the principal's tenant, whatever the body says: the
  -- store then holds it at its id, with that tenant, and elsewhere what it held before.
  pub insert_memory-IsOwned :
      (principal : Principal) (body : RawCapsule platform.F32) (store : MemoryStore platform.F32)
      (c : MemoryCapsule platform.F32)
      → IsDistinct store
      → into_capsule platform (record body { tenant_id = principal.tenant_id }) ≡ ok c
      → (store' : MemoryStore platform.F32) × (insert_memory platform (done principal) body store
          ≡ ok (done store'))
        × (c.tenant_id ≡ principal.tenant_id)
        × ((id : ℕ) → view store' id ≡ (if c.capsule_id == id then some c else view store id))
  unfolding insert_memory insert_json respond
  insert_memory-IsOwned principal body store c distinct reads =
      let (store', e, d, holds) = (insert-Holds platform c store distinct).0 in
      (
        store',
        ap (λ m. respond bad_request (m >>= λ c. insert platform c store)) reads
            ∙ ap (respond bad_request) e,
        into_capsule-tenant platform (record body { tenant_id = principal.tenant_id }) c reads,
        holds,
      )

  -- A principal that may write deletes the capsule with the id that it names, of whatever tenant:
  -- the store holds nothing there afterwards, and elsewhere what it held.
  pub delete_memory-any_tenant :
      (principal : Principal) (id : Bytes) (n : ℕ) (store : MemoryStore platform.F32)
      → IsDistinct store
      → from_str_radix 10 id ≡ some n
      → (store' : MemoryStore platform.F32) × (delete_memory platform (done principal) id store
          ≡ ok (done store'))
        × ((k : ℕ) → view store' k ≡ (if n == k then none else view store k))
  unfolding delete_memory respond
  delete_memory-any_tenant principal id n store distinct reads =
      let (store', e, d, holds) = (delete-Holds platform n store distinct).0 in
      (store', rw (reads, delete_memory) (ap (respond internal_server_error) e), holds)
