-- ===== src/Server/Limit/Isolation.antt =====
-- crates/l5m-server/src/ratelimit.rs: what the requests of one tenant do to another's.
use l5m.Prelude.{
  ℕ, ◌≡◌, refl, sym, ap, ap₂, ◌∙◌, Bool, false, some, List, [], ◌∷◌, ◌==◌, Bool-cases, inl, inr,
  filter, ==_iff, ==_refl,
}
use l5m.Prelude.Map
use l5m.Prelude.Map.{Map}
use l5m.Server.Limit.{Clock, RateLimiter, allow, entry, take_token}

get-insert_same : {V : Type 0} (t : ℕ) (v : V) (m : Map V) → Map.get t (Map.insert t v m) ≡ some v
get-insert_same t v m = Map.get-insert t t v m ∙ (rw (==_refl t) refl)

module _ (clock : Clock) where
  -- The decisions on requests, each of a tenant at an instant, that come one after the other.
  unfoldable pub decisions : List (ℕ × clock.Instant) → RateLimiter clock → List (ℕ × Bool)
  decisions [] limiter = []
  decisions ((tenant, now) ∷ requests) limiter =
      (tenant, (allow clock tenant now limiter).0)
      ∷ decisions requests (allow clock tenant now limiter).1

  -- Limiters with one configuration that agree on the bucket of a tenant.
  Agree : ℕ → RateLimiter clock → RateLimiter clock → Type 0
  Agree t a b =
      (a.rate_per_sec ≡ b.rate_per_sec)
      × (a.burst ≡ b.burst)
      × (Map.get t a.buckets ≡ Map.get t b.buckets)

  allow-Agree :
      (t : ℕ) (now : clock.Instant) (a b : RateLimiter clock)
      → Agree t a b
      → ((allow clock t now a).0 ≡ (allow clock t now b).0)
        × Agree t (allow clock t now a).1 (allow clock t now b).1
  unfolding allow Agree
  allow-Agree t now a b (rate, burst, bucket) =
      let taken_eq : take_token clock a.rate_per_sec a.burst now
            (entry clock (Map.get t a.buckets) a.burst now)
          ≡ take_token clock b.rate_per_sec b.burst now
              (entry clock (Map.get t b.buckets) b.burst now) =
        rw (rate, burst, bucket) refl in
      (
        ap (λ r. r.0) taken_eq,
        (
          rate,
          burst,
          get-insert_same t _ a.buckets
              ∙ ap (λ r. some r.1) taken_eq
              ∙ sym (get-insert_same t _ b.buckets),
        ),
      )

  allow_other-Agree :
      (t u : ℕ) (now : clock.Instant) (a b : RateLimiter clock)
      → (u == t) ≡ false
      → Agree t a b
      → Agree t (allow clock u now a).1 b
  unfolding allow Agree
  allow_other-Agree t u now a b ne (rate, burst, bucket) =
      (rate, burst, Map.get-insert u t _ a.buckets ∙ (rw ne bucket))

  own_decisions :
      (t : ℕ) (requests : List (ℕ × clock.Instant)) (a b : RateLimiter clock)
      → Agree t a b
      → filter (λ d. d.0 == t) (decisions requests a)
        ≡ decisions (filter (λ r. r.0 == t) requests) b
  unfolding decisions
  own_decisions t [] a b h = refl
  own_decisions t ((u, now) ∷ requests) a b h = elim (Bool-cases (u == t)) [
    | inr e ↦
        rw e
          (own_decisions t requests (allow clock u now a).1 b (allow_other-Agree t u now a b e h))
    | inl e ↦
        let same : u ≡ t = (==_iff u t).0 e in
        let (decision, later) = allow-Agree t now a b h in
        rw (same, ==_refl t)
          (ap₂ (λ d ds. (t, d) ∷ ds) decision
            (own_decisions t requests (allow clock t now a).1 (allow clock t now b).1 later))
  ]

  -- The requests of other tenants do not change the decisions on those of a tenant: they are as if
  -- it were alone.
  pub decisions-isolated :
      (t : ℕ) (requests : List (ℕ × clock.Instant)) (limiter : RateLimiter clock)
      → filter (λ d. d.0 == t) (decisions requests limiter)
        ≡ decisions (filter (λ r. r.0 == t) requests) limiter
  unfolding Agree
  decisions-isolated t requests limiter =
      own_decisions t requests limiter limiter (refl, refl, refl)
