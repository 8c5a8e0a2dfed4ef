-- ===== src/Server/Limit.antt =====
-- crates/l5m-server/src/ratelimit.rs: the token buckets. The f64 of a bucket and the clock are
-- parameters, about which nothing is assumed.
pub mod Isolation
use l5m.Prelude.{ℕ, Bool, true, false, Option, none, some, if◌then◌else◌, []}
use l5m.Prelude.Map
use l5m.Prelude.Map.{Map}

-- `elapsed now last` is `now.duration_since(last).as_secs_f64()`.
pub record Clock : Type 1 where
  pub Instant : Type 0
  pub F64 : Type 0
  pub elapsed : Instant → Instant → F64
  pub add : F64 → F64 → F64
  pub sub : F64 → F64 → F64
  pub mul : F64 → F64 → F64
  pub min : F64 → F64 → F64
  pub max : F64 → F64 → F64
  pub one : F64
  -- `a >= b`.
  pub at_least : F64 → F64 → Bool

pub record Bucket (clock : Clock) : Type 0 where
  pub tokens : clock.F64
  pub last : clock.Instant

pub record RateLimiter (clock : Clock) : Type 0 where
  pub rate_per_sec : clock.F64
  pub burst : clock.F64
  pub buckets : Map (Bucket clock)

module _ (clock : Clock) where
  -- `RateLimiter::new`.
  unfoldable pub new : clock.F64 → clock.F64 → RateLimiter clock
  new rate_per_sec burst = record {
    rate_per_sec = rate_per_sec;
    burst = clock.max burst clock.one;
    buckets = [];
  }

  -- `buckets.entry(tenant).or_insert(…)`.
  unfoldable pub entry : Option (Bucket clock) → clock.F64 → clock.Instant → Bucket clock
  entry none burst now = record { tokens = burst; last = now }
  entry (some bucket) burst now = bucket

  -- The decision on a request at `now` and the bucket after it.
  unfoldable pub take_token :
      clock.F64 → clock.F64 → clock.Instant → Bucket clock → Bool × Bucket clock
  take_token rate_per_sec burst now bucket =
      let refilled =
        clock.min (clock.add bucket.tokens (clock.mul (clock.elapsed now bucket.last) rate_per_sec))
          burst in
      if clock.at_least refilled clock.one
      then (true, record { tokens = clock.sub refilled clock.one; last = now })
      else (false, record { tokens = refilled; last = now })

  -- `RateLimiter::allow` at `now`.
  unfoldable pub allow : ℕ → clock.Instant → RateLimiter clock → Bool × RateLimiter clock
  unfolding entry take_token Map.get Map.insert
  allow tenant now limiter =
      let bucket = entry (Map.get tenant limiter.buckets) limiter.burst now in
      let taken = take_token limiter.rate_per_sec limiter.burst now bucket in
      (taken.0, record limiter { buckets = Map.insert tenant taken.1 limiter.buckets })
