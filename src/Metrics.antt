-- ===== src/Metrics.antt =====
-- crates/l5m-core/src/metrics.rs: the counters. Atomic counters wrap around at 2 ^ 64; the mutex
-- makes each update of the tenant map one step.
pub mod Tenants
use l5m.Prelude.{
  ℕ, suc, ◌+◌, ◌-◌, ◌%◌, ◌^◌, ◌||◌, Option, none, some, List, [], ◌∷◌, compare, leb, ltb,
  if◌then◌else◌, length, get_or, set, replicate, is_some,
}
use l5m.Prelude.Map
use l5m.Prelude.Map.{Map}
use l5m.Prelude.Sort.{sort_by}

abbrev pub max_tracked_tenants : ℕ
max_tracked_tenants = 10000

abbrev pub overflow_tenant : ℕ
overflow_tenant = 2 ^ 64 - 1

pub record TenantUsage : Type 0 where
  pub queries : ℕ
  pub capsules_returned : ℕ
  pub inserts : ℕ
  pub deletes : ℕ

abbrev pub no_usage : TenantUsage
no_usage = record { queries = 0; capsules_returned = 0; inserts = 0; deletes = 0 }

abbrev bucket_bounds_ns : List ℕ
bucket_bounds_ns =
    100000 ∷ 250000 ∷ 500000 ∷ 1000000 ∷ 2500000 ∷ 5000000 ∷ 10000000 ∷ 25000000 ∷ 50000000
    ∷ 100000000 ∷ 250000000 ∷ 500000000 ∷ 1000000000 ∷ []

pub record Metrics : Type 0 where
  pub queries_total : ℕ
  pub query_errors_total : ℕ
  pub capsules_returned_total : ℕ
  pub candidates_scored_total : ℕ
  pub inserts_total : ℕ
  pub deletes_total : ℕ
  pub latency_sum_ns : ℕ
  pub buckets : List ℕ
  pub tenants : Map TenantUsage

abbrev pub no_metrics : Metrics
no_metrics = record {
  queries_total = 0;
  query_errors_total = 0;
  capsules_returned_total = 0;
  candidates_scored_total = 0;
  inserts_total = 0;
  deletes_total = 0;
  latency_sum_ns = 0;
  buckets = replicate 13 0;
  tenants = [];
}

-- `fetch_add`.
abbrev fetch_add : ℕ → ℕ → ℕ
fetch_add counter n = (counter + n) % 2 ^ 64

-- `position(|&b| latency_ns <= b).unwrap_or(len - 1)`, the first bound being that of bucket `i`.
bucket_from : ℕ → ℕ → List ℕ → ℕ
bucket_from latency i [] = i - 1
bucket_from latency i (b ∷ bs) = if leb latency b then i else bucket_from latency (i + 1) bs

pub bucket_of : ℕ → ℕ
unfolding bucket_from
bucket_of latency = bucket_from latency 0 bucket_bounds_ns

pub record_query : ℕ → ℕ → ℕ → Metrics → Metrics
unfolding bucket_of
record_query returned candidates_scored latency_ns m = record m {
  queries_total = fetch_add m.queries_total 1;
  capsules_returned_total = fetch_add m.capsules_returned_total returned;
  candidates_scored_total = fetch_add m.candidates_scored_total candidates_scored;
  latency_sum_ns = fetch_add m.latency_sum_ns latency_ns;
  buckets =
      set m.buckets (bucket_of latency_ns)
        (fetch_add (get_or m.buckets (bucket_of latency_ns) 0) 1);
}

pub record_error : Metrics → Metrics
record_error m = record m { query_errors_total = fetch_add m.query_errors_total 1 }

pub record_insert : Metrics → Metrics
record_insert m = record m { inserts_total = fetch_add m.inserts_total 1 }

pub record_delete : Metrics → Metrics
record_delete m = record m { deletes_total = fetch_add m.deletes_total 1 }

-- `entry(key).or_default()`.
abbrev usage_or_default : Option TenantUsage → TenantUsage
usage_or_default none = no_usage
usage_or_default (some u) = u

-- The row that a tenant's usage is counted in.
pub tenant_key : ℕ → Map TenantUsage → ℕ
tenant_key tenant tenants =
    if is_some (Map.get tenant tenants) || ltb (length tenants) max_tracked_tenants
    then tenant
    else overflow_tenant

pub with_tenant : ℕ → (TenantUsage → TenantUsage) → Metrics → Metrics
unfolding tenant_key
with_tenant tenant update m =
    let key = tenant_key tenant m.tenants in
    record m {
      tenants = Map.insert key (update (usage_or_default (Map.get key m.tenants))) m.tenants;
    }

pub record_query_for : ℕ → ℕ → Metrics → Metrics
unfolding with_tenant
record_query_for tenant returned = with_tenant tenant (λ usage. record usage {
  queries = fetch_add usage.queries 1;
  capsules_returned = fetch_add usage.capsules_returned returned;
})

pub record_insert_for : ℕ → Metrics → Metrics
unfolding with_tenant
record_insert_for tenant =
    with_tenant tenant (λ usage. record usage { inserts = fetch_add usage.inserts 1 })

pub record_delete_for : ℕ → Metrics → Metrics
unfolding with_tenant
record_delete_for tenant =
    with_tenant tenant (λ usage. record usage { deletes = fetch_add usage.deletes 1 })

pub usage_snapshot : Metrics → Map TenantUsage
unfolding sort_by
usage_snapshot m = sort_by (λ a b. compare a.0 b.0) m.tenants
