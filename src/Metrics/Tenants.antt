-- ===== src/Metrics/Tenants.antt =====
-- crates/l5m-core/src/metrics.rs, with_tenant: the number of tenant rows.
use l5m.Prelude.{
  ℕ, suc, ◌≤◌, ◌<◌, ◌≢◌, ap, ltb→lt, ◌+◌, ◌≡◌, inl, inr, true, ltb, length, is_some, Bool-cases,
  Option-cases, arith,
}
use l5m.Prelude.Map
use l5m.Prelude.Map.{Map, length-insert, get-insert}
use l5m.Metrics.{
  Metrics, TenantUsage, max_tracked_tenants, overflow_tenant, tenant_key, with_tenant,
}

-- The map is within its bound: the tracked tenants, and the overflow row after them.
abbrev pub IsBounded : Map TenantUsage → Type 0
IsBounded ts =
    (length ts ≤ max_tracked_tenants + 1)
    × (length ts ≡ max_tracked_tenants + 1 → is_some (Map.get overflow_tenant ts) ≡ true)

module _ (key : ℕ) (u : TenantUsage) (ts : Map TenantUsage) where
  insert_old : is_some (Map.get key ts) ≡ true → IsBounded ts → IsBounded (Map.insert key u ts)
  insert_old old (le, full) =
      let grown : length (Map.insert key u ts) ≡ length ts =
        ground (arith, old, length-insert key u ts) in
      (
        omega (arith, grown, le),
        λ e.
            (let there = full (omega (arith, grown, e)) in
              ground (arith, there, get-insert key overflow_tenant u ts)),
      )

  insert_few : length ts < max_tracked_tenants → IsBounded (Map.insert key u ts)
  insert_few lt =
      let grown : length (Map.insert key u ts) ≤ max_tracked_tenants =
        ground (arith, lt, length-insert key u ts) in
      (omega (arith, grown), λ e. absurd (omega (arith, grown, e)))

insert_overflow :
    (u : TenantUsage) (ts : Map TenantUsage)
    → IsBounded ts
    → IsBounded (Map.insert overflow_tenant u ts)
insert_overflow u ts (le, full) = elim (Option-cases (Map.get overflow_tenant ts)) [
  | inr (w, old) ↦ insert_old overflow_tenant u ts (ap is_some old) (le, full)
  | inl new ↦
      let room : length ts ≢ max_tracked_tenants + 1 = λ e. absurd (ground (arith, new, full e)) in
      let grown : length (Map.insert overflow_tenant u ts) ≡ suc (length ts) =
        ground (arith, new, length-insert overflow_tenant u ts) in
      (
        omega (arith, grown, le, room),
        λ e. ground (arith, get-insert overflow_tenant overflow_tenant u ts),
      )
]

-- Whatever a client sends as the tenant, an update keeps the tenant map within its bound.
pub with_tenant-IsBounded :
    (tenant : ℕ) (update : TenantUsage → TenantUsage) (m : Metrics)
    → IsBounded m.tenants
    → IsBounded (with_tenant tenant update m).tenants
unfolding with_tenant tenant_key
with_tenant-IsBounded tenant update m h = elim (Bool-cases (is_some (Map.get tenant m.tenants))) [
  | inl old ↦ rw old (insert_old tenant _ m.tenants old h)
  | inr new ↦ elim (Bool-cases (ltb (length m.tenants) max_tracked_tenants)) [
    | inl few ↦ rw (new, few) (insert_few tenant _ m.tenants (ltb→lt _ _ few))
    | inr many ↦ rw (new, many) (insert_overflow _ m.tenants h)
  ]
]
