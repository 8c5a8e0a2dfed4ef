-- ===== src/Tests/Indexes.antt =====
-- The index of the capsules of the tests, and the metrics of an empty store.
use l5m.Prelude.{◌+◌, ◌≡◌, refl, ◌==◌, length, any, arith}
use l5m.Prelude.Map
use l5m.Index.Build.{build, add_capsule, add_capsules}
use l5m.Index.Build.Gates.{ordinals_of, tenant_postings-build}
use l5m.Index.Build.Supersedes.{any_superseder, any-supersedes-build}
use l5m.Index.Build.Postings.{IsInRange, build-IsInRange}
use l5m.Metrics.{no_metrics, with_tenant}
use l5m.Metrics.Tenants.{IsBounded, with_tenant-IsBounded}
use l5m.Tests.{platform, capsules}

ids_distinct : length (build platform capsules).by_id ≡ length capsules
unfolding build add_capsules add_capsule Map.insert
ids_distinct = refl

tenant_postings-build_example :
    Map.or_empty (Map.get 7 (build platform capsules).tenant_postings)
    ≡ ordinals_of platform 7 0 capsules
tenant_postings-build_example = tenant_postings-build platform 7 capsules (omega arith)

any-supersedes-build_example :
    any (λ o. o == 1) (Map.or_empty (Map.get 11 (build platform capsules).supersedes_by_target))
    ≡ any_superseder (λ o. o == 1) 11 0 capsules
any-supersedes-build_example = any-supersedes-build (λ o. o == 1) 11 platform capsules

build-IsInRange_example : IsInRange platform 3 (build platform capsules)
build-IsInRange_example = build-IsInRange platform capsules

with_tenant-IsBounded_example :
    IsBounded
      (with_tenant 5 (λ usage. record usage { inserts = usage.inserts + 1 }) no_metrics).tenants
with_tenant-IsBounded_example =
    with_tenant-IsBounded 5 (λ usage. record usage { inserts = usage.inserts + 1 }) no_metrics
      (omega arith, λ e. absurd (omega (arith, e)))
