-- ===== src/Retrieve/Gates/Spec.antt =====
-- crates/l5m-core/src/retrieve.rs: the gates, stated on the capsules alone.
use l5m.Prelude.{
  ℕ, ◌≤◌, ◌^◌, ◌≡◌, Bool, false, not, ◌&&◌, none, some, List, [], ◌∷◌, ◌==◌, if◌then◌else◌, leb,
  length, get_elem?, any,
}
use l5m.Prelude.Int.{leb_ℤ}
use l5m.Platform.{Platform}
use l5m.Capsule.{MemoryCapsule}
use l5m.Frame.{MemoryProbe, CoverageReport}
use l5m.Segment.Query.{Segment}
use l5m.Index.Build.{build}
use l5m.Index.Build.Supersedes.{supersedes_id}
use l5m.Retrieve.Gates.{meets, not_expired, passes_hard_gates, count_gates}

module _ {F : Type 0} (probe : MemoryProbe F) where
  abbrev pub superseded : List (MemoryCapsule F) → MemoryCapsule F → Bool
  superseded cs c =
      any (λ o. supersedes_id c.capsule_id o.relation_edges && passes_hard_gates o probe) cs

  -- The capsule may be scored.
  abbrev pub passes : List (MemoryCapsule F) → MemoryCapsule F → Bool
  passes cs c = passes_hard_gates c probe && not (superseded cs c)

  -- The ordinal is that of a capsule which passes.
  abbrev pub passes_at : List (MemoryCapsule F) → ℕ → Bool
  passes_at cs i = elim (get_elem? cs i) [ none ↦ false | some c ↦ passes cs c ]

  abbrev pub in_window : MemoryCapsule F → Bool
  in_window c = leb_ℤ c.valid_from probe.as_of && not_expired c.valid_until probe.as_of

  -- The counts of the coverage report over the tenant's capsules in a list.
  abbrev pub tally :
      List (MemoryCapsule F) → List (MemoryCapsule F) → CoverageReport → CoverageReport
  tally all [] cov = cov
  tally all (c ∷ cs) cov = tally all cs (
      if c.tenant_id == probe.tenant_id
      then count_gates (meets c.context_mask probe.context_mask)
          (in_window c && not (superseded all c)) (leb probe.trust_floor c.trust_level) cov
      else cov)

-- The segment has the index of its capsules, in which no id comes twice, and its ordinals fit 32
-- bits.
pub record IsBuilt (p : Platform) (s : Segment p.F32) : Type 0 where
  pub built : s.index ≡ build p s.capsules
  pub distinct : length (build p s.capsules).by_id ≡ length s.capsules
  pub small : length s.capsules ≤ 2 ^ 32
