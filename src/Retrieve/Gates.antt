-- ===== src/Retrieve/Gates.antt =====
-- crates/l5m-core/src/retrieve.rs: the gates, and the scan that applies them to the index.
pub mod Spec
mod Superseded
pub mod Exact
use l5m.Prelude.{
  ℕ, ◌+◌, bit_and, Bool, true, false, not, ◌&&◌, Option, none, some, leb, ◌==◌, if◌then◌else◌, any,
}
use l5m.Prelude.Int.{ℤ, leb_ℤ}
use l5m.Prelude.Map
use l5m.Outcome.{Outcome, ok, ◌>>=◌, or_panic, nth, for_each}
use l5m.Capsule.{MemoryCapsule}
use l5m.Frame.{MemoryProbe, CoverageReport, no_coverage}
use l5m.Segment.Query.{Segment, capsule, capsule_count}
use l5m.BitSet
use l5m.BitSet.{BitSet}

-- `a & b != 0`.
abbrev pub meets : ℕ → ℕ → Bool
meets a b = not (bit_and a b == 0)

-- `valid_until.is_none_or(|until| until >= as_of)`.
abbrev pub not_expired : Option ℤ → ℤ → Bool
not_expired none as_of = true
not_expired (some until) as_of = leb_ℤ as_of until

-- `usize::from(bool)`.
abbrev pub of_bool : Bool → ℕ
of_bool true = 1
of_bool false = 0

unfoldable pub count_gates : Bool → Bool → Bool → CoverageReport → CoverageReport
count_gates context_ok temporal_ok trust_ok cov = record cov {
  context_valid_count = cov.context_valid_count + of_bool context_ok;
  temporal_valid_count = cov.temporal_valid_count + of_bool temporal_ok;
  trust_floor_met_count = cov.trust_floor_met_count + of_bool trust_ok;
}

-- `if passes { candidates.set(ordinal); }`.
abbrev pub set_if : Bool → BitSet → ℕ → Outcome BitSet
set_if true candidates ordinal = or_panic (BitSet.set candidates ordinal)
set_if false candidates ordinal = ok candidates

module _ {F : Type 0} where
  unfoldable pub passes_authorization_gates : MemoryCapsule F → MemoryProbe F → Bool
  passes_authorization_gates c probe =
      c.tenant_id == probe.tenant_id
      && meets c.context_mask probe.context_mask
      && meets c.policy_mask probe.caller_policy_mask
      && leb probe.trust_floor c.trust_level

  unfoldable pub passes_hard_gates : MemoryCapsule F → MemoryProbe F → Bool
  unfolding passes_authorization_gates
  passes_hard_gates c probe =
      passes_authorization_gates c probe
      && leb_ℤ c.valid_from probe.as_of
      && not_expired c.valid_until probe.as_of

  -- Whether the capsule at an ordinal is there and passes the hard gates.
  pub visible_at : Segment F → MemoryProbe F → ℕ → Bool
  visible_at s probe ordinal = elim (capsule s ordinal) [
    | none ↦ false
    | some other ↦ passes_hard_gates other probe
  ]

  unfoldable pub is_superseded_by_visible_current :
      Segment F → MemoryCapsule F → MemoryProbe F → Bool
  unfolding visible_at
  is_superseded_by_visible_current s c probe =
      elim (Map.get c.capsule_id s.index.supersedes_by_target) [
        | none ↦ false
        | some ordinals ↦ any (visible_at s probe) ordinals
      ]

  -- The check that the scan makes only for the targets of a supersede edge.
  pub superseded_at : Segment F → MemoryProbe F → ℕ → Outcome Bool
  superseded_at s probe ordinal = do
    target ← nth s.index.supersede_target ordinal
    ok (
        target && elim (capsule s ordinal) [
          | none ↦ false
          | some c ↦ is_superseded_by_visible_current s c probe
        ])

  -- One round of the gate scan.
  pub gate_ordinal :
      Segment F → MemoryProbe F → ℕ → BitSet × CoverageReport → Outcome (BitSet × CoverageReport)
  unfolding superseded_at count_gates
  gate_ordinal s probe ordinal (candidates, coverage) = do
    row ← nth s.index.gate_rows ordinal
    let context_ok = meets row.context_mask probe.context_mask
    let window_ok = leb_ℤ row.valid_from probe.as_of && not_expired row.valid_until probe.as_of
    superseded ← if window_ok then superseded_at s probe ordinal else ok false
    let temporal_ok = window_ok && not superseded
    let trust_ok = leb probe.trust_floor row.trust_level
    let coverage' = count_gates context_ok temporal_ok trust_ok coverage
    let policy_ok = meets row.policy_mask probe.caller_policy_mask
    candidates' ← set_if (context_ok && policy_ok && temporal_ok && trust_ok) candidates ordinal
    ok (candidates', coverage')

  unfoldable pub gate_scan : Segment F → MemoryProbe F → Outcome (BitSet × CoverageReport)
  unfolding gate_ordinal for_each
  gate_scan s probe =
      for_each (gate_ordinal s probe)
        (Map.or_empty (Map.get probe.tenant_id s.index.tenant_postings))
        (BitSet.new (capsule_count s), no_coverage)
