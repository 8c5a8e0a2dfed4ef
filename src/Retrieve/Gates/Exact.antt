-- ===== src/Retrieve/Gates/Exact.antt =====
-- crates/l5m-core/src/retrieve.rs: the gate scan against the gates stated on the capsules.
use l5m.Prelude.{
  ℕ, zero, suc, ◌+◌, ◌≤◌, ◌<◌, ◌≡◌, refl, sym, ap, ◌∙◌, inl, inr, ◌-◌, Bool, true, false, not, ◌&&◌,
  ◌||◌, none, some, List, [], ◌∷◌, ◌==◌, leb, Bool-cases, length, get_elem?, get_elem?_lt,
  get_elem?-map, arith,
}
use l5m.Prelude.Map
use l5m.Platform.{Platform}
use l5m.Outcome.{Outcome, ok, ◌>>=◌, or_panic, for_each}
use l5m.Capsule.{MemoryCapsule}
use l5m.Frame.{MemoryProbe, CoverageReport, no_coverage}
use l5m.Segment.Query.{Segment, capsule_count}
use l5m.Index.Build.{gate_row}
use l5m.Index.Build.Gates.{gate_rows-build, tenant_postings-build, ordinals_of}
use l5m.BitSet
use l5m.BitSet.{BitSet}
use l5m.BitSet.View.{holds, IsValid}
use l5m.BitSet.Ops.{new_lem, set_lem}
use l5m.Retrieve.Gates.{
  meets, count_gates, set_if, passes_hard_gates, passes_authorization_gates, gate_ordinal,
  gate_scan,
}
use l5m.Retrieve.Gates.Superseded.{superseded_at_lem}
use l5m.Retrieve.Gates.Spec.{superseded, passes, passes_at, in_window, tally, IsBuilt}

bind_ok : {A B : Type 0} {m : Outcome A} {a : A} (f : A → Outcome B) → m ≡ ok a → (m >>= f) ≡ f a
bind_ok f e = ap (λ m. m >>= f) e

set_if_lem :
    (b : Bool) (cand : BitSet) (k : ℕ)
    → IsValid cand
    → k < cand.size
    → (cand' : BitSet) × (set_if b cand k ≡ ok cand')
      × (cand'.size ≡ cand.size)
      × IsValid cand'
      × ((j : ℕ) → holds cand' j ≡ ((b && k == j) || holds cand j))
set_if_lem true cand k valid lt =
    let (cand', e, size, valid', adds) = set_lem cand k valid lt in
    (cand', ap or_panic e, size, valid', adds)
set_if_lem false cand k valid lt = (cand, refl, refl, valid, λ j. refl)

module _ (p : Platform) (s : Segment p.F32) (probe : MemoryProbe p.F32) (v : IsBuilt p s) where
  open p use {F32}

  abbrev gated_if : MemoryCapsule F32 → Bool → Bool
  gated_if c current =
      meets c.context_mask probe.context_mask
      && meets c.policy_mask probe.caller_policy_mask
      && (current && not (superseded probe s.capsules c))
      && leb probe.trust_floor c.trust_level

  abbrev gated : MemoryCapsule F32 → Bool
  gated c = gated_if c (in_window probe c)

  abbrev counted : MemoryCapsule F32 → CoverageReport → CoverageReport
  counted c cov =
      count_gates (meets c.context_mask probe.context_mask)
        (in_window probe c && not (superseded probe s.capsules c))
        (leb probe.trust_floor c.trust_level) cov

  -- What a round leaves, given the row and the supersession.
  gate_ordinal_eq :
      (k : ℕ) {c : MemoryCapsule F32} (cand cand' : BitSet) (cov : CoverageReport)
      → get_elem? s.capsules k ≡ some c
      → set_if (gated c) cand k ≡ ok cand'
      → gate_ordinal s probe k (cand, cov) ≡ ok (cand', counted c cov)
  unfolding gate_ordinal gate_row
  gate_ordinal_eq k {c} cand cand' cov e set_eq =
      let row : get_elem? s.index.gate_rows k ≡ some (gate_row c) =
        ap (λ ix. get_elem? ix.gate_rows k) v.built
        ∙ ap (λ rows. get_elem? rows k) (gate_rows-build p s.capsules)
        ∙ get_elem?-map gate_row s.capsules k e in
      elim (Bool-cases (in_window probe c)) [
        | inl current ↦
            rw (row, current, superseded_at_lem p s probe v k e)
              (bind_ok _ (ap (λ w. set_if (gated_if c w) cand k) (sym current) ∙ set_eq))
        | inr past ↦
            rw (row, past) (bind_ok _ (ap (λ w. set_if (gated_if c w) cand k) (sym past) ∙ set_eq))
      ]

  gated-passes :
      (c : MemoryCapsule F32)
      → (c.tenant_id == probe.tenant_id) ≡ true
      → gated c ≡ passes probe s.capsules c
  unfolding passes_hard_gates passes_authorization_gates
  gated-passes c h = ground (arith, h)

  foreign-passes :
      (c : MemoryCapsule F32)
      → (c.tenant_id == probe.tenant_id) ≡ false
      → passes probe s.capsules c ≡ false
  unfolding passes_hard_gates passes_authorization_gates
  foreign-passes c h = ground (arith, h)

  -- Place `k` of the list is that of a capsule which passes.
  abbrev pass_in : List (MemoryCapsule F32) → ℕ → Bool
  pass_in cs k = elim (get_elem? cs k) [ none ↦ false | some c ↦ passes probe s.capsules c ]

  pass_in-cons :
      (i j : ℕ) (c : MemoryCapsule F32) (cs : List (MemoryCapsule F32))
      → (leb i j && pass_in (c ∷ cs) (j - i))
        ≡ ((passes probe s.capsules c && i == j) || (leb (i + 1) j && pass_in cs (j - (i + 1))))
  pass_in-cons i j c cs = by_gap (j - i) (omega arith) refl
    where
      by_gap :
          (d : ℕ)
          → j ≤ i + d
          → j - i ≡ d
          → (leb i j && pass_in (c ∷ cs) d)
            ≡ ((passes probe s.capsules c && i == j) || (leb (i + 1) j && pass_in cs (j - (i + 1))))
      by_gap zero le e = ground arith
      by_gap (suc d) le e = let less : j - (i + 1) ≡ d = omega arith in rw less (ground arith)

  -- The scan of the tenant's ordinals among the capsules from ordinal `i` on.
  scan_from :
      (i : ℕ) (cs : List (MemoryCapsule F32)) (cand : BitSet) (cov : CoverageReport)
      → ((k : ℕ) → get_elem? s.capsules (i + k) ≡ get_elem? cs k)
      → IsValid cand
      → cand.size ≡ length s.capsules
      → (cand' : BitSet) × (for_each
            (gate_ordinal s probe)
            (ordinals_of p probe.tenant_id i cs)
            (cand, cov)
          ≡ ok (cand', tally probe s.capsules cs cov))
        × (cand'.size ≡ length s.capsules)
        × IsValid cand'
        × ((j : ℕ) → holds cand' j ≡ (holds cand j || (leb i j && pass_in cs (j - i))))
  unfolding for_each
  scan_from i [] cand cov h valid size = (cand, refl, size, valid, λ j. ground arith)
  scan_from i (c ∷ cs) cand cov h valid size = elim (Bool-cases (c.tenant_id == probe.tenant_id)) [
    | inl mine ↦
        let at : get_elem? s.capsules i ≡ some c = ap (get_elem? s.capsules) (omega arith) ∙ h 0 in
        let (cand', set_eq, size', valid', adds) =
          set_if_lem (gated c) cand i valid (omega (arith, get_elem?_lt s.capsules i at, size)) in
        let (cand'', rest, size'', valid'', holds'') =
          scan_from (i + 1) cs cand' (counted c cov) later valid' (size' ∙ size) in
        (
          cand'',
          rw mine (bind_ok _ (gate_ordinal_eq i cand cand' cov at set_eq) ∙ rest),
          size'',
          valid'',
          λ j. ground (arith, holds'' j, adds j, pass_in-cons i j c cs, gated-passes c mine),
        )
    | inr foreign ↦
        let (cand', rest, size', valid', holds') = scan_from (i + 1) cs cand cov later valid size in
        (
          cand',
          rw foreign rest,
          size',
          valid',
          λ j. ground (arith, holds' j, pass_in-cons i j c cs, foreign-passes c foreign),
        )
  ]
    where
      later : (k : ℕ) → get_elem? s.capsules (i + 1 + k) ≡ get_elem? cs k
      later k = ap (get_elem? s.capsules) (omega arith) ∙ h (suc k)

-- On a built segment the gate scan does not panic. The set that it leaves is well formed, has the
-- size of the segment, and holds exactly the ordinals of the capsules that clear the hard gates of
-- the probe and that no capsule clearing them supersedes; its counts are those of the tenant's
-- capsules.
pub gate_scan-exact :
    (p : Platform) (s : Segment p.F32) (probe : MemoryProbe p.F32)
    → IsBuilt p s
    → (cand : BitSet) × (gate_scan s probe
        ≡ ok (cand, tally probe s.capsules s.capsules no_coverage))
      × (cand.size ≡ length s.capsules)
      × IsValid cand
      × ((j : ℕ) → holds cand j ≡ passes_at probe s.capsules j)
unfolding gate_scan capsule_count
gate_scan-exact p s probe v =
    let (valid, empty) = new_lem (length s.capsules) in
    let (cand, scan, size, valid', holds') =
      scan_from p s probe v 0 s.capsules (BitSet.new (length s.capsules)) no_coverage
        (λ k. ap (get_elem? s.capsules) (omega arith)) valid (unfold BitSet.new in refl) in
    let own : Map.or_empty (Map.get probe.tenant_id s.index.tenant_postings)
        ≡ ordinals_of p probe.tenant_id 0 s.capsules =
      ap (λ ix. Map.or_empty (Map.get probe.tenant_id ix.tenant_postings)) v.built
      ∙ tenant_postings-build p probe.tenant_id s.capsules v.small in
    (
      cand,
      ap (λ xs. for_each (gate_ordinal s probe) xs (BitSet.new (length s.capsules), no_coverage))
            own
          ∙ scan,
      size,
      valid',
      λ j. holds' j ∙ ground (arith, empty j),
    )
