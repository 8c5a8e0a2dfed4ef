-- ===== src/Retrieve/Candidates/Gated.antt =====
-- crates/l5m-core/src/retrieve.rs: the loops of the exact candidate scan on gated ordinals.
use l5m.Prelude.{
  ℕ, ◌<◌, ◌≡◌, refl, sym, subst, inl, inr, true, List, [], ◌∷◌, ◌++◌, ltb, leb, if◌then◌else◌,
  length, get_elem?-some, range, compare, All, All-append, All-take, All-map, All-filter_imp,
  Bool-cases, arith,
}
use l5m.Prelude.Sort.{All-sort_by}
use l5m.Scoring.{hamming_distance}
use l5m.BitSet
use l5m.BitSet.{BitSet}
use l5m.BitSet.View.{holds, IsValid}
use l5m.BitSet.Ones.{iter_ones_lem}
use l5m.Retrieve.Candidates.{
  Ranked, measure, keep_candidate, rank_survivor, nearest, compare_ranked, cap_candidates,
}
use l5m.Retrieve.Candidates.Total.{
  Returns, and_then, for_each-Returns, IsSized, set_if-IsSized, get_bit_lem,
}

-- The ordinal is in the set.
abbrev pub Gated : BitSet → ℕ → Type 0
Gated b i = holds b i ≡ true

pub All-Unit {ℓ} : {A : Type ℓ} (xs : List A) → All (λ _. Unit {0}) xs
All-Unit [] = tt
All-Unit (x ∷ xs) = (tt, All-Unit xs)

pub iter_ones-Gated : (b : BitSet) → IsValid b → All (Gated b) (BitSet.iter_ones b)
iter_ones-Gated b v = subst (All (Gated b)) (sym (iter_ones_lem b v)) (
    All-filter_imp (λ _. Unit {0}) (Gated b) (holds b) (range 0 b.size) (λ i e _. e)
      (All-Unit (range 0 b.size)))

pub Gated-lt : (n : ℕ) (b : BitSet) (i : ℕ) → IsSized n b → Gated b i → i < n
Gated-lt n b i h g = elim (Bool-cases (ltb i n)) [
  | inl below ↦ ground (arith, below)
  | inr above ↦
      let past = h.valid.unused i (ground (arith, above, h.size_eq)) in
      absurd (ground (arith, past, g))
]

-- The entries are those of gated ordinals.
abbrev pub GatedFst : BitSet → List (ℕ × ℕ) → Type 0
GatedFst cand = All (λ e. Gated cand e.0)

abbrev pub GatedRanked : BitSet → List Ranked → Type 0
GatedRanked cand = All (λ r. Gated cand r.ordinal)

module _ (n : ℕ) (cand : BitSet) (c : IsSized n cand) where
  pub measure-Returns :
      (bits : List ℕ) (fingerprints : List (List ℕ)) (threshold i : ℕ) (s : List (ℕ × ℕ) × BitSet)
      → length fingerprints ≡ n
      → Gated cand i
      → GatedFst cand s.0 × IsSized n s.1
      → Returns
          (measure bits fingerprints threshold i s)
          (λ s'. GatedFst cand s'.0 × IsSized n s'.1)
  unfolding measure
  measure-Returns bits fingerprints threshold i (distances, semantic) len g (h, sized) =
      let lt = Gated-lt n cand i c g in
      let (f, row) = get_elem?-some fingerprints i (omega (arith, lt, len)) in
      let d = hamming_distance bits f in
      let (semantic', e, sized') = set_if-IsSized n (leb d threshold) semantic i lt sized in
      (
        (distances ++ (i, d) ∷ [], semantic'),
        rw (row, e) refl,
        (All-append (λ e'. Gated cand e'.0) distances ((i, d) ∷ []) h (g, tt), sized'),
      )

  -- Of the entries in range, those whose ordinal is gated are kept.
  pub keep_candidate-Returns :
      (e : ℕ × ℕ) (kept : List (ℕ × ℕ))
      → e.0 < n
      → GatedFst cand kept
      → Returns (keep_candidate cand e kept) (GatedFst cand)
  unfolding keep_candidate
  keep_candidate-Returns (i, d) kept lt h = elim (Bool-cases (holds cand i)) [
    | inl hit ↦ (
      kept ++ (i, d) ∷ [],
      rw (get_bit_lem n cand i lt c, hit) refl,
      All-append (λ e. Gated cand e.0) kept ((i, d) ∷ []) h (hit, tt),
    )
    | inr miss ↦ (kept, rw (get_bit_lem n cand i lt c, miss) refl, h)
  ]

  pub rank_survivor-Returns :
      (lookup : BitSet) (e : ℕ × ℕ) (ranked : List Ranked)
      → IsSized n lookup
      → Gated cand e.0
      → GatedRanked cand ranked
      → Returns (rank_survivor lookup e ranked) (GatedRanked cand)
  unfolding rank_survivor
  rank_survivor-Returns lookup (i, d) ranked sized g h =
      let lt = Gated-lt n cand i c g in
      let tier : ℕ = if holds lookup i then 0 else 1 in
      let entry : Ranked = record { tier = tier; distance = d; ordinal = i } in
      (
        ranked ++ entry ∷ [],
        rw (get_bit_lem n lookup i lt sized) refl,
        All-append (λ r. Gated cand r.ordinal) ranked (entry ∷ []) h (g, tt),
      )

  pub nearest-Gated :
      (limit : ℕ) (ranked : List Ranked)
      → GatedRanked cand ranked
      → All (Gated cand) (nearest limit ranked)
  unfolding nearest
  nearest-Gated limit ranked h =
      let P : Ranked → Type 0 = λ r. Gated cand r.ordinal in
      All-sort_by (Gated cand) compare _ (
        All-map P (Gated cand) (λ r. r.ordinal) _ (λ r g. g)
          (All-take P limit _ (All-sort_by P compare_ranked ranked h)))

  pub cap_candidates-Returns :
      (limit : ℕ) (lookup : BitSet) (distances : List (ℕ × ℕ))
      → IsSized n lookup
      → All (λ e. e.0 < n) distances
      → Returns (cap_candidates limit cand lookup distances) (All (Gated cand))
  unfolding cap_candidates
  cap_candidates-Returns limit lookup distances sized h =
      elim (Bool-cases (ltb limit (BitSet.count_ones cand))) [
        | inr few ↦ rw few (BitSet.iter_ones cand, refl, iter_ones-Gated cand c.valid)
        | inl many ↦ rw many (
            and_then _ _ (GatedFst cand) (All (Gated cand))
              (for_each-Returns (keep_candidate cand) (λ e. e.0 < n) (GatedFst cand)
                keep_candidate-Returns distances [] h tt)
              (λ kept g.
                and_then _ _ (GatedRanked cand) (All (Gated cand))
                  (for_each-Returns (rank_survivor lookup) (λ e. Gated cand e.0) (GatedRanked cand)
                    (λ e r. rank_survivor-Returns lookup e r sized) kept [] g tt)
                  (λ ranked g'. (nearest limit ranked, refl, nearest-Gated limit ranked g'))))
      ]
