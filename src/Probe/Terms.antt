-- ===== src/Probe/Terms.antt =====
-- crates/l5m-core/src/probe.rs: which texts are terms, and that terms are their own only term.
use l5m.Prelude.{
  ℕ, ◌≤◌, ◌≡◌, refl, sym, ap, ◌∙◌, Bool, true, false, not, List, [], ◌∷◌, ◌++◌, append_assoc,
  append-nil, Bytes, leb, leb→le, le→leb, length, All, All-append, All-imp, Bool-cases, inl, inr,
  arith, ◌&&◌, Ordering,
}
use l5m.Prelude.Text.{compare_bytes}
use l5m.Prelude.Order.{◌≺◌, IsSorted, compare_bytes-cases, lt_trans}
use l5m.Probe.{
  in_term, to_ascii_lowercase, is_trimmed, trim_start, trim_end_step, trim_end, insert_term,
  maybe_push_term, flush, scan_step, scan, extract_terms,
}

-- A character that a term can have: in lower case.
abbrev pub IsTermChar : ℕ → Type 0
IsTermChar b = (in_term b ≡ true) × ((leb 65 b && leb b 90) ≡ false)

-- At least three such characters, of which neither the first nor the last is a joiner.
pub record IsTerm (t : Bytes) : Type 0 where
  pub long : 3 ≤ length t
  pub characters : All IsTermChar t
  pub trimmed : trim_end (trim_start t) ≡ t

-- The first character is not trimmed.
starts_kept : Bytes → Bool
starts_kept [] = true
starts_kept (b ∷ bs) = not (is_trimmed b)

module _ (P : ℕ → Type 0) where
  All-trim_start : (bs : Bytes) → All P bs → All P (trim_start bs)
  unfolding trim_start
  All-trim_start [] h = tt
  All-trim_start (b ∷ bs) h = elim (Bool-cases (is_trimmed b)) [
    | inl e ↦ rw (e, trim_start) (All-trim_start bs h.1)
    | inr e ↦ rw (e, trim_start) h
  ]

  All-trim_end_step : (b : ℕ) (bs : Bytes) → P b → All P bs → All P (trim_end_step b bs)
  unfolding trim_end_step
  All-trim_end_step b [] p h = elim (Bool-cases (is_trimmed b)) [
    | inl e ↦ rw (e, trim_end_step) tt
    | inr e ↦ rw (e, trim_end_step) (p, tt)
  ]
  All-trim_end_step b (c ∷ cs) p h = (p, h)

  All-trim_end : (bs : Bytes) → All P bs → All P (trim_end bs)
  unfolding trim_end
  All-trim_end [] h = tt
  All-trim_end (b ∷ bs) h = All-trim_end_step b (trim_end bs) h.0 (All-trim_end bs h.1)

trim_start-kept : (bs : Bytes) → starts_kept (trim_start bs) ≡ true
unfolding trim_start starts_kept
trim_start-kept [] = refl
trim_start-kept (b ∷ bs) = elim (Bool-cases (is_trimmed b)) [
  | inl e ↦ rw (e, trim_start) (trim_start-kept bs)
  | inr e ↦ rw (e, trim_start) (rw e refl)
]

trim_start-of_kept : (bs : Bytes) → starts_kept bs ≡ true → trim_start bs ≡ bs
unfolding trim_start starts_kept
trim_start-of_kept [] h = refl
trim_start-of_kept (b ∷ bs) h = ground arith

trim_end_step-kept :
    (b : ℕ) (bs : Bytes) → is_trimmed b ≡ false → starts_kept (trim_end_step b bs) ≡ true
unfolding trim_end_step starts_kept
trim_end_step-kept b [] h = rw (h, trim_end_step) (rw h refl)
trim_end_step-kept b (c ∷ cs) h = rw h refl

trim_end-kept : (bs : Bytes) → starts_kept bs ≡ true → starts_kept (trim_end bs) ≡ true
unfolding trim_end starts_kept
trim_end-kept [] h = refl
trim_end-kept (b ∷ bs) h = trim_end_step-kept b (trim_end bs) (ground arith)

trim_end_step_twice :
    (b : ℕ) (r : Bytes) → trim_end r ≡ r → trim_end (trim_end_step b r) ≡ trim_end_step b r
unfolding trim_end trim_end_step
trim_end_step_twice b [] h = elim (Bool-cases (is_trimmed b)) [
  | inl e ↦ rw (e, trim_end_step) refl
  | inr e ↦ rw (e, trim_end_step) (rw (e, trim_end_step) refl)
]
trim_end_step_twice b (c ∷ cs) h = ap (trim_end_step b) h

trim_end_twice : (bs : Bytes) → trim_end (trim_end bs) ≡ trim_end bs
unfolding trim_end
trim_end_twice [] = refl
trim_end_twice (b ∷ bs) = trim_end_step_twice b (trim_end bs) (trim_end_twice bs)

-- Trimming a second time changes nothing.
trim_twice :
    (bs : Bytes) → trim_end (trim_start (trim_end (trim_start bs))) ≡ trim_end (trim_start bs)
trim_twice bs =
    ap trim_end (
      trim_start-of_kept (trim_end (trim_start bs))
        (trim_end-kept (trim_start bs) (trim_start-kept bs)))
    ∙ trim_end_twice (trim_start bs)

insert_term-lt : (t u : Bytes) (us : List Bytes) → t ≺ u → insert_term t (u ∷ us) ≡ t ∷ u ∷ us
unfolding insert_term
insert_term-lt t u us h = rw (h, insert_term) refl

insert_term-eq :
    (t u : Bytes) (us : List Bytes)
    → compare_bytes t u ≡ Ordering.eq
    → insert_term t (u ∷ us) ≡ u ∷ us
unfolding insert_term
insert_term-eq t u us h = rw (h, insert_term) refl

insert_term-gt :
    (t u : Bytes) (us : List Bytes)
    → compare_bytes t u ≡ Ordering.gt
    → insert_term t (u ∷ us) ≡ u ∷ insert_term t us
unfolding insert_term
insert_term-gt t u us h = rw (h, insert_term) refl

insert_term-nil : (t : Bytes) → insert_term t [] ≡ t ∷ []
unfolding insert_term
insert_term-nil t = refl

All-insert_term :
    (P : Bytes → Type 0) (t : Bytes) (us : List Bytes) → P t → All P us → All P (insert_term t us)
All-insert_term P t [] p h = rw (insert_term-nil t) (p, tt)
All-insert_term P t (u ∷ us) p h = elim (compare_bytes-cases t u) [
  | inl lt ↦ rw (insert_term-lt t u us lt) (p, h)
  | inr (inl (e, eq)) ↦ rw (insert_term-eq t u us eq) h
  | inr (inr (gt, g)) ↦ rw (insert_term-gt t u us g) (h.0, All-insert_term P t us p h.1)
]

insert_term-IsSorted : (t : Bytes) (us : List Bytes) → IsSorted us → IsSorted (insert_term t us)
insert_term-IsSorted t [] h = rw (insert_term-nil t) (tt, tt)
insert_term-IsSorted t (u ∷ us) h = elim (compare_bytes-cases t u) [
  | inl lt ↦
      rw (insert_term-lt t u us lt) ((lt, All-imp _ _ us (λ w k. lt_trans t u w lt k) h.0), h)
  | inr (inl (e, eq)) ↦ rw (insert_term-eq t u us eq) h
  | inr (inr (gt, g)) ↦
      rw (insert_term-gt t u us g)
        (All-insert_term (λ w. u ≺ w) t us gt h.0, insert_term-IsSorted t us h.1)
]

-- A set of terms, in order.
abbrev pub AreTerms : List Bytes → Type 0
AreTerms ts = All IsTerm ts × IsSorted ts

maybe_push_term-AreTerms :
    (terms : List Bytes) (token : Bytes)
    → AreTerms terms
    → All IsTermChar token
    → AreTerms (maybe_push_term terms token)
unfolding maybe_push_term
maybe_push_term-AreTerms terms token h p =
    elim (Bool-cases (leb 3 (length (trim_end (trim_start token))))) [
      | inr e ↦ rw (e, maybe_push_term) h
      | inl e ↦
          let term : IsTerm (trim_end (trim_start token)) = record {
            long = leb→le 3 (length (trim_end (trim_start token))) e;
            characters =
                All-trim_end IsTermChar (trim_start token) (All-trim_start IsTermChar token p);
            trimmed = trim_twice token;
          } in
          rw (e, maybe_push_term)
            (
              All-insert_term IsTerm (trim_end (trim_start token)) terms term h.0,
              insert_term-IsSorted (trim_end (trim_start token)) terms h.1,
            )
    ]

flush-AreTerms :
    (terms : List Bytes) (token : Bytes)
    → AreTerms terms
    → All IsTermChar token
    → AreTerms (flush terms token)
unfolding flush
flush-AreTerms terms [] h p = h
flush-AreTerms terms (b ∷ bs) h p = maybe_push_term-AreTerms terms (b ∷ bs) h p

scan-AreTerms :
    (bs : Bytes) (terms : List Bytes) (token : Bytes)
    → All (λ b. (leb 65 b && leb b 90) ≡ false) bs
    → AreTerms terms
    → All IsTermChar token
    → AreTerms (scan bs (terms, token))
unfolding scan scan_step
scan-AreTerms [] terms token l h p = flush-AreTerms terms token h p
scan-AreTerms (b ∷ bs) terms token l h p = elim (Bool-cases (in_term b)) [
  | inl e ↦
      rw (e, scan_step)
        (scan-AreTerms bs terms (token ++ b ∷ []) l.1 h
          (All-append IsTermChar token (b ∷ []) p ((e, l.0), tt)))
  | inr e ↦
      rw (e, scan_step)
        (scan-AreTerms bs (flush terms token) [] l.1 (flush-AreTerms terms token h p) tt)
]

lowercase-All : (bs : Bytes) → All (λ b. (leb 65 b && leb b 90) ≡ false) (to_ascii_lowercase bs)
unfolding to_ascii_lowercase
lowercase-All [] = tt
lowercase-All (b ∷ bs) = (ground arith, lowercase-All bs)

-- What is extracted from any text are terms, in strictly ascending order: they have at least three
-- characters, in lower case, and neither start nor end with a joiner.
pub extract_terms-AreTerms : (text : Bytes) → AreTerms (extract_terms text)
unfolding extract_terms
extract_terms-AreTerms text =
    scan-AreTerms (to_ascii_lowercase text) [] [] (lowercase-All text) (tt, tt) tt

lowercase-of_term : (bs : Bytes) → All IsTermChar bs → to_ascii_lowercase bs ≡ bs
unfolding to_ascii_lowercase
lowercase-of_term [] h = refl
lowercase-of_term (b ∷ bs) h = rw (h.0.1, lowercase-of_term bs h.1) refl

scan-of_term :
    (bs : Bytes) (terms : List Bytes) (token : Bytes)
    → All IsTermChar bs
    → scan bs (terms, token) ≡ flush terms (token ++ bs)
unfolding scan scan_step
scan-of_term [] terms token h = ap (flush terms) (sym (append-nil token))
scan-of_term (b ∷ bs) terms token h =
    rw (h.0.0, scan_step)
      (scan-of_term bs terms (token ++ b ∷ []) h.1
        ∙ ap (flush terms) (append_assoc token (b ∷ []) bs))

flush-of_term : (t : Bytes) → IsTerm t → flush [] t ≡ t ∷ []
unfolding flush maybe_push_term
flush-of_term [] h = absurd (omega (arith, h.long))
flush-of_term (b ∷ bs) h =
    rw (h.trimmed, le→leb 3 (length (b ∷ bs)) h.long) (insert_term-nil (b ∷ bs))

-- A term has itself as its only term.
pub extract_terms-of_term : (t : Bytes) → IsTerm t → extract_terms t ≡ t ∷ []
unfolding extract_terms
extract_terms-of_term t h =
    ap (λ s. scan s ([], [])) (lowercase-of_term t h.characters)
    ∙ scan-of_term t [] [] h.characters
    ∙ flush-of_term t h
