-- ===== src/Ingest/Replay.antt =====
-- crates/l5m-core/src/compiler.rs and wal.rs: a capsule that has come from JSON, written to the log
-- and read back.
use l5m.Prelude.{
  sym, ℕ, ◌^◌, ◌<◌, ◌≡◌, refl, ap, ap₂, ◌∙◌, subst, Option, none, some, List, [], ◌∷◌, ◌++◌, Bytes,
  map, All, All-append, Bool, true, false, Bool-cases, inl, inr, if◌then◌else◌, all,
}
use l5m.Prelude.Digits.{decimal, hex}
use l5m.Prelude.Order.{sort_dedup, sort_dedup-IsSorted, sort_dedup-sorted, All-sort, All-dedup}
use l5m.Prelude.Parse.{parse_u128-decimal, parse_u128-hex, parse_u128-lt}
use l5m.Prelude.Parse
use l5m.Platform.{Platform}
use l5m.Outcome.{ok, err, json, ◌>>=◌, bad_u128, FormatError, bind-ok, ok-injective}
use l5m.Capsule.{MemoryCapsule, RelationEdge}
use l5m.Format.{or_format}
use l5m.Probe.{extract_terms}
use l5m.Probe.Terms.{IsTerm, AreTerms, extract_terms-AreTerms, extract_terms-of_term}
use l5m.Ingest.{
  RawCapsule, RawRelationEdge, flat_terms, normalize_terms, parse_u128, unwrap_or, into_edge,
  into_edges, raw_edge, unless_empty, capsule_to_json, capsule_of, into_capsule, json_float,
  read_floats, read_embedding, from_value, capsule_from_json,
}

flat_terms-All : (values : List Bytes) → All IsTerm (flat_terms values)
unfolding flat_terms
flat_terms-All [] = tt
flat_terms-All (v ∷ vs) =
    All-append IsTerm (extract_terms v) (flat_terms vs) (extract_terms-AreTerms v).0
      (flat_terms-All vs)

-- Normalization gives terms in strictly ascending order.
normalize_terms-AreTerms : (values : List Bytes) → AreTerms (normalize_terms values)
unfolding normalize_terms sort_dedup
normalize_terms-AreTerms values = (
  All-dedup IsTerm _ (All-sort IsTerm (flat_terms values) (flat_terms-All values)),
  sort_dedup-IsSorted (flat_terms values),
)

flat_terms-of_terms : (ts : List Bytes) → All IsTerm ts → flat_terms ts ≡ ts
unfolding flat_terms
flat_terms-of_terms [] h = refl
flat_terms-of_terms (t ∷ ts) h =
    ap₂ (◌++◌) (extract_terms-of_term t h.0) (flat_terms-of_terms ts h.1)

normalize_terms-of_terms : (ts : List Bytes) → AreTerms ts → normalize_terms ts ≡ ts
unfolding normalize_terms sort_dedup
normalize_terms-of_terms ts h =
    ap sort_dedup (flat_terms-of_terms ts h.0) ∙ sort_dedup-sorted ts h.1

-- A second normalization changes nothing.
normalize_terms_twice :
    (values : List Bytes) → normalize_terms (normalize_terms values) ≡ normalize_terms values
normalize_terms_twice values =
    normalize_terms-of_terms (normalize_terms values) (normalize_terms-AreTerms values)

or_format-ok : (o : Option ℕ) (e : FormatError) {n : ℕ} → or_format o e ≡ ok n → o ≡ some n
or_format-ok none e h = absurd (cc)
or_format-ok (some a) e h = ap some (ok-injective h)

parse_u128-ok : (value : Bytes) {n : ℕ} → parse_u128 value ≡ ok n → n < 2 ^ 128
unfolding parse_u128
parse_u128-ok value h = parse_u128-lt value (or_format-ok (Parse.parse_u128 value) bad_u128 h)

reads_decimal : (n : ℕ) → n < 2 ^ 128 → parse_u128 (decimal n) ≡ ok n
unfolding parse_u128
reads_decimal n h = ap (λ o. or_format o bad_u128) (parse_u128-decimal n h)

reads_hex : (n : ℕ) → n < 2 ^ 128 → parse_u128 (hex n) ≡ ok n
unfolding parse_u128
reads_hex n h = ap (λ o. or_format o bad_u128) (parse_u128-hex n h)

-- Ids that fit 128 bits.
abbrev IsSized : RelationEdge → Type 0
IsSized e = (e.from < 2 ^ 128) × (e.to < 2 ^ 128)

into_edge-IsSized :
    (e : RawRelationEdge) {edge : RelationEdge} → into_edge e ≡ ok edge → IsSized edge
unfolding into_edge
into_edge-IsSized e h =
    let (from, f, h') = bind-ok (parse_u128 e.from) _ h in
    let (to, t, h'') = bind-ok (parse_u128 e.to) _ h' in
    subst IsSized (ok-injective h'') (parse_u128-ok e.from f, parse_u128-ok e.to t)

into_edges-All :
    (es : List RawRelationEdge) {edges : List RelationEdge}
    → into_edges es ≡ ok edges
    → All IsSized edges
unfolding into_edges
into_edges-All [] h = subst (All IsSized) (ok-injective h) tt
into_edges-All (e ∷ es) h =
    let (edge, f, h') = bind-ok (into_edge e) _ h in
    let (edges, t, h'') = bind-ok (into_edges es) _ h' in
    subst (All IsSized) (ok-injective h'') (into_edge-IsSized e f, into_edges-All es t)

into_edges-raw :
    (edges : List RelationEdge) → All IsSized edges → into_edges (map raw_edge edges) ≡ ok edges
unfolding into_edges into_edge raw_edge
into_edges-raw [] h = refl
into_edges-raw (e ∷ es) h =
    rw (reads_decimal e.from h.0.0, reads_decimal e.to h.0.1, into_edges-raw es h.1) refl

unless_empty_back {ℓ} : {A : Type ℓ} (xs : List A) → unwrap_or [] (unless_empty xs) ≡ xs
unfolding unless_empty
unless_empty_back [] = refl
unless_empty_back (x ∷ xs) = refl

-- The fields of a capsule whose floats are all finite, as they are read from its JSON.
finite_json : {F : Type 0} → MemoryCapsule F → RawCapsule F
unfolding raw_edge unless_empty
finite_json capsule = record {
  capsule_id = decimal capsule.capsule_id;
  tenant_id = capsule.tenant_id;
  claim = capsule.claim;
  evidence = capsule.evidence;
  source_id = capsule.source_id;
  source_uri = capsule.source_uri;
  anchors = some capsule.anchors;
  entities = some capsule.entities;
  embedding = unless_empty capsule.embedding;
  valid_from = capsule.valid_from;
  valid_until = capsule.valid_until;
  observed_at = capsule.observed_at;
  last_verified_at = capsule.last_verified_at;
  context_mask = hex capsule.context_mask;
  policy_mask = hex capsule.policy_mask;
  trust_level = capsule.trust_level;
  classification = capsule.classification;
  poison_risk = capsule.poison_risk;
  relation_edges = map raw_edge capsule.relation_edges;
}

module _ (platform : Platform) where
  -- The parts of the capsule are what its own fields give.
  capsule_of-again :
      (raw : RawCapsule platform.F32) (id context policy : ℕ) (edges : List RelationEdge)
      → capsule_of platform
          (finite_json (capsule_of platform raw id context policy edges))
          id
          context
          policy
          edges
        ≡ capsule_of platform raw id context policy edges
  unfolding capsule_of finite_json
  capsule_of-again raw id context policy edges = simp (normalize_terms_twice, unless_empty_back)

  reads_again :
      (raw : RawCapsule platform.F32) (id context policy : ℕ) (edges : List RelationEdge)
      → id < 2 ^ 128
      → context < 2 ^ 128
      → policy < 2 ^ 128
      → All IsSized edges
      → into_capsule platform (finite_json (capsule_of platform raw id context policy edges))
        ≡ ok (capsule_of platform raw id context policy edges)
  unfolding into_capsule finite_json capsule_of
  reads_again raw id context policy edges h1 h2 h3 h4 =
      rw (reads_decimal id h1, reads_hex context h2, reads_hex policy h3, into_edges-raw edges h4)
        (ap ok (capsule_of-again raw id context policy edges))

  into_capsule-finite_json :
      (raw : RawCapsule platform.F32) (c : MemoryCapsule platform.F32)
      → into_capsule platform raw ≡ ok c
      → into_capsule platform (finite_json c) ≡ ok c
  unfolding into_capsule
  into_capsule-finite_json raw c h =
      let (id, i, h1) = bind-ok (parse_u128 raw.capsule_id) _ h in
      let (context, x, h2) = bind-ok (parse_u128 raw.context_mask) _ h1 in
      let (policy, p, h3) = bind-ok (parse_u128 raw.policy_mask) _ h2 in
      let (edges, e, h4) = bind-ok (into_edges raw.relation_edges) _ h3 in
      subst (λ c. into_capsule platform (finite_json c) ≡ ok c) (ok-injective h4)
        (reads_again raw id context policy edges (parse_u128-ok raw.capsule_id i)
          (parse_u128-ok raw.context_mask x) (parse_u128-ok raw.policy_mask p)
          (into_edges-All raw.relation_edges e))

  read_floats-json_float :
      (xs : List platform.F32)
      → read_floats (map (json_float platform) xs)
        ≡ (if all platform.is_finite xs then ok xs else err json)
  unfolding read_floats json_float
  read_floats-json_float [] = refl
  read_floats-json_float (x ∷ xs) = elim (Bool-cases (platform.is_finite x)) [
    | inl finite ↦ rw (finite, read_floats-json_float xs) (by_rest (all platform.is_finite xs))
    | inr other ↦ rw other refl
  ]
    where
      by_rest :
          (b : Bool)
          → ((if b then ok xs else err json) >>= λ ys. ok (x ∷ ys))
            ≡ (if b then ok (x ∷ xs) else err json)
      by_rest true = refl
      by_rest false = refl

  read_embedding-json_float :
      (xs : List platform.F32)
      → read_embedding (unless_empty (map (json_float platform) xs))
        ≡ (if all platform.is_finite xs then ok (unless_empty xs) else err json)
  unfolding read_embedding unless_empty
  read_embedding-json_float [] = refl
  read_embedding-json_float (x ∷ xs) =
      ap (λ m. m >>= λ ys. ok (some ys)) (read_floats-json_float (x ∷ xs))
      ∙ by_all (all platform.is_finite (x ∷ xs))
    where
      by_all :
          (b : Bool)
          → ((if b then ok (x ∷ xs) else err json) >>= λ ys. ok (some ys))
            ≡ (if b then ok (some (x ∷ xs)) else err json)
      by_all true = refl
      by_all false = refl

  from_value-capsule_to_json :
      (c : MemoryCapsule platform.F32)
      → from_value (capsule_to_json platform c)
        ≡ (if all platform.is_finite c.embedding then ok (finite_json c) else err json)
  unfolding from_value capsule_to_json finite_json
  from_value-capsule_to_json c =
      rw (read_embedding-json_float c.embedding)
        (elim (Bool-cases (all platform.is_finite c.embedding)) [
          | inl finite ↦ rw finite refl
          | inr other ↦ rw other refl
        ])

  -- A capsule that has been read from JSON is read again, equal, from what `capsule_to_json` writes
  -- of it, if the floats of its embedding are finite; if one is not, reading it is a JSON error.
  pub capsule_from_json-capsule_to_json :
      (raw : RawCapsule platform.F32) (c : MemoryCapsule platform.F32)
      → into_capsule platform raw ≡ ok c
      → capsule_from_json platform (capsule_to_json platform c)
        ≡ (if all platform.is_finite c.embedding then ok c else err json)
  unfolding capsule_from_json
  capsule_from_json-capsule_to_json raw c h =
      ap (λ m. m >>= into_capsule platform) (from_value-capsule_to_json c)
      ∙ by_all (all platform.is_finite c.embedding)
    where
      by_all :
          (b : Bool)
          → ((if b then ok (finite_json c) else err json) >>= into_capsule platform)
            ≡ (if b then ok c else err json)
      by_all true = into_capsule-finite_json raw c h
      by_all false = refl

  -- The tenant of the capsule is the one in the value.
  pub into_capsule-tenant :
      (raw : RawCapsule platform.F32) (c : MemoryCapsule platform.F32)
      → into_capsule platform raw ≡ ok c
      → c.tenant_id ≡ raw.tenant_id
  unfolding into_capsule capsule_of
  into_capsule-tenant raw c h =
      let (id, i, h1) = bind-ok (parse_u128 raw.capsule_id) _ h in
      let (context, x, h2) = bind-ok (parse_u128 raw.context_mask) _ h1 in
      let (policy, p, h3) = bind-ok (parse_u128 raw.policy_mask) _ h2 in
      let (edges, e, h4) = bind-ok (into_edges raw.relation_edges) _ h3 in
      ap (λ c. c.tenant_id) (sym (ok-injective h4))
