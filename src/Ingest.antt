-- ===== src/Ingest.antt =====
-- crates/l5m-core/src/compiler.rs: capsules from JSON and back. The JSON library is left out: a JSON
-- value is kept as the fields that `RawCapsule` reads from it.
pub mod Replay
use l5m.Prelude.{ℕ, ◌+◌, ◌^◌, Option, none, some, List, [], ◌∷◌, ◌++◌, Bytes, map, if◌then◌else◌}
use l5m.Prelude.Int.{ℤ}
use l5m.Prelude.Digits.{decimal, hex}
use l5m.Prelude.Order.{sort_dedup}
use l5m.Prelude.Parse
use l5m.Platform.{Platform}
use l5m.Outcome.{Outcome, ok, err, ◌>>=◌, json, format, bad_u128}
use l5m.Capsule.{MemoryCapsule, RelationEdge, RelationKind}
use l5m.Format.{or_format}
use l5m.Format.Reader.{source_material}
use l5m.Probe.{extract_terms, semantic_bits_for_text, residual_for_text, spaced}

pub record RawRelationEdge : Type 0 where
  pub from : Bytes
  pub to : Bytes
  pub kind : RelationKind
  pub weight : ℤ

pub record RawCapsule (F : Type 0) : Type 0 where
  pub capsule_id : Bytes
  pub tenant_id : ℕ
  pub claim : Bytes
  pub evidence : Bytes
  pub source_id : ℕ
  pub source_uri : Option Bytes
  pub anchors : Option (List Bytes)
  pub entities : Option (List Bytes)
  pub embedding : Option (List F)
  pub valid_from : ℤ
  pub valid_until : Option ℤ
  pub observed_at : ℤ
  pub last_verified_at : ℤ
  pub context_mask : Bytes
  pub policy_mask : Bytes
  pub trust_level : ℕ
  pub classification : ℕ
  pub poison_risk : ℕ
  pub relation_edges : List RawRelationEdge

unfoldable pub flat_terms : List Bytes → List Bytes
unfolding extract_terms
flat_terms [] = []
flat_terms (value ∷ values) = extract_terms value ++ flat_terms values

unfoldable pub normalize_terms : List Bytes → List Bytes
unfolding flat_terms sort_dedup
normalize_terms values = sort_dedup (flat_terms values)

unfoldable pub parse_u128 : Bytes → Outcome ℕ
unfolding Parse.parse_u128
parse_u128 value = or_format (Parse.parse_u128 value) bad_u128

abbrev pub unwrap_or {ℓ} : {A : Type ℓ} → A → Option A → A
unwrap_or d none = d
unwrap_or d (some a) = a

-- `terms.join(" ")`.
unfoldable pub join : List Bytes → Bytes
unfolding spaced
join [] = []
join (t ∷ []) = t
join (t ∷ u ∷ ts) = spaced t (join (u ∷ ts))

unfoldable pub into_edge : RawRelationEdge → Outcome RelationEdge
unfolding parse_u128
into_edge e = do
  from ← parse_u128 e.from
  to ← parse_u128 e.to
  ok (record { from = from; to = to; kind = e.kind; weight = e.weight })

unfoldable pub into_edges : List RawRelationEdge → Outcome (List RelationEdge)
unfolding into_edge
into_edges [] = ok []
into_edges (e ∷ es) = do edge ← into_edge e; edges ← into_edges es; ok (edge ∷ edges)

unfoldable pub raw_edge : RelationEdge → RawRelationEdge
raw_edge e = record { from = decimal e.from; to = decimal e.to; kind = e.kind; weight = e.weight }

-- A field that is left out if it is empty.
unfoldable pub unless_empty {ℓ} : {A : Type ℓ} → List A → Option (List A)
unless_empty [] = none
unless_empty (x ∷ xs) = some (x ∷ xs)

-- What serde reads for a `Vec<f32>`: null is no number.
unfoldable pub read_floats {ℓ} : {F : Type ℓ} → List (Option F) → Outcome (List F)
read_floats [] = ok []
read_floats (none ∷ xs) = err json
read_floats (some x ∷ xs) = read_floats xs >>= λ ys. ok (x ∷ ys)

unfoldable pub read_embedding {ℓ} :
    {F : Type ℓ} → Option (List (Option F)) → Outcome (Option (List F))
unfolding read_floats
read_embedding none = ok none
read_embedding (some xs) = read_floats xs >>= λ ys. ok (some ys)

-- `serde_json::from_value`, of a value whose other fields have the types that `RawCapsule` asks for.
unfoldable pub from_value : {F : Type 0} → RawCapsule (Option F) → Outcome (RawCapsule F)
unfolding read_embedding
from_value value = read_embedding value.embedding >>= λ embedding. ok (record {
  capsule_id = value.capsule_id;
  tenant_id = value.tenant_id;
  claim = value.claim;
  evidence = value.evidence;
  source_id = value.source_id;
  source_uri = value.source_uri;
  anchors = value.anchors;
  entities = value.entities;
  embedding = embedding;
  valid_from = value.valid_from;
  valid_until = value.valid_until;
  observed_at = value.observed_at;
  last_verified_at = value.last_verified_at;
  context_mask = value.context_mask;
  policy_mask = value.policy_mask;
  trust_level = value.trust_level;
  classification = value.classification;
  poison_risk = value.poison_risk;
  relation_edges = value.relation_edges;
})

module _ (platform : Platform) where
  -- The capsule of the raw one, whose numbers have been parsed.
  unfoldable pub capsule_of :
      RawCapsule platform.F32 → ℕ → ℕ → ℕ → List RelationEdge → MemoryCapsule platform.F32
  unfolding normalize_terms join source_material
  capsule_of raw capsule_id context_mask policy_mask relation_edges =
      let anchors =
        normalize_terms (unwrap_or (extract_terms (spaced raw.claim raw.evidence)) raw.anchors) in
      let entities = normalize_terms (unwrap_or anchors raw.entities) in
      let semantic_text = spaced (spaced raw.claim raw.evidence) (join anchors) in
      record {
        capsule_id = capsule_id;
        tenant_id = raw.tenant_id;
        claim = raw.claim;
        evidence = raw.evidence;
        source_id = raw.source_id;
        source_uri = raw.source_uri;
        source_hash = platform.blake3 (source_material raw.source_uri raw.evidence);
        semantic_bits = semantic_bits_for_text platform semantic_text;
        residual = residual_for_text platform semantic_text;
        embedding = unwrap_or [] raw.embedding;
        anchors = anchors;
        entities = entities;
        valid_from = raw.valid_from;
        valid_until = raw.valid_until;
        observed_at = raw.observed_at;
        last_verified_at = raw.last_verified_at;
        context_mask = context_mask;
        policy_mask = policy_mask;
        trust_level = raw.trust_level;
        classification = raw.classification;
        poison_risk = raw.poison_risk;
        relation_edges = relation_edges;
        content_hash = platform.blake3 (raw.claim ++ (10 ∷ raw.evidence));
      }

  -- `RawCapsule::into_capsule`.
  unfoldable pub into_capsule : RawCapsule platform.F32 → Outcome (MemoryCapsule platform.F32)
  unfolding parse_u128 into_edges capsule_of
  into_capsule raw = do
    capsule_id ← parse_u128 raw.capsule_id
    context_mask ← parse_u128 raw.context_mask
    policy_mask ← parse_u128 raw.policy_mask
    relation_edges ← into_edges raw.relation_edges
    ok (capsule_of raw capsule_id context_mask policy_mask relation_edges)

  -- A float in JSON: a number, or null where it is infinite or NaN.
  unfoldable pub json_float : platform.F32 → Option platform.F32
  json_float x = if platform.is_finite x then some x else none

  -- `capsule_to_json`.
  unfoldable pub capsule_to_json : MemoryCapsule platform.F32 → RawCapsule (Option platform.F32)
  unfolding raw_edge unless_empty json_float
  capsule_to_json capsule = record {
    capsule_id = decimal capsule.capsule_id;
    tenant_id = capsule.tenant_id;
    claim = capsule.claim;
    evidence = capsule.evidence;
    source_id = capsule.source_id;
    source_uri = capsule.source_uri;
    anchors = some capsule.anchors;
    entities = some capsule.entities;
    embedding = unless_empty (map json_float capsule.embedding);
    valid_from = capsule.valid_from;
    valid_until = capsule.valid_until;
    observed_at = capsule.observed_at;
    last_verified_at = capsule.last_verified_at;
    context_mask = hex capsule.context_mask;
    policy_mask = hex capsule.policy_mask;
    trust_level = capsule.trust_level;
    classification = capsule.classification;
    poison_risk = capsule.poison_risk;
    relation_edges = map raw_edge capsule.relation_edges;
  }

  -- `capsule_from_json`, of the fields of a value.
  unfoldable pub capsule_from_json :
      RawCapsule (Option platform.F32) → Outcome (MemoryCapsule platform.F32)
  unfolding from_value into_capsule
  capsule_from_json value = from_value value >>= into_capsule
