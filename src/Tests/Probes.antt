-- ===== src/Tests/Probes.antt =====
-- A text with terms, and a capsule from JSON.
use l5m.Prelude.{ℕ, ◌≡◌, refl, none, some, [], ◌∷◌, Bytes, all, if◌then◌else◌, arith}
use l5m.Prelude.Int.{pos}
use l5m.Prelude.Text.{compare_bytes, chars, is_whitespace}
use l5m.Outcome.{ok, err, json}
use l5m.Capsule.{MemoryCapsule, contradicts}
use l5m.Probe.{
  extract_terms, to_ascii_lowercase, scan, scan_step, flush, maybe_push_term, in_term, trim_start,
  trim_end,
}
use l5m.Probe.Terms.{IsTerm, AreTerms, extract_terms-AreTerms, extract_terms-of_term}
use l5m.Ingest.{
  RawCapsule, parse_u128, into_edges, capsule_to_json, into_capsule, capsule_from_json,
}
use l5m.Ingest.Replay.{capsule_from_json-capsule_to_json}
use l5m.Tests.Audits.{hashing}
use l5m.Tests.Files.{ok_value}

-- "Ab1 -x/y- to z_9."
abbrev text : Bytes
text = 65 ∷ 98 ∷ 49 ∷ 32 ∷ 45 ∷ 120 ∷ 47 ∷ 121 ∷ 45 ∷ 32 ∷ 116 ∷ 111 ∷ 32 ∷ 122 ∷ 95 ∷ 57 ∷ 46 ∷ []

text_terms :
    extract_terms text ≡ (97 ∷ 98 ∷ 49 ∷ []) ∷ (120 ∷ 47 ∷ 121 ∷ []) ∷ (122 ∷ 95 ∷ 57 ∷ []) ∷ []
unfolding extract_terms to_ascii_lowercase scan scan_step flush maybe_push_term compare_bytes
text_terms = refl

extract_terms-AreTerms_example : AreTerms (extract_terms text)
extract_terms-AreTerms_example = extract_terms-AreTerms text

abbrev term : Bytes
term = 120 ∷ 47 ∷ 121 ∷ []

term-IsTerm : IsTerm term
unfolding in_term trim_start trim_end
term-IsTerm = record {
  long = omega arith;
  characters = ((refl, refl), ((refl, refl), ((refl, refl), tt)));
  trimmed = refl;
}

extract_terms-of_term_example : extract_terms term ≡ term ∷ []
extract_terms-of_term_example = extract_terms-of_term term term-IsTerm

abbrev pub raw : RawCapsule ℕ
raw = record {
  capsule_id = 52 ∷ 50 ∷ [];
  tenant_id = 7;
  claim = text;
  evidence = 98 ∷ [];
  source_id = 1;
  source_uri = none;
  anchors = none;
  entities = some (text ∷ []);
  embedding = some (3 ∷ []);
  valid_from = pos 0;
  valid_until = some (pos 9);
  observed_at = pos 0;
  last_verified_at = pos 0;
  context_mask = 48 ∷ 120 ∷ 102 ∷ [];
  policy_mask = 51 ∷ [];
  trust_level = 5;
  classification = 0;
  poison_risk = 0;
  relation_edges =
      record { from = 52 ∷ 50 ∷ []; to = 55 ∷ []; kind = contradicts; weight = pos 1 } ∷ [];
}

pub raw_reads : (c : MemoryCapsule ℕ) × (into_capsule hashing raw ≡ ok c)
unfolding into_capsule parse_u128 into_edges chars is_whitespace
raw_reads = ok_value (into_capsule hashing raw) refl

capsule_from_json-capsule_to_json_example :
    capsule_from_json hashing (capsule_to_json hashing raw_reads.0)
    ≡ (if all hashing.is_finite raw_reads.0.embedding then ok raw_reads.0 else err json)
capsule_from_json-capsule_to_json_example =
    capsule_from_json-capsule_to_json hashing raw raw_reads.0 raw_reads.1
