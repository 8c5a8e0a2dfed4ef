-- ===== src/Retrieve/Run.antt =====
-- crates/l5m-core/src/retrieve.rs: `retrieve_with_config`, the phases in order.
pub mod Authorized
use l5m.Prelude.{length}
use l5m.Platform.{Platform}
use l5m.Outcome.{Outcome, ok, ◌>>=◌}
use l5m.Frame.{MemoryProbe, MemoryFrame}
use l5m.Segment.Query.{Segment}
use l5m.Retrieve.Gates.{gate_scan}
use l5m.Retrieve.Candidates.{RetrievalConfig, default_config, lookup_scan, scored_ordinals}
use l5m.Retrieve.Rank.{ranked_capsules}
use l5m.Retrieve.Relations.{expand_relations}

module _ (p : Platform) where
  open p use {F32, F64}

  unfoldable pub retrieve_with_config :
      Segment F32 → MemoryProbe F32 → RetrievalConfig F64 → Outcome (MemoryFrame F32)
  retrieve_with_config s probe config = do
    (candidates, coverage) ← gate_scan s probe
    found ← lookup_scan p s probe candidates
    ordinals ← scored_ordinals p s probe candidates found.lookup config
    capsules ← ranked_capsules p config.embed_rrf_k s probe ordinals
    ok (record {
      epoch = s.epoch;
      query_hash = p.blake3 probe.query_text;
      capsules = capsules;
      conflicts = expand_relations p s probe capsules;
      coverage = record coverage {
        exact_entity_match = found.exact_entity_match;
        anchor_match_count = found.anchor_match_count;
        candidate_count_before_scoring = length ordinals;
      };
    })

  unfoldable pub retrieve : Segment F32 → MemoryProbe F32 → Outcome (MemoryFrame F32)
  unfolding retrieve_with_config
  retrieve s probe = retrieve_with_config s probe (default_config p)
