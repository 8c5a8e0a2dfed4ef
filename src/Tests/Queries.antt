-- ===== src/Tests/Queries.antt =====
-- Queries on the segment of the tests.
use l5m.Prelude.{ℕ, ◌≡◌, refl, true, List, [], ◌∷◌, All, arith}
use l5m.Prelude.Map
use l5m.Outcome.{ok, ReturnsOrPanics}
use l5m.BitSet
use l5m.BitSet.{BitSet}
use l5m.BitSet.View.{holds, IsValid}
use l5m.Frame.{FrameCapsule, no_coverage}
use l5m.Index.Build.{build, add_capsule, add_capsules}
use l5m.Retrieve.Gates.{gate_scan}
use l5m.Retrieve.Gates.Spec.{IsBuilt, tally, passes_at}
use l5m.Retrieve.Gates.Exact.{gate_scan-exact}
use l5m.Retrieve.Candidates.{default_config, scored_ordinals}
use l5m.Retrieve.Candidates.Total.{Returns, new-IsSized}
use l5m.Retrieve.Candidates.Gated.{Gated}
use l5m.Retrieve.Candidates.Scored.{scored_ordinals-Returns}
use l5m.Retrieve.Rank.{frame_capsule, score_all, ranked_capsules}
use l5m.Retrieve.Rank.Ordered.{IsUnordered}
use l5m.Retrieve.Rank.Sources.{IsFramed, ranked_capsules-IsFramed}
use l5m.Retrieve.Rank.Budget.{IsLimited, ranked_capsules-limits}
use l5m.Retrieve.Relations.{expand_relations}
use l5m.Retrieve.Relations.Shown.{IsShown, expand_relations-IsShown}
use l5m.Retrieve.Relations.Once.{distinct_ids, expand_relations-distinct_ids}
use l5m.Retrieve.Run.{retrieve_with_config}
use l5m.Retrieve.Run.Authorized.{IsAuthorized, ScoresNan, retrieve_with_config-IsAuthorized}
use l5m.Tests.{platform, capsules, new_note, segment, probe, platform-IsIeee}

segment-IsBuilt : IsBuilt platform segment
unfolding build add_capsules add_capsule Map.insert
segment-IsBuilt = record { built = refl; distinct = refl; small = omega arith }

retrieve_with_config-IsAuthorized_example :
    ReturnsOrPanics
      (retrieve_with_config platform segment probe (default_config platform))
      (IsAuthorized platform segment probe)
      (ScoresNan platform segment probe (default_config platform).embed_rrf_k)
retrieve_with_config-IsAuthorized_example =
    retrieve_with_config-IsAuthorized platform segment probe (default_config platform)
      platform-IsIeee segment-IsBuilt

gate_scan-exact_example :
    (cand : BitSet) × (gate_scan segment probe
      ≡ ok (cand, tally probe capsules capsules no_coverage))
    × (cand.size ≡ 3)
    × IsValid cand
    × ((j : ℕ) → holds cand j ≡ passes_at probe capsules j)
gate_scan-exact_example = gate_scan-exact platform segment probe segment-IsBuilt

scored_ordinals-Returns_example :
    Returns
      (scored_ordinals platform segment probe
        (BitSet.new 3)
        (BitSet.new 3)
        (default_config platform))
      (All (Gated (BitSet.new 3)))
scored_ordinals-Returns_example =
    scored_ordinals-Returns platform segment probe segment-IsBuilt (BitSet.new 3) (new-IsSized 3)
      (BitSet.new 3) (new-IsSized 3) (default_config platform)

ranked_capsules-IsFramed_example :
    ReturnsOrPanics
      (ranked_capsules platform 60 segment probe (1 ∷ []))
      (All (IsFramed platform segment probe (λ c. true)))
      (IsUnordered platform probe 60 (score_all platform segment probe (1 ∷ [])))
ranked_capsules-IsFramed_example =
    ranked_capsules-IsFramed platform segment probe (λ c. true) 60 (1 ∷ []) ((λ c e. refl), tt)

ranked_capsules-limits_example :
    ReturnsOrPanics
      (ranked_capsules platform 60 segment probe (0 ∷ 1 ∷ []))
      (IsLimited probe)
      (IsUnordered platform probe 60 (score_all platform segment probe (0 ∷ 1 ∷ [])))
ranked_capsules-limits_example = ranked_capsules-limits platform 60 segment probe (0 ∷ 1 ∷ [])

-- What ranking gives for the second capsule.
abbrev selected : List (FrameCapsule ℕ)
selected = frame_capsule new_note 3 [] ∷ []

expand_relations-IsShown_example :
    All (IsShown segment probe) (expand_relations platform segment probe selected)
expand_relations-IsShown_example = expand_relations-IsShown platform segment probe selected

expand_relations-distinct_ids_example :
    distinct_ids (expand_relations platform segment probe selected) ≡ true
expand_relations-distinct_ids_example =
    expand_relations-distinct_ids platform segment probe selected
