-- ===== src/Retrieve/Run/Authorized.antt =====
-- crates/l5m-core/src/retrieve.rs, retrieve_with_config: what a frame promises.
use l5m.Prelude.{ℕ, List, ◌≤◌, ◌≡◌, sym, ap, ◌∙◌, none, some, false, length, All, All-imp, ◌⊎◌}
use l5m.Platform.{Platform}
use l5m.Outcome.{
  ReturnsOrPanics, ReturnsOrPanics-ok, ReturnsOrPanics-bind, ReturnsOrPanics-imp,
  ReturnsOrPanics-both,
}
use l5m.Frame.{MemoryProbe, MemoryFrame}
use l5m.Segment.Query.{Segment}
use l5m.Retrieve.Gates.Spec.{passes, IsBuilt}
use l5m.Retrieve.Gates.Exact.{gate_scan-exact}
use l5m.Retrieve.Candidates.{RetrievalConfig}
use l5m.Retrieve.Candidates.Gated.{Gated}
use l5m.Retrieve.Candidates.Scored.{lookup_scan-Returns, scored_ordinals-Returns}
use l5m.Retrieve.Rank.{ranked_capsules, score_all}
use l5m.Retrieve.Rank.Numbers.{IsIeee, HasNan, HasNan-of_IsUnordered}
use l5m.Retrieve.Rank.Sources.{IsFramed, PassesTest, ranked_capsules-IsFramed}
use l5m.Retrieve.Rank.Budget.{frame_tokens, ranked_capsules-limits}
use l5m.Retrieve.Relations.Shown.{IsShown, expand_relations-IsShown}
use l5m.Retrieve.Run.{retrieve_with_config}

-- What a frame promises the caller.
pub record IsAuthorized (p : Platform) (s : Segment p.F32) (probe : MemoryProbe p.F32)
    (frame : MemoryFrame p.F32) : Type 0 where
  pub selected : All (IsFramed p s probe (passes probe s.capsules)) frame.capsules
  pub conflicting : All (IsShown s probe) frame.conflicts
  pub at_most : length frame.capsules ≤ probe.max_capsules
  pub in_budget : (frame_tokens frame.capsules ≤ probe.max_tokens) ⊎ (length frame.capsules ≡ 1)

-- There is NaN among the scores of some capsules of the segment, each of which clears the gates.
pub record ScoresNan (p : Platform) (s : Segment p.F32) (probe : MemoryProbe p.F32) (k : p.F64)
    : Type 0 where
  pub ordinals : List ℕ
  pub gated : All (PassesTest p s probe (passes probe s.capsules)) ordinals
  pub nan : HasNan p probe k (score_all p s probe ordinals)

-- On a built segment every query returns a frame, under any configuration, unless there is NaN among
-- the scores that it sorts by: then the sort can panic. The capsules of the frame are capsules of
-- the segment that clear the hard gates of the probe and that none clearing them supersedes; its
-- conflicts clear the authorization gates; and it keeps to `max_capsules` and, if it has more than
-- one capsule, to `max_tokens`. Floats other than NaN are to compare in a total order.
pub retrieve_with_config-IsAuthorized :
    (p : Platform) (s : Segment p.F32) (probe : MemoryProbe p.F32) (config : RetrievalConfig p.F64)
    → IsIeee p
    → IsBuilt p s
    → ReturnsOrPanics
        (retrieve_with_config p s probe config)
        (IsAuthorized p s probe)
        (ScoresNan p s probe config.embed_rrf_k)
unfolding retrieve_with_config
retrieve_with_config-IsAuthorized p s probe config ieee v =
    let (cand, scan, size, valid, exact) = gate_scan-exact p s probe v in
    let (found, look, sized) =
      lookup_scan-Returns p s probe v cand (record { size_eq = size; valid = valid }) in
    let (ordinals, pick, gated) =
      scored_ordinals-Returns p s probe v cand (record { size_eq = size; valid = valid })
        found.lookup sized config in
    let test = passes probe s.capsules in
    let tested =
      All-imp (Gated cand) (PassesTest p s probe test) ordinals
        (λ i g c e. sym (ap (λ o. elim o [ none ↦ false | some d ↦ test d ]) e) ∙ sym (exact i) ∙ g)
        gated in
    rw (scan, look, pick)
      (ReturnsOrPanics-bind (ranked_capsules p config.embed_rrf_k s probe ordinals) _
        (ReturnsOrPanics-imp
          (ReturnsOrPanics-both
            (ranked_capsules-IsFramed p s probe test config.embed_rrf_k ordinals tested)
            (ranked_capsules-limits p config.embed_rrf_k s probe ordinals))
          (λ capsules h. h)
          (λ unordered. record {
            ordinals = ordinals;
            gated = tested;
            nan = HasNan-of_IsUnordered p ieee probe config.embed_rrf_k _ unordered;
          }))
        (λ capsules e h. ReturnsOrPanics-ok _ (record {
          selected = h.0;
          conflicting = expand_relations-IsShown p s probe _;
          at_most = h.1.0;
          in_budget = h.1.1;
        })))
