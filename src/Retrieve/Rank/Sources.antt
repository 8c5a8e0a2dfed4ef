-- ===== src/Retrieve/Rank/Sources.antt =====
-- crates/l5m-core/src/retrieve.rs: where the ranked capsules come from.
use l5m.Prelude.{
  ℕ, ◌≡◌, refl, Bool, true, false, none, some, Option, List, [], ◌∷◌, ◌++◌, if◌then◌else◌,
  get_elem?, All, All-append, All-take,
}
use l5m.Platform.{Platform}
use l5m.Outcome.{ReturnsOrPanics}
use l5m.Retrieve.Rank.Ordered.{IsUnordered, ranked_capsules-ReturnsOrPanics}
use l5m.Capsule.{MemoryCapsule}
use l5m.Frame.{MemoryProbe, FrameCapsule}
use l5m.Segment.Query.{Segment, capsule}
use l5m.Scoring.{score_capsule, overlap_count}
use l5m.Retrieve.Rank.{frame_capsule, score_all, spend, ranked_capsules}

module _ (p : Platform) (s : Segment p.F32) (probe : MemoryProbe p.F32)
    (test : MemoryCapsule p.F32 → Bool) where
  open p use {F32, F64}

  -- The capsule at the ordinal, if there is one, passes the test.
  abbrev pub PassesTest : ℕ → Type 0
  PassesTest i = (c : MemoryCapsule F32) → get_elem? s.capsules i ≡ some c → test c ≡ true

  -- The capsule stands in the segment and passes the test.
  abbrev pub IsSource : MemoryCapsule F32 → Type 0
  IsSource c = ((i : ℕ) × (get_elem? s.capsules i ≡ some c)) × (test c ≡ true)

  abbrev pub Scored : MemoryCapsule F32 × F32 → Type 0
  Scored e = IsSource e.0

  -- The entry is the frame of such a capsule, without notes.
  abbrev pub IsFramed : FrameCapsule F32 → Type 0
  IsFramed x = (c : MemoryCapsule F32) × IsSource c × (x ≡ frame_capsule c x.score [])

  score_all-Scored :
      (ordinals : List ℕ) → All PassesTest ordinals → All Scored (score_all p s probe ordinals)
  unfolding score_all capsule
  score_all-Scored [] h = tt
  score_all-Scored (i ∷ is) h =
      by_capsule (get_elem? s.capsules i) (λ c e. ((i, e), h.0 c e)) (score_all-Scored is h.1)
    where
      by_capsule :
          (o : Option (MemoryCapsule F32))
          → ((c : MemoryCapsule F32) → o ≡ some c → IsSource c)
          → All Scored (score_all p s probe is)
          → All Scored (elim o [
            | none ↦ score_all p s probe is
            | some c ↦
                (
                  c,
                  p.add
                      (score_capsule p s c probe)
                      (p.mul (p.of_nat (overlap_count c.entities probe.entities)) (p.decimal 2 0)),
                )
                ∷ score_all p s probe is
          ])
      by_capsule none k r = r
      by_capsule (some c) k r = (k c refl, r)

  spend-IsFramed :
      (xs : List (MemoryCapsule F32 × F32)) (budget : ℕ) (taken : List (FrameCapsule F32))
      → All Scored xs
      → All IsFramed taken
      → All IsFramed (spend p budget xs taken)
  unfolding spend
  spend-IsFramed [] budget taken h k = k
  spend-IsFramed ((c, score) ∷ xs) budget taken h k = spend-IsFramed xs _ _ h.1 (keep _)
    where
      keep : (b : Bool) → All IsFramed (if b then taken ++ frame_capsule c score [] ∷ [] else taken)
      keep true = All-append IsFramed taken _ k ((c, h.0, unfold frame_capsule in refl), tt)
      keep false = k

-- If every ordinal is past the end or that of a capsule which passes a test, then every returned
-- entry is the frame of a capsule of the segment that passes it, without notes: ranking and fusion
-- invent nothing. Nothing is returned only by a panic of a sort whose scores are unordered.
pub ranked_capsules-IsFramed :
    (p : Platform) (s : Segment p.F32) (probe : MemoryProbe p.F32)
    (test : MemoryCapsule p.F32 → Bool) (k : p.F64) (ordinals : List ℕ)
    → All (PassesTest p s probe test) ordinals
    → ReturnsOrPanics
        (ranked_capsules p k s probe ordinals)
        (All (IsFramed p s probe test))
        (IsUnordered p probe k (score_all p s probe ordinals))
ranked_capsules-IsFramed p s probe test k ordinals h =
    ranked_capsules-ReturnsOrPanics p (IsSource p s probe test) (All (IsFramed p s probe test)) k s
      probe ordinals (score_all-Scored p s probe test ordinals h)
      (λ ranked hs.
        spend-IsFramed p s probe test _ probe.max_tokens []
          (All-take (Scored p s probe test) probe.max_capsules ranked hs) tt)
