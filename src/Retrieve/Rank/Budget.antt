-- ===== src/Retrieve/Rank/Budget.antt =====
-- crates/l5m-core/src/retrieve.rs: the number of capsules and the token budget.
use l5m.Prelude.{
  ℕ, suc, ◌+◌, ◌-◌, ◌≤◌, ◌<◌, ◌≡◌, refl, ap, ◌||◌, inl, inr, ◌⊎◌, Bool, true, false, List, [], ◌∷◌,
  ◌++◌, leb, Bool-cases, if◌then◌else◌, length, take, length-append, length-take-le, All, arith,
}
use l5m.Platform.{Platform}
use l5m.Outcome.{ReturnsOrPanics}
use l5m.Retrieve.Rank.Ordered.{IsUnordered, ranked_capsules-ReturnsOrPanics}
use l5m.Capsule.{MemoryCapsule}
use l5m.Frame.{MemoryProbe, FrameCapsule}
use l5m.Segment.Query.{Segment}
use l5m.Retrieve.Rank.{
  approximate_tokens, frame_capsule, score_all, tokens_of, spend, ranked_capsules,
}

module _ {F : Type 0} where
  -- What the entries cost.
  abbrev pub frame_tokens : List (FrameCapsule F) → ℕ
  frame_tokens [] = 0
  frame_tokens (x ∷ xs) =
      approximate_tokens x.claim + approximate_tokens x.evidence + frame_tokens xs

  frame_tokens-append :
      (xs ys : List (FrameCapsule F)) → frame_tokens (xs ++ ys) ≡ frame_tokens xs + frame_tokens ys
  frame_tokens-append [] ys = omega arith
  frame_tokens-append (x ∷ xs) ys = omega (arith, frame_tokens-append xs ys)

module _ (p : Platform) where
  open p use {F32, F64}

  tokens-pos : (c : MemoryCapsule F32) → 0 < tokens_of p c
  unfolding tokens_of approximate_tokens
  tokens-pos c = omega arith

  frame_tokens-one :
      (c : MemoryCapsule F32) (score : F32)
      → frame_tokens (frame_capsule c score [] ∷ []) ≡ tokens_of p c
  unfolding tokens_of frame_capsule
  frame_tokens-one c score = omega arith

  -- Once something is taken, the rest fits the budget.
  spend_rest :
      (xs : List (MemoryCapsule F32 × F32)) (budget : ℕ) (taken : List (FrameCapsule F32))
      → 0 < length taken
      → frame_tokens (spend p budget xs taken) ≤ frame_tokens taken + budget
  unfolding spend
  spend_rest [] budget taken h = omega arith
  spend_rest ((c, score) ∷ xs) budget [] h = absurd (omega arith)
  spend_rest ((c, score) ∷ xs) budget (y ∷ ys) h = elim (Bool-cases (leb (tokens_of p c) budget)) [
    | inl fits ↦
        let entry = frame_capsule c score [] in
        let cost = frame_tokens-append (y ∷ ys) (entry ∷ []) in
        let one = frame_tokens-one c score in
        let rest = spend_rest xs (budget - tokens_of p c) (y ∷ ys ++ entry ∷ []) (omega arith) in
        rw fits (ground (arith, rest, cost, one, fits))
    | inr over ↦ rw over (spend_rest xs budget (y ∷ ys) h)
  ]

  spend_nothing :
      (xs : List (MemoryCapsule F32 × F32)) (y : FrameCapsule F32) (ys : List (FrameCapsule F32))
      → spend p 0 xs (y ∷ ys) ≡ y ∷ ys
  unfolding spend
  spend_nothing [] y ys = refl
  spend_nothing ((c, score) ∷ xs) y ys =
      let over : leb (tokens_of p c) 0 ≡ false = ground (arith, tokens-pos c) in
      rw over (spend_nothing xs y ys)

  spend_all :
      (xs : List (MemoryCapsule F32 × F32)) (budget : ℕ)
      → (frame_tokens (spend p budget xs []) ≤ budget) ⊎ (length (spend p budget xs []) ≡ 1)
  unfolding spend
  spend_all [] budget = inl (omega arith)
  spend_all ((c, score) ∷ xs) budget =
      let entry = frame_capsule c score [] in
      elim (Bool-cases (leb (tokens_of p c) budget)) [
        | inl fits ↦
            let rest = spend_rest xs (budget - tokens_of p c) (entry ∷ []) (omega arith) in
            inl (ground (arith, rest, frame_tokens-one c score, fits))
        | inr over ↦
            let spent : budget - tokens_of p c ≡ 0 = ground (arith, over) in
            inr (rw spent (ap length (spend_nothing xs entry [])))
      ]

  length-spend :
      (xs : List (MemoryCapsule F32 × F32)) (budget : ℕ) (taken : List (FrameCapsule F32))
      → length (spend p budget xs taken) ≤ length taken + length xs
  unfolding spend
  length-spend [] budget taken = omega arith
  length-spend ((c, score) ∷ xs) budget taken =
      let entry = frame_capsule c score [] in
      let grow = length-append taken (entry ∷ []) in
      keep (elim taken [ [] ↦ true | x ∷ xs' ↦ false ] || leb (tokens_of p c) budget)
        (omega (arith, grow, length-spend xs (budget - tokens_of p c) (taken ++ entry ∷ [])))
        (omega (arith, length-spend xs budget taken))
    where
      keep :
          (b : Bool)
          → length (spend p (budget - tokens_of p c) xs (taken ++ frame_capsule c score [] ∷ []))
            ≤ length taken + suc (length xs)
          → length (spend p budget xs taken) ≤ length taken + suc (length xs)
          → length (
              spend p
                (if b then budget - tokens_of p c else budget)
                xs
                (if b then taken ++ frame_capsule c score [] ∷ [] else taken))
            ≤ length taken + suc (length xs)
      keep true h k = h
      keep false h k = k

-- The numbers of capsules and of words keep to the limits of the probe.
abbrev pub IsLimited : {F : Type 0} → MemoryProbe F → List (FrameCapsule F) → Type 0
IsLimited probe capsules =
    (length capsules ≤ probe.max_capsules)
    × ((frame_tokens capsules ≤ probe.max_tokens) ⊎ (length capsules ≡ 1))

spend-IsLimited :
    (p : Platform) (probe : MemoryProbe p.F32) (ranked : List (MemoryCapsule p.F32 × p.F32))
    → IsLimited probe (spend p probe.max_tokens (take probe.max_capsules ranked) [])
spend-IsLimited p probe ranked =
    let best = take probe.max_capsules ranked in
    (
      omega (
        arith,
        length-spend p best probe.max_tokens [],
        length-take-le probe.max_capsules ranked,
      ),
      spend_all p best probe.max_tokens,
    )

All-scored : (p : Platform) (xs : List (MemoryCapsule p.F32 × p.F32)) → All (λ e. Unit {0}) xs
All-scored p [] = tt
All-scored p (x ∷ xs) = (tt, All-scored p xs)

-- At most `max_capsules` capsules are returned. Their claims and evidence have at most `max_tokens`
-- words by the program's count, unless there is only one capsule. Nothing is returned only by a
-- panic of a sort whose scores are unordered.
pub ranked_capsules-limits :
    (p : Platform) (k : p.F64) (s : Segment p.F32) (probe : MemoryProbe p.F32) (ordinals : List ℕ)
    → ReturnsOrPanics
        (ranked_capsules p k s probe ordinals)
        (IsLimited probe)
        (IsUnordered p probe k (score_all p s probe ordinals))
ranked_capsules-limits p k s probe ordinals =
    ranked_capsules-ReturnsOrPanics p (λ c. Unit) (IsLimited probe) k s probe ordinals
      (All-scored p (score_all p s probe ordinals)) (λ ranked h. spend-IsLimited p probe ranked)
