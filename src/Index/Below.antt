-- ===== src/Index/Below.antt =====
-- crates/l5m-core/src/index.rs: posting lists all of whose ordinals are below a bound.
use l5m.Prelude.{ℕ, ◌<◌, inl, inr, List, [], ◌∷◌, ◌==◌, All, All-append, dedup, Bool-cases}
use l5m.Prelude.Map
use l5m.Prelude.Map.{Map}

module _ (n : ℕ) where
  abbrev pub Below : List ℕ → Type 0
  Below = All (λ o. o < n)

  abbrev pub MapBelow : Map (List ℕ) → Type 0
  MapBelow = All (λ e. Below e.1)

  pub push-Below : (k o : ℕ) (m : Map (List ℕ)) → o < n → MapBelow m → MapBelow (Map.push k o m)
  unfolding Map.push
  push-Below k o [] lt h = ((lt, tt), tt)
  push-Below k o ((j, xs) ∷ m) lt h = elim (Bool-cases (j == k)) [
    | inl hit ↦ rw hit (All-append (λ i. i < n) xs (o ∷ []) h.0 (lt, tt), h.1)
    | inr miss ↦ rw miss (h.0, push-Below k o m lt h.1)
  ]

  pub get-Below : (k : ℕ) (m : Map (List ℕ)) → MapBelow m → Below (Map.or_empty (Map.get k m))
  unfolding Map.get
  get-Below k [] h = tt
  get-Below k ((j, xs) ∷ m) h = elim (Bool-cases (j == k)) [
    | inl hit ↦ rw hit h.0
    | inr miss ↦ rw miss (get-Below k m h.1)
  ]

  pub dedup-Below : (xs : List ℕ) → Below xs → Below (dedup xs)
  dedup-Below [] h = tt
  dedup-Below (x ∷ []) h = h
  dedup-Below (x ∷ y ∷ ys) h = elim (Bool-cases (x == y)) [
    | inl same ↦ rw same (dedup-Below (y ∷ ys) h.1)
    | inr other ↦ rw other (h.0, dedup-Below (y ∷ ys) h.1)
  ]
