-- ===== src/Retrieve/Candidates/Total.antt =====
-- crates/l5m-core/src/retrieve.rs: calls that return, and the lookup loops on sets of one size.
use l5m.Prelude.{
  ℕ, ◌+◌, ◌<◌, ◌≡◌, refl, ap, ◌∙◌, Bool, true, false, List, [], ◌∷◌, if◌then◌else◌, All, arith,
}
use l5m.Outcome.{Outcome, ok, ◌>>=◌, or_panic, for_each}
use l5m.BitSet
use l5m.BitSet.{BitSet}
use l5m.BitSet.View.{holds, IsValid, get-holds}
use l5m.BitSet.Ops.{new_lem, set_lem}
use l5m.Retrieve.Gates.{set_if}
use l5m.Retrieve.Candidates.{get_bit, match_entity, match_anchor, match_bucket}

-- The call returns a value with the property.
abbrev pub Returns : {S : Type 0} → Outcome S → (S → Type 0) → Type 0
Returns {S} m P = (s : S) × (m ≡ ok s) × P s

-- A call that returns, and then another.
pub and_then :
    {A B : Type 0} (m : Outcome A) (f : A → Outcome B) (P : A → Type 0) (Q : B → Type 0)
    → Returns m P
    → ((a : A) → P a → Returns (f a) Q)
    → Returns (m >>= f) Q
and_then m f P Q (a, e, pa) k = let (b, e', qb) = k a pa in (b, ap (λ m'. m' >>= f) e ∙ e', qb)

-- A loop returns and keeps an invariant if its body does on the elements of the list.
pub for_each-Returns :
    {A S : Type 0} (body : A → S → Outcome S) (P : A → Type 0) (I : S → Type 0)
    → ((a : A) (s : S) → P a → I s → Returns (body a s) I)
    → (xs : List A) (s : S) → All P xs
    → I s
    → Returns (for_each body xs s) I
unfolding for_each
for_each-Returns body P I step [] s h i = (s, refl, i)
for_each-Returns body P I step (x ∷ xs) s h i =
    and_then (body x s) (for_each body xs) I I (step x s h.0 i)
      (λ s' i'. for_each-Returns body P I step xs s' h.1 i')

-- A well formed set of the size.
pub record IsSized (n : ℕ) (b : BitSet) : Type 0 where
  pub size_eq : b.size ≡ n
  pub valid : IsValid b

pub new-IsSized : (n : ℕ) → IsSized n (BitSet.new n)
unfolding BitSet.new
new-IsSized n = record { size_eq = refl; valid = (new_lem n).0 }

module _ (n : ℕ) where
  pub set_if-IsSized :
      (b : Bool) (x : BitSet) (i : ℕ) → i < n → IsSized n x → Returns (set_if b x i) (IsSized n)
  set_if-IsSized true x i lt h =
      let (x', e, size, valid', adds) = set_lem x i h.valid (omega (arith, lt, h.size_eq)) in
      (x', ap or_panic e, record { size_eq = size ∙ h.size_eq; valid = valid' })
  set_if-IsSized false x i lt h = (x, refl, h)

  pub get_bit_lem : (x : BitSet) (i : ℕ) → i < n → IsSized n x → get_bit x i ≡ ok (holds x i)
  unfolding get_bit
  get_bit_lem x i lt h = ap or_panic (get-holds x i (omega (arith, lt, h.size_eq)))

  module _ (cand : BitSet) (c : IsSized n cand) where
    pub match_entity-Returns :
        (i : ℕ) (s : BitSet × Bool)
        → i < n
        → IsSized n s.0
        → Returns (match_entity cand i s) (λ s'. IsSized n s'.0)
    unfolding match_entity
    match_entity-Returns i (x, matched) lt h =
        let (x', e, h') = set_if-IsSized (holds cand i) x i lt h in
        ((x', (if holds cand i then true else matched)), rw (get_bit_lem cand i lt c, e) refl, h')

    pub match_anchor-Returns :
        (i : ℕ) (s : BitSet × ℕ)
        → i < n
        → IsSized n s.0
        → Returns (match_anchor cand i s) (λ s'. IsSized n s'.0)
    unfolding match_anchor
    match_anchor-Returns i (x, count) lt h =
        let (x', e, h') = set_if-IsSized (holds cand i) x i lt h in
        (
          (x', (if holds cand i then count + 1 else count)),
          rw (get_bit_lem cand i lt c, e) refl,
          h',
        )

    pub match_bucket-Returns :
        (i : ℕ) (x : BitSet) → i < n → IsSized n x → Returns (match_bucket cand i x) (IsSized n)
    unfolding match_bucket
    match_bucket-Returns i x lt h =
        let (x', e, h') = set_if-IsSized (holds cand i) x i lt h in
        (x', rw (get_bit_lem cand i lt c) e, h')
