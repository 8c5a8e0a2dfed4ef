-- ===== src/Prelude/Map.antt =====
-- A `HashMap` with integer keys as an association list without repeated keys. The list keeps the
-- order of first insertion; the program's map has no order, and code that iterates over one takes
-- the order as a parameter.
use Prim.Native.Nat.{ℕ, suc}
use mathlib.Core.Path.{◌≡◌, refl, subst}
use mathlib.Core.Logic.{inl, inr}
use mathlib.Core.Option.{Option, none, some}
use mathlib.Core.List.{List, [], ◌∷◌, ◌++◌}
use native.Mathlib.Omega.{arith}
use l5m.Prelude.Tests.{◌==◌, if◌then◌else◌, Bool-cases}
use l5m.Prelude.Lists.{length, All}

abbrev pub Map {ℓ} : Type ℓ → Type ℓ
Map V = List (ℕ × V)

module _ {ℓ} {V : Type ℓ} where
  unfoldable pub get : ℕ → Map V → Option V
  get k [] = none
  get k ((j, v) ∷ m) = if j == k then some v else get k m

  unfoldable pub insert : ℕ → V → Map V → Map V
  insert k v [] = (k, v) ∷ []
  insert k v ((j, w) ∷ m) = if j == k then (k, v) ∷ m else (j, w) ∷ insert k v m

  unfoldable pub remove : ℕ → Map V → Map V
  remove k [] = []
  remove k ((j, w) ∷ m) = if j == k then remove k m else (j, w) ∷ remove k m

  pub get-insert :
      (k j : ℕ) (v : V) (m : Map V) → get j (insert k v m) ≡ (if k == j then some v else get j m)
  unfolding get insert
  get-insert k j v [] = refl
  get-insert k j v ((i, w) ∷ m) = ground (arith, get-insert k j v m)

  pub get-remove : (k j : ℕ) (m : Map V) → get j (remove k m) ≡ (if k == j then none else get j m)
  unfolding get remove
  get-remove k j [] = ground arith
  get-remove k j ((i, w) ∷ m) = ground (arith, get-remove k j m)

  -- A key that is there is overwritten, and any other adds an entry.
  pub length-insert :
      (k : ℕ) (v : V) (m : Map V)
      → length (insert k v m) ≡ elim (get k m) [ none ↦ suc (length m) | some _ ↦ length m ]
  unfolding get insert
  length-insert k v [] = refl
  length-insert k v ((j, w) ∷ m) = ground (arith, length-insert k v m)

-- `map.entry(k).or_default().push(x)`.
unfoldable pub push {ℓ} : {A : Type ℓ} → ℕ → A → Map (List A) → Map (List A)
push k x [] = (k, x ∷ []) ∷ []
push k x ((j, xs) ∷ m) = if j == k then (j, xs ++ x ∷ []) ∷ m else (j, xs) ∷ push k x m

-- The list at a key, empty if there is none.
abbrev pub or_empty {ℓ} : {A : Type ℓ} → Option (List A) → List A
or_empty none = []
or_empty (some xs) = xs

pub get-push {ℓ} :
    {A : Type ℓ} (k j : ℕ) (x : A) (m : Map (List A))
    → or_empty (get j (push k x m))
      ≡ (if k == j then or_empty (get j m) ++ x ∷ [] else or_empty (get j m))
unfolding get push
get-push k j x [] = ground arith
get-push k j x ((i, xs) ∷ m) = ground (arith, get-push k j x m)

-- Every value of the map has the property.
abbrev pub AllValues {ℓ κ} : {V : Type ℓ} → (V → Type κ) → Map V → Type κ
AllValues P m = All (λ e. P e.1) m

module _ {ℓ κ} {V : Type ℓ} (P : V → Type κ) where
  pub AllValues-insert :
      (k : ℕ) (v : V) (m : Map V) → P v → AllValues P m → AllValues P (insert k v m)
  unfolding insert
  AllValues-insert k v [] p h = (p, tt)
  AllValues-insert k v ((j, w) ∷ m) p h = elim (Bool-cases (j == k)) [
    | inl hit ↦ rw hit (p, h.1)
    | inr miss ↦ rw miss (h.0, AllValues-insert k v m p h.1)
  ]

  pub AllValues-get : (k : ℕ) (m : Map V) {v : V} → AllValues P m → get k m ≡ some v → P v
  unfolding get
  AllValues-get k [] h e = absurd (cc)
  AllValues-get k ((j, w) ∷ m) {v} h e = elim (Bool-cases (j == k)) [
    | inl hit ↦ subst P (ground (arith, hit, e)) h.0
    | inr miss ↦ AllValues-get k m h.1 (ground (arith, miss, e))
  ]
