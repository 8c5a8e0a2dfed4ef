-- ===== src/Prelude/Order.antt =====
-- Texts in the order of their bytes: sorted lists of them, sorting, and `dedup`.
use Prim.Native.Nat.{Ordering}
use mathlib.Core.Path.{◌≡◌, refl, sym, ap, ap₂, ◌∙◌, subst}
use mathlib.Core.Logic.{◌⊎◌, inl, inr}
use mathlib.Core.Bool.{false}
use mathlib.Core.List.{List, [], ◌∷◌}
use native.Mathlib.Omega.{arith}
use l5m.Prelude.Tests.{if◌then◌else◌, Bool-cases, ltb, ◌==◌}
use l5m.Prelude.Lists.{Bytes, bytes_eq, bytes_eq_refl, bytes_eq→eq, All, All-imp}
use l5m.Prelude.Sort.{insert_by, sort_by}
use l5m.Prelude.Text.{compare_bytes}

infix 50 ◌≺◌
abbrev pub ◌≺◌ : Bytes → Bytes → Type 0
x ≺ y = compare_bytes x y ≡ Ordering.lt

pub lt_trans : (x y z : Bytes) → x ≺ y → y ≺ z → x ≺ z
unfolding compare_bytes
lt_trans [] [] z h k = absurd (cc)
lt_trans [] (b ∷ y) [] h k = absurd (cc)
lt_trans [] (b ∷ y) (c ∷ z) h k = refl
lt_trans (a ∷ x) [] z h k = absurd (cc)
lt_trans (a ∷ x) (b ∷ y) [] h k = absurd (cc)
lt_trans (a ∷ x) (b ∷ y) (c ∷ z) h k = ground (arith, lt_trans x y z)

-- One text is before the other, or they are one.
pub compare_bytes-cases :
    (x y : Bytes)
    → (x ≺ y)
      ⊎ (((x ≡ y) × (compare_bytes x y ≡ Ordering.eq))
          ⊎ ((y ≺ x) × (compare_bytes x y ≡ Ordering.gt)))
unfolding compare_bytes
compare_bytes-cases [] [] = inr (inl (refl, refl))
compare_bytes-cases [] (b ∷ y) = inl refl
compare_bytes-cases (a ∷ x) [] = inr (inr (refl, refl))
compare_bytes-cases (a ∷ x) (b ∷ y) = elim (Bool-cases (ltb a b)) [
  | inl less ↦ inl (ground arith)
  | inr le ↦ elim (Bool-cases (a == b)) [
    | inr ne ↦ inr (inr (ground arith, ground arith))
    | inl same ↦
        let e : a ≡ b = ground arith in
        elim (compare_bytes-cases x y) [
          | inl h ↦ inl (ground arith)
          | inr (inl (h, k)) ↦ inr (inl (ap₂ (◌∷◌) e h, ground arith))
          | inr (inr (h, k)) ↦ inr (inr (ground arith, ground arith))
        ]
  ]
]

compare_bytes_refl : (x : Bytes) → compare_bytes x x ≡ Ordering.eq
unfolding compare_bytes
compare_bytes_refl [] = refl
compare_bytes_refl (a ∷ x) = ground (arith, compare_bytes_refl x)

lt-bytes_eq : (x y : Bytes) → x ≺ y → bytes_eq x y ≡ false
lt-bytes_eq x y h = elim (Bool-cases (bytes_eq x y)) [
  | inr e ↦ e
  | inl e ↦
      let less : x ≺ x = subst (λ w. x ≺ w) (sym (bytes_eq→eq x y e)) h in
      absurd (cc (compare_bytes_refl x))
]

-- In strictly ascending order.
abbrev pub IsSorted : List Bytes → Type 0
IsSorted [] = Unit
IsSorted (x ∷ xs) = All (λ y. x ≺ y) xs × IsSorted xs

-- `values.dedup()`.
unfoldable pub dedup_bytes : List Bytes → List Bytes
dedup_bytes [] = []
dedup_bytes (x ∷ []) = x ∷ []
dedup_bytes (x ∷ y ∷ ys) =
    let rest = dedup_bytes (y ∷ ys) in if bytes_eq x y then rest else x ∷ rest

-- `values.sort(); values.dedup();`.
unfoldable pub sort_dedup : List Bytes → List Bytes
unfolding sort_by dedup_bytes
sort_dedup values = dedup_bytes (sort_by compare_bytes values)

infix 50 ◌≼◌
abbrev ◌≼◌ : Bytes → Bytes → Type 0
x ≼ y = (x ≺ y) ⊎ (x ≡ y)

lt_le_trans : (x y z : Bytes) → x ≺ y → y ≼ z → x ≺ z
lt_le_trans x y z h (inl k) = lt_trans x y z h k
lt_le_trans x y z h (inr e) = subst (λ w. x ≺ w) e h

le_trans : (x y z : Bytes) → x ≼ y → y ≼ z → x ≼ z
le_trans x y z (inl h) k = inl (lt_le_trans x y z h k)
le_trans x y z (inr e) k = subst (λ w. w ≼ z) (sym e) k

IsAscending : List Bytes → Type 0
IsAscending [] = Unit
IsAscending (x ∷ xs) = All (λ y. x ≼ y) xs × IsAscending xs

insert_by-nil : (x : Bytes) → insert_by compare_bytes x [] ≡ x ∷ []
unfolding insert_by
insert_by-nil x = refl

insert_by-gt :
    (x y : Bytes) (ys : List Bytes)
    → compare_bytes x y ≡ Ordering.gt
    → insert_by compare_bytes x (y ∷ ys) ≡ y ∷ insert_by compare_bytes x ys
unfolding insert_by
insert_by-gt x y ys h = rw (h, insert_by) refl

insert_by-lt :
    (x y : Bytes) (ys : List Bytes) → x ≺ y → insert_by compare_bytes x (y ∷ ys) ≡ x ∷ y ∷ ys
unfolding insert_by
insert_by-lt x y ys h = rw (h, insert_by) refl

insert_by-eq :
    (x y : Bytes) (ys : List Bytes)
    → compare_bytes x y ≡ Ordering.eq
    → insert_by compare_bytes x (y ∷ ys) ≡ x ∷ y ∷ ys
unfolding insert_by
insert_by-eq x y ys h = rw (h, insert_by) refl

All-insert_by :
    (P : Bytes → Type 0) (x : Bytes) (ys : List Bytes)
    → P x
    → All P ys
    → All P (insert_by compare_bytes x ys)
All-insert_by P x [] p h = rw (insert_by-nil x) (p, tt)
All-insert_by P x (y ∷ ys) p h = elim (compare_bytes-cases x y) [
  | inl lt ↦ rw (insert_by-lt x y ys lt) (p, h)
  | inr (inl (e, eq)) ↦ rw (insert_by-eq x y ys eq) (p, h)
  | inr (inr (gt, g)) ↦ rw (insert_by-gt x y ys g) (h.0, All-insert_by P x ys p h.1)
]

pub All-sort : (P : Bytes → Type 0) (xs : List Bytes) → All P xs → All P (sort_by compare_bytes xs)
unfolding sort_by
All-sort P [] h = tt
All-sort P (x ∷ xs) h = All-insert_by P x (sort_by compare_bytes xs) h.0 (All-sort P xs h.1)

insert_by-IsAscending :
    (x : Bytes) (ys : List Bytes) → IsAscending ys → IsAscending (insert_by compare_bytes x ys)
unfolding IsAscending
insert_by-IsAscending x [] h = rw (insert_by-nil x) (tt, tt)
insert_by-IsAscending x (y ∷ ys) h = elim (compare_bytes-cases x y) [
  | inl lt ↦
      rw (insert_by-lt x y ys lt)
        ((inl lt, All-imp _ _ ys (λ z k. le_trans x y z (inl lt) k) h.0), h)
  | inr (inl (e, eq)) ↦
      rw (insert_by-eq x y ys eq) ((inr e, All-imp _ _ ys (λ z k. le_trans x y z (inr e) k) h.0), h)
  | inr (inr (gt, g)) ↦
      rw (insert_by-gt x y ys g)
        (All-insert_by (λ z. y ≼ z) x ys (inl gt) h.0, insert_by-IsAscending x ys h.1)
]

sort-IsAscending : (xs : List Bytes) → IsAscending (sort_by compare_bytes xs)
unfolding sort_by IsAscending
sort-IsAscending [] = tt
sort-IsAscending (x ∷ xs) = insert_by-IsAscending x (sort_by compare_bytes xs) (sort-IsAscending xs)

pub All-dedup : (P : Bytes → Type 0) (xs : List Bytes) → All P xs → All P (dedup_bytes xs)
unfolding dedup_bytes
All-dedup P [] h = tt
All-dedup P (x ∷ []) h = h
All-dedup P (x ∷ y ∷ ys) h = elim (Bool-cases (bytes_eq x y)) [
  | inl e ↦ rw e (All-dedup P (y ∷ ys) h.1)
  | inr e ↦ rw e (h.0, All-dedup P (y ∷ ys) h.1)
]

strict : (x y : Bytes) → x ≼ y → bytes_eq x y ≡ false → x ≺ y
strict x y (inl lt) ne = lt
strict x y (inr e) ne = absurd (cc (bytes_eq_refl x))

dedup-IsSorted : (xs : List Bytes) → IsAscending xs → IsSorted (dedup_bytes xs)
unfolding dedup_bytes IsAscending
dedup-IsSorted [] h = tt
dedup-IsSorted (x ∷ []) h = (tt, tt)
dedup-IsSorted (x ∷ y ∷ ys) h = elim (Bool-cases (bytes_eq x y)) [
  | inl e ↦ rw e (dedup-IsSorted (y ∷ ys) h.1)
  | inr e ↦ rw e (
    All-dedup (λ z. x ≺ z) (y ∷ ys)
        (
          strict x y h.0.0 e,
          All-imp _ _ ys (λ z k. lt_le_trans x y z (strict x y h.0.0 e) k) h.1.0,
        ),
    dedup-IsSorted (y ∷ ys) h.1,
  )
]

-- Sorting and removing repetitions leaves the texts in strictly ascending order.
pub sort_dedup-IsSorted : (xs : List Bytes) → IsSorted (sort_dedup xs)
unfolding sort_dedup
sort_dedup-IsSorted xs = dedup-IsSorted (sort_by compare_bytes xs) (sort-IsAscending xs)

insert_by-first :
    (x : Bytes) (ys : List Bytes) → All (λ y. x ≺ y) ys → insert_by compare_bytes x ys ≡ x ∷ ys
insert_by-first x [] h = insert_by-nil x
insert_by-first x (y ∷ ys) h = insert_by-lt x y ys h.0

sort-sorted : (xs : List Bytes) → IsSorted xs → sort_by compare_bytes xs ≡ xs
unfolding sort_by
sort-sorted [] h = refl
sort-sorted (x ∷ xs) h = rw (sort-sorted xs h.1) (insert_by-first x xs h.0)

dedup-sorted : (xs : List Bytes) → IsSorted xs → dedup_bytes xs ≡ xs
unfolding dedup_bytes
dedup-sorted [] h = refl
dedup-sorted (x ∷ []) h = refl
dedup-sorted (x ∷ y ∷ ys) h = rw (lt-bytes_eq x y h.0.0, dedup-sorted (y ∷ ys) h.1) refl

-- It changes nothing in a list that is in that order.
pub sort_dedup-sorted : (xs : List Bytes) → IsSorted xs → sort_dedup xs ≡ xs
unfolding sort_dedup
sort_dedup-sorted xs h = ap dedup_bytes (sort-sorted xs h) ∙ dedup-sorted xs h
