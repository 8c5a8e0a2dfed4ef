-- ===== src/Sorting/Orders.antt =====
-- Comparisons that are total orders, and so sort without a panic.
use l5m.Prelude.{
  ℕ, ◌+◌, ◌≤◌, ◌≡◌, ◌≢◌, refl, Bool, true, false, ◌&&◌, compare, Ordering, List, [], ◌∷◌, all, All,
  Bool-cases, inl, inr, arith,
}
use l5m.Prelude.Int.{pos_part, neg_part, compare_ℤ}
use l5m.Prelude.Sort.{then_with}
use l5m.Sorting.{not_after, are_opposite, goes_on, is_total_order}

true_ne : false ≢ true
true_ne h = cc

-- On the elements with the property, the comparison is a total order up to ties.
pub record IsOrder {A : Type 0} (N : A → Type 0) (cmp : A → A → Ordering) : Type 0 where
  pub opposite : (x y : A) → N x → N y → are_opposite (cmp x y) (cmp y x) ≡ true
  pub goes :
      (x y z : A)
      → N x
      → N y
      → N z
      → not_after (cmp x y) ≡ true
      → not_after (cmp y z) ≡ true
      → not_after (cmp x z) ≡ true

-- The same order from the greatest.
pub IsOrder-flip :
    {A : Type 0} {N : A → Type 0} {cmp : A → A → Ordering}
    → IsOrder N cmp
    → IsOrder N (λ x y. cmp y x)
IsOrder-flip o = record {
  opposite = λ x y n m. o.opposite y x m n;
  goes = λ x y z n m l h k. o.goes z y x l m n k h;
}

-- The order of a part of the elements.
pub IsOrder-on :
    {A B : Type 0} {N : B → Type 0} {cmp : B → B → Ordering} (f : A → B)
    → IsOrder N cmp
    → IsOrder (λ a. N (f a)) (λ a b. cmp (f a) (f b))
IsOrder-on f o = record {
  opposite = λ x y. o.opposite (f x) (f y);
  goes = λ x y z. o.goes (f x) (f y) (f z);
}

opposite-then_with :
    (a a' b b' : Ordering)
    → are_opposite a a' ≡ true
    → are_opposite b b' ≡ true
    → are_opposite (then_with a b) (then_with a' b') ≡ true
unfolding are_opposite
opposite-then_with Ordering.lt a' b b' h k = ground arith
opposite-then_with Ordering.eq a' b b' h k = ground arith
opposite-then_with Ordering.gt a' b b' h k = ground arith

reverse : Ordering → Ordering
reverse Ordering.lt = Ordering.gt
reverse Ordering.eq = Ordering.eq
reverse Ordering.gt = Ordering.lt

opposite-reverse : (a b : Ordering) → are_opposite a b ≡ true → b ≡ reverse a
unfolding are_opposite reverse
opposite-reverse Ordering.lt b h = ground arith
opposite-reverse Ordering.eq b h = ground arith
opposite-reverse Ordering.gt b h = ground arith

-- `a`, `b`, `c` compare `x` with `y`, `y` with `z` and `x` with `z`; `d`, `e`, `f` break the ties.
goes-then_with :
    (a b c d e f : Ordering)
    → (not_after a ≡ true → not_after b ≡ true → not_after c ≡ true)
    → (not_after b ≡ true → not_after (reverse c) ≡ true → not_after (reverse a) ≡ true)
    → (not_after (reverse c) ≡ true → not_after a ≡ true → not_after (reverse b) ≡ true)
    → (not_after d ≡ true → not_after e ≡ true → not_after f ≡ true)
    → not_after (then_with a d) ≡ true
    → not_after (then_with b e) ≡ true
    → not_after (then_with c f) ≡ true
unfolding not_after reverse
goes-then_with a b Ordering.lt d e f abc bca cab def h k = refl
goes-then_with Ordering.eq Ordering.eq Ordering.eq d e f abc bca cab def h k = def h k
goes-then_with Ordering.lt Ordering.lt Ordering.eq d e f abc bca cab def h k =
    absurd (true_ne (bca refl refl))
goes-then_with Ordering.lt Ordering.eq Ordering.eq d e f abc bca cab def h k =
    absurd (true_ne (bca refl refl))
goes-then_with Ordering.eq Ordering.lt Ordering.eq d e f abc bca cab def h k =
    absurd (true_ne (cab refl refl))
goes-then_with Ordering.gt b Ordering.eq d e f abc bca cab def h k = absurd (true_ne h)
goes-then_with Ordering.lt Ordering.gt Ordering.eq d e f abc bca cab def h k = absurd (true_ne k)
goes-then_with Ordering.eq Ordering.gt Ordering.eq d e f abc bca cab def h k = absurd (true_ne k)
goes-then_with Ordering.gt b Ordering.gt d e f abc bca cab def h k = absurd (true_ne h)
goes-then_with Ordering.lt Ordering.gt Ordering.gt d e f abc bca cab def h k = absurd (true_ne k)
goes-then_with Ordering.eq Ordering.gt Ordering.gt d e f abc bca cab def h k = absurd (true_ne k)
goes-then_with Ordering.lt Ordering.lt Ordering.gt d e f abc bca cab def h k =
    absurd (true_ne (abc refl refl))
goes-then_with Ordering.lt Ordering.eq Ordering.gt d e f abc bca cab def h k =
    absurd (true_ne (abc refl refl))
goes-then_with Ordering.eq Ordering.lt Ordering.gt d e f abc bca cab def h k =
    absurd (true_ne (abc refl refl))
goes-then_with Ordering.eq Ordering.eq Ordering.gt d e f abc bca cab def h k =
    absurd (true_ne (abc refl refl))

-- Ties of one order broken by another.
pub IsOrder-then_with :
    {A : Type 0} {N M : A → Type 0} {cmp tie : A → A → Ordering}
    → IsOrder N cmp
    → IsOrder M tie
    → IsOrder (λ a. N a × M a) (λ x y. then_with (cmp x y) (tie x y))
IsOrder-then_with {cmp = cmp} {tie = tie} o t = record {
  opposite =
      λ x y n m. opposite-then_with _ _ _ _ (o.opposite x y n.0 m.0) (t.opposite x y n.1 m.1);
  goes = λ x y z n m l.
      let yx = opposite-reverse (cmp x y) (cmp y x) (o.opposite x y n.0 m.0) in
      let zy = opposite-reverse (cmp y z) (cmp z y) (o.opposite y z m.0 l.0) in
      let zx = opposite-reverse (cmp x z) (cmp z x) (o.opposite x z n.0 l.0) in
      goes-then_with (cmp x y) (cmp y z) (cmp x z) (tie x y) (tie y z) (tie x z)
        (o.goes x y z n.0 m.0 l.0) (rw (← yx, ← zx) (o.goes y z x m.0 l.0 n.0))
        (rw (← zy, ← zx) (o.goes z x y l.0 n.0 m.0)) (t.goes x y z n.1 m.1 l.1);
}

all-intro :
    {A : Type 0} (N : A → Type 0) (test : A → Bool) (xs : List A)
    → All N xs
    → ((x : A) → N x → test x ≡ true)
    → all test xs ≡ true
all-intro N test [] h k = refl
all-intro N test (x ∷ xs) h k = ground (arith, k x h.0, all-intro N test xs h.1 k)

goes_on-intro :
    {A : Type 0} {N : A → Type 0} {cmp : A → A → Ordering} (x y z : A)
    → IsOrder N cmp
    → N x
    → N y
    → N z
    → goes_on cmp x y z ≡ true
unfolding goes_on
goes_on-intro {cmp = cmp} x y z o n m l =
    elim (Bool-cases (not_after (cmp x y) && not_after (cmp y z))) [
      | inl both ↦ rw both (o.goes x y z n m l (ground (arith, both)) (ground (arith, both)))
      | inr other ↦ rw other refl
    ]

-- Elements in such an order pass the test of `std_sort_by`.
pub is_total_order-of_IsOrder :
    {A : Type 0} {N : A → Type 0} {cmp : A → A → Ordering} (xs : List A)
    → IsOrder N cmp
    → All N xs
    → is_total_order cmp xs ≡ true
unfolding is_total_order
is_total_order-of_IsOrder {N = N} {cmp = cmp} xs o h = all-intro N _ xs h (λ x n.
    all-intro N _ xs h (λ y m. ground (
      arith,
      o.opposite x y n m,
      all-intro N (goes_on cmp x y) xs h (λ z l. goes_on-intro x y z o n m l),
    )))

abbrev pub Any : {A : Type 0} → A → Type 0
Any a = Unit

pub compare-IsOrder : IsOrder Any (λ (a b : ℕ). compare a b)
unfolding are_opposite not_after
compare-IsOrder = record {
  opposite = λ x y n m. ground arith;
  goes = λ x y z n m l h k. ground (arith, h, k);
}

not_after-compare : (a b : ℕ) → a ≤ b → not_after (compare a b) ≡ true
unfolding not_after
not_after-compare a b h = ground (arith, h)

compare-not_after : (a b : ℕ) → not_after (compare a b) ≡ true → a ≤ b
unfolding not_after
compare-not_after a b h = ground (arith, h)

pub compare_ℤ-IsOrder : IsOrder Any compare_ℤ
unfolding are_opposite not_after
compare_ℤ-IsOrder = record {
  opposite =
      λ x y n m. compare-IsOrder.opposite (pos_part x + neg_part y) (pos_part y + neg_part x) tt tt;
  goes = λ x y z n m l h k.
      not_after-compare (pos_part x + neg_part z) (pos_part z + neg_part x)
        (omega (arith, compare-not_after _ _ h, compare-not_after _ _ k));
}
