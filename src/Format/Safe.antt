-- ===== src/Format/Safe.antt =====
-- crates/l5m-core/src/segment.rs: the readers do not panic, and what they accept is in bounds.
use l5m.Prelude.{
  ℕ, ◌+◌, ◌^◌, ◌≤◌, ◌<◌, ◌≡◌, subst, refl, Bool, true, false, Option, none, some, Bytes, leb,
  leb→le, le→leb, ltb, length, from_le, if◌then◌else◌, arith, inl, inr, Bool-cases, take, drop,
  get_elem?-some,
}
use l5m.Outcome.{
  ok-injective, L5mError, out_of_bounds, Outcome, ok, err, panic, ◌>>=◌, nth, FormatError, format,
  out_of_section,
}
use l5m.Format.{
  checked, or_format, check, slice, checked_range, checked_range_with_limit, read_array,
  read_unsigned, read_signed,
}

ReturnsOrFails : {A : Type 0} → Outcome A → (A → Type 0) → Type 0
ReturnsOrFails (ok a) P = P a
ReturnsOrFails (err e) P = Unit
ReturnsOrFails panic P = ⊥

-- The call returns a value with the property, or an error.
pub record Safe {A : Type 0} (m : Outcome A) (P : A → Type 0) : Type 0 where
  outcome : ReturnsOrFails m P

-- The next part of a call may count on what the first has found.
pub Safe-bind :
    {A B : Type 0} {P : A → Type 0} {Q : B → Type 0} (m : Outcome A) (f : A → Outcome B)
    → Safe m P
    → ((a : A) → P a → Safe (f a) Q)
    → Safe (m >>= f) Q
unfolding ReturnsOrFails
Safe-bind (ok a) f p k = k a p.outcome
Safe-bind (err e) f p k = record { outcome = tt }
Safe-bind panic f p k = absurd p.outcome

pub Safe-ok : {A : Type 0} {P : A → Type 0} (a : A) → P a → Safe (ok a) P
unfolding ReturnsOrFails
Safe-ok a p = record { outcome = p }

pub Safe-err : {A : Type 0} {P : A → Type 0} (e : L5mError) → Safe (err e) P
unfolding ReturnsOrFails
Safe-err e = record { outcome = tt }

pub Safe-imp :
    {A : Type 0} {P Q : A → Type 0} {m : Outcome A} → Safe m P → ((a : A) → P a → Q a) → Safe m Q
unfolding ReturnsOrFails
Safe-imp {m = ok a} p k = record { outcome = k a p.outcome }
Safe-imp {m = err e} p k = record { outcome = tt }
Safe-imp {m = panic} p k = absurd p.outcome

pub check-Safe : (b : Bool) (e : FormatError) → Safe (check b e) (λ _. b ≡ true)
check-Safe true e = Safe-ok tt refl
check-Safe false e = Safe-err (format e)

pub or_format-Safe :
    {A : Type 0} (o : Option A) (e : FormatError) → Safe (or_format o e) (λ a. o ≡ some a)
or_format-Safe none e = Safe-err (format e)
or_format-Safe (some a) e = Safe-ok a refl

pub Safe-of_ok : {A : Type 0} {P : A → Type 0} {m : Outcome A} {a : A} → Safe m P → m ≡ ok a → P a
unfolding ReturnsOrFails
Safe-of_ok {P = P} {m = ok b} p e = subst P (ok-injective e) p.outcome
Safe-of_ok {m = err e'} p e = absurd (cc)
Safe-of_ok {m = panic} p e = absurd p.outcome

pub if-Safe :
    {A : Type 0} {P : A → Type 0} {m n : Outcome A} (b : Bool)
    → Safe m P
    → Safe n P
    → Safe (if b then m else n) P
if-Safe true p q = p
if-Safe false p q = q

-- A number that passes its check is that number.
pub checked-some : (n : ℕ) {m : ℕ} → checked n ≡ some m → n ≡ m
checked-some n h = ground arith

pub slice-Safe :
    (bytes : Bytes) (offset len : ℕ)
    → offset + len ≤ length bytes
    → Safe (slice bytes offset len) (λ s. s ≡ take len (drop offset bytes))
unfolding slice
slice-Safe bytes offset len h = rw (le→leb (offset + len) (length bytes) h) (Safe-ok _ refl)

pub nth-Safe : (bytes : Bytes) (i : ℕ) → i < length bytes → Safe (nth bytes i) (λ _. Unit {0})
nth-Safe bytes i h = let (b, e) = get_elem?-some bytes i h in rw e (Safe-ok b tt)

pub checked_range-Safe :
    (bytes : Bytes) (offset len : ℕ)
    → Safe (checked_range bytes offset len) (λ _. offset + len ≤ length bytes)
unfolding checked_range
checked_range-Safe bytes offset len = elim (Bool-cases (ltb (offset + len) (2 ^ 64))) [
  | inr e ↦ rw (e, checked_range) (Safe-err (format out_of_bounds))
  | inl e ↦ rw (e, checked_range) (in_range (leb (offset + len) (length bytes)) refl)
]
  where
    in_range :
        (b : Bool)
        → leb (offset + len) (length bytes) ≡ b
        → Safe (check b out_of_bounds) (λ _. offset + len ≤ length bytes)
    in_range true e = Safe-ok tt (leb→le _ _ e)
    in_range false e = Safe-err (format out_of_bounds)

pub read_array-Safe :
    (width : ℕ) (bytes : Bytes) (offset : ℕ)
    → Safe (read_array width bytes offset) (λ _. offset + width ≤ length bytes)
unfolding read_array
read_array-Safe width bytes offset =
    Safe-bind _ _ (checked_range-Safe bytes offset width)
      λ _ h. Safe-imp (slice-Safe bytes offset width h) λ _ _. h

-- No property beyond the absence of a panic.
abbrev pub Any : {A : Type 0} → A → Type 0
Any a = Unit

pub Safe-Any : {A : Type 0} {P : A → Type 0} {m : Outcome A} → Safe m P → Safe m Any
Safe-Any p = Safe-imp p λ _ _. tt

pub checked_range_with_limit-Safe :
    (offset len limit : ℕ) → Safe (checked_range_with_limit offset len limit) Any
unfolding checked_range_with_limit
checked_range_with_limit-Safe offset len limit = elim (Bool-cases (ltb (offset + len) (2 ^ 64))) [
  | inr e ↦ rw (e, checked_range_with_limit) (Safe-err (format out_of_section))
  | inl e ↦
      rw (e, checked_range_with_limit)
        (Safe-Any (check-Safe (leb (offset + len) limit) out_of_section))
]

pub read_unsigned-Safe :
    (width : ℕ) (bytes : Bytes) (offset : ℕ)
    → Safe (read_unsigned width bytes offset) (λ _. offset + width ≤ length bytes)
unfolding read_unsigned
read_unsigned-Safe width bytes offset =
    Safe-bind _ _ (read_array-Safe width bytes offset) λ bs h. Safe-ok (from_le bs) h

pub read_signed-Safe :
    (width : ℕ) (bytes : Bytes) (offset : ℕ) → Safe (read_signed width bytes offset) Any
unfolding read_signed
read_signed-Safe width bytes offset =
    Safe-bind _ _ (read_unsigned-Safe width bytes offset) λ n _. Safe-ok _ tt
