-- ===== src/Outcome.antt =====
-- crates/l5m-core/src/error.rs, and how a call can end: it returns, returns an error, or panics (a
-- failed `assert!`, an index out of bounds).
use l5m.Prelude.{ℕ, ◌≡◌, refl, Option, none, some, List, [], ◌∷◌, ◌++◌, get_elem?}

-- The messages of `L5mError::Format`, by what they complain of.
pub data FormatError : Type 0 where
  too_short bad_magic bad_version bad_header_len hash_mismatch duplicate_ids : FormatError
  overflow bad_sections out_of_bounds out_of_section bad_index_marker bad_index_count : FormatError
  content_hash_mismatch source_hash_mismatch bad_relation_source bad_relation_kind : FormatError
  bad_utf8 truncated_list trailing_list_bytes inconsistent_embedding bad_u128 : FormatError
  key_not_set bad_key_length bad_hex no_nonce not_encrypted not_sealed not_decrypted : FormatError
  chain_broken record_modified unparseable bad_product_line : ℕ → FormatError

-- The payloads of `Io` and `Json` are values of other libraries, and nothing reads them.
pub data L5mError : Type 0 where
  io json : L5mError
  format : FormatError → L5mError

pub data Outcome {ℓ} (A : Type ℓ) : Type ℓ where
  ok : A → Outcome A
  err : L5mError → Outcome A
  panic : Outcome A

-- `?` and `;`.
infixl 5 ◌>>=◌ ◌>>◌
abbrev pub ◌>>=◌ {ℓ κ} : {A : Type ℓ} {B : Type κ} → Outcome A → (A → Outcome B) → Outcome B
ok a >>= f = f a
err e >>= f = err e
panic >>= f = panic

abbrev pub ◌>>◌ {ℓ} : {B : Type ℓ} → Outcome (Unit {0}) → Outcome B → Outcome B
m >> k = m >>= λ _. k

abbrev pub or_panic {ℓ} : {A : Type ℓ} → Option A → Outcome A
or_panic none = panic
or_panic (some a) = ok a

-- `v[i]`.
abbrev pub nth {ℓ} : {A : Type ℓ} → List A → ℕ → Outcome A
nth xs i = or_panic (get_elem? xs i)

-- `for x in xs`, over the variables that the body assigns.
unfoldable pub for_each {ℓ κ} :
    {A : Type ℓ} {S : Type κ} → (A → S → Outcome S) → List A → S → Outcome S
for_each body [] s = ok s
for_each body (x ∷ xs) s = body x s >>= for_each body xs

OutcomeType : {A : Type 0} → Outcome A → (A → Type 0) → Type 0 → Type 0
OutcomeType (ok a) P Q = P a
OutcomeType (err e) P Q = ⊥
OutcomeType panic P Q = Q

-- The call returns a value with the property `P`, or it panics and `Q` holds.
pub record ReturnsOrPanics {A : Type 0} (m : Outcome A) (P : A → Type 0) (Q : Type 0) : Type 0 where
  outcome : OutcomeType m P Q

pub ReturnsOrPanics-ok :
    {A : Type 0} {P : A → Type 0} {Q : Type 0} (a : A) → P a → ReturnsOrPanics (ok a) P Q
unfolding OutcomeType
ReturnsOrPanics-ok a h = record { outcome = h }

pub ReturnsOrPanics-panic :
    {A : Type 0} {P : A → Type 0} {Q : Type 0} → Q → ReturnsOrPanics panic P Q
unfolding OutcomeType
ReturnsOrPanics-panic h = record { outcome = h }

-- The next part of a call may count on what the first has found.
pub ReturnsOrPanics-bind :
    {A B : Type 0} {P : A → Type 0} {R : B → Type 0} {Q : Type 0} (m : Outcome A)
    (f : A → Outcome B)
    → ReturnsOrPanics m P Q
    → ((a : A) → m ≡ ok a → P a → ReturnsOrPanics (f a) R Q)
    → ReturnsOrPanics (m >>= f) R Q
unfolding OutcomeType
ReturnsOrPanics-bind (ok a) f h k = k a refl h.outcome
ReturnsOrPanics-bind (err e) f h k = absurd h.outcome
ReturnsOrPanics-bind panic f h k = record { outcome = h.outcome }

pub ReturnsOrPanics-imp :
    {A : Type 0} {P R : A → Type 0} {Q S : Type 0} {m : Outcome A}
    → ReturnsOrPanics m P Q
    → ((a : A) → P a → R a)
    → (Q → S)
    → ReturnsOrPanics m R S
unfolding OutcomeType
ReturnsOrPanics-imp {m = ok a} h f g = record { outcome = f a h.outcome }
ReturnsOrPanics-imp {m = err e} h f g = absurd h.outcome
ReturnsOrPanics-imp {m = panic} h f g = record { outcome = g h.outcome }

pub ReturnsOrPanics-both :
    {A : Type 0} {P R : A → Type 0} {Q : Type 0} {m : Outcome A}
    → ReturnsOrPanics m P Q
    → ReturnsOrPanics m R Q
    → ReturnsOrPanics m (λ a. P a × R a) Q
unfolding OutcomeType
ReturnsOrPanics-both {m = ok a} h k = record { outcome = (h.outcome, k.outcome) }
ReturnsOrPanics-both {m = err e} h k = absurd h.outcome
ReturnsOrPanics-both {m = panic} h k = record { outcome = h.outcome }

pub ok-injective {ℓ} : {A : Type ℓ} {a b : A} → ok a ≡ ok b → a ≡ b
ok-injective h = cc

-- What has returned has first returned its first part.
pub bind-ok {ℓ κ} :
    {A : Type ℓ} {B : Type κ} (m : Outcome A) (f : A → Outcome B) {b : B}
    → (m >>= f) ≡ ok b
    → (a : A) × (m ≡ ok a) × (f a ≡ ok b)
bind-ok (ok a) f h = (a, refl, h)
bind-ok (err e) f h = absurd (cc)
bind-ok panic f h = absurd (cc)

pub for_each-append {ℓ κ} :
    {A : Type ℓ} {S : Type κ} (body : A → S → Outcome S) (xs ys : List A) (s : S)
    → for_each body (xs ++ ys) s ≡ (for_each body xs s >>= for_each body ys)
unfolding for_each
for_each-append body [] ys s = refl
for_each-append body (x ∷ xs) ys s =
    elim (body x s)
      as (λ m. (m >>= for_each body (xs ++ ys)) ≡ (m >>= for_each body xs >>= for_each body ys)) [
        | ok s' ↦ for_each-append body xs ys s'
        | err e ↦ refl
        | panic ↦ refl
      ]
