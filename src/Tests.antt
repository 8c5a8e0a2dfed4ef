-- ===== src/Tests.antt =====
-- Concrete data, and the theorems at it.
mod Audits
mod BitSets
mod Crypts
mod Disclosures
mod Files
mod Indexes
mod Probes
mod Products
mod Queries
mod Servers
mod Stores
mod Wals
use l5m.Prelude.{ℕ, ◌+◌, ◌-◌, ◌*◌, ◌/◌, true, false, none, some, List, [], ◌∷◌, compare}
use l5m.Prelude.Int.{pos}
use l5m.Sorting.Orders.{compare-IsOrder}
use l5m.Retrieve.Rank.Numbers.{IsIeee}
use l5m.Platform.{Platform}
use l5m.Capsule.{MemoryCapsule, RelationEdge, supersedes}
use l5m.Frame.{MemoryProbe}
use l5m.Segment.Query.{Segment}
use l5m.Index.Build.{build}

abbrev sum : List ℕ → ℕ
sum [] = 0
sum (x ∷ xs) = x + sum xs

-- Floats that are numbers, and a hash that is the text.
abbrev pub platform : Platform
platform = record {
  F32 = ℕ;
  F64 = ℕ;
  decimal = λ m e. m;
  of_nat = λ n. n;
  of_int = λ i. 0;
  add = λ a b. a + b;
  sub = λ a b. a - b;
  mul = λ a b. a * b;
  div = λ a b. a / b;
  sqrt = λ a. a;
  sum = sum;
  compare = λ a b. some (compare a b);
  of_nat64 = λ n. n;
  add64 = λ a b. a + b;
  div64 = λ a b. a / b;
  narrow = λ a. a;
  from_bits = λ n. n;
  to_bits = λ n. n;
  is_finite = λ n. true;
  unordered = λ element comparisons. none;
  blake3 = λ text. text;
}

abbrev pub note : ℕ → ℕ → List RelationEdge → MemoryCapsule ℕ
note id tenant edges = record {
  capsule_id = id;
  tenant_id = tenant;
  claim = 97 ∷ [];
  evidence = 98 ∷ [];
  source_id = 1;
  source_uri = none;
  source_hash = [];
  semantic_bits = 0 ∷ 0 ∷ 0 ∷ 0 ∷ [];
  residual = [];
  embedding = [];
  anchors = (97 ∷ []) ∷ [];
  entities = [];
  valid_from = pos 0;
  valid_until = none;
  observed_at = pos 0;
  last_verified_at = pos 0;
  context_mask = 1;
  policy_mask = 1;
  trust_level = 5;
  classification = 0;
  poison_risk = 0;
  relation_edges = edges;
  content_hash = [];
}

abbrev pub old_note : MemoryCapsule ℕ
old_note = note 11 7 []

abbrev pub replaces_old : RelationEdge
replaces_old = record { from = 12; to = 11; kind = supersedes; weight = pos 1 }

-- The second capsule supersedes the first, and the third is another tenant's.
abbrev pub new_note : MemoryCapsule ℕ
new_note = note 12 7 (replaces_old ∷ [])

abbrev pub foreign_note : MemoryCapsule ℕ
foreign_note = note 13 8 []

abbrev pub capsules : List (MemoryCapsule ℕ)
capsules = old_note ∷ new_note ∷ foreign_note ∷ []

abbrev pub segment : Segment ℕ
segment = record { epoch = 1; tenant_id = 7; capsules = capsules; index = build platform capsules }

abbrev pub probe : MemoryProbe ℕ
probe = record {
  query_text = 97 ∷ [];
  tenant_id = 7;
  as_of = pos 10;
  context_mask = 1;
  caller_policy_mask = 1;
  trust_floor = 2;
  semantic_bits = 0 ∷ 0 ∷ 0 ∷ 0 ∷ [];
  residual = [];
  embedding = [];
  anchors = (97 ∷ []) ∷ [];
  entities = [];
  include_supporting = true;
  include_contradictions = true;
  max_hops = 1;
  max_capsules = 3;
  max_tokens = 10;
}

pub platform-IsIeee : IsIeee platform
platform-IsIeee = record {
  opposite = λ x y n m. compare-IsOrder.opposite x y tt tt;
  goes = λ x y z n m l. compare-IsOrder.goes x y z tt tt tt;
}
