-- ===== src/Platform.antt =====
-- What the program takes from outside its sources: IEEE floats, whose values the model leaves
-- abstract, and the BLAKE3 hash of the blake3 crate.
use l5m.Prelude.{ℕ, Bool, Option, Ordering, List, Bytes}
use l5m.Prelude.Int.{ℤ}

-- What the code sorts by scores: positions in a list, scored capsules, and entries of a frame.
pub data Element : Type 0 where
  position scored_capsule frame_entry : Element

pub record Platform : Type 1 where
  pub F32 : Type 0
  pub F64 : Type 0
  -- `decimal m e` is the literal m / 10 ^ e; `of_nat`, `of_int` are `as f32` and `as f64`.
  pub decimal : ℕ → ℕ → F32
  pub of_nat : ℕ → F32
  pub of_int : ℤ → F32
  pub add : F32 → F32 → F32
  pub sub : F32 → F32 → F32
  pub mul : F32 → F32 → F32
  pub div : F32 → F32 → F32
  pub sqrt : F32 → F32
  pub sum : List F32 → F32
  -- `partial_cmp`.
  pub compare : F32 → F32 → Option Ordering
  pub of_nat64 : ℕ → F64
  pub add64 : F64 → F64 → F64
  pub div64 : F64 → F64 → F64
  pub narrow : F64 → F32
  -- `from_le_bytes` and `to_le_bytes`, as the number that the bytes are.
  pub from_bits : ℕ → F32
  pub to_bits : F32 → ℕ
  pub is_finite : F32 → Bool
  -- What `sort_by` does where the comparison is no total order, which may depend on the type of the
  -- elements and on all the comparisons: it panics, or leaves the elements in some order, which is
  -- given by swaps of neighbours.
  pub unordered : Element → List (List Ordering) → Option (List ℕ)
  pub blake3 : Bytes → Bytes
