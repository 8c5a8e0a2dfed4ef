-- ===== src/Index/Lsh.antt =====
-- crates/l5m-core/src/index.rs: the two locality-sensitive hash indexes. A visit calls back for
-- each candidate, so it is the list of the candidates.
pub mod Postings
use l5m.Prelude.{
  ℕ, zero, suc, ◌+◌, ◌*◌, ◌/◌, ◌%◌, ◌^◌, bit_or, bit_xor, Ordering, Bool, true, false, Option, none,
  some, List, [], ◌∷◌, ◌++◌, ◌==◌, if◌then◌else◌, length, get_or, replicate,
}
use l5m.Prelude.Map
use l5m.Prelude.Map.{Map}
use l5m.Platform.{Platform}

pub record SemanticLsh : Type 0 where
  pub tables : List (Map (List ℕ))

abbrev lsh_bands : ℕ
lsh_bands = 16

-- A 16-bit slice of a 256-bit fingerprint.
pub band_key : List ℕ → ℕ → ℕ
band_key bits band = get_or bits (band / 4) 0 / 2 ^ (16 * (band % 4)) % 2 ^ 16

-- One capsule into every table, the first of which is that of `band`.
pub add_to_tables : (ℕ → ℕ) → ℕ → ℕ → List (Map (List ℕ)) → List (Map (List ℕ))
add_to_tables key ordinal band [] = []
add_to_tables key ordinal band (t ∷ ts) =
    Map.push (key band) (ordinal % 2 ^ 32) t ∷ add_to_tables key ordinal (band + 1) ts

pub add_fingerprints : ℕ → List (List ℕ) → List (Map (List ℕ)) → List (Map (List ℕ))
unfolding add_to_tables band_key
add_fingerprints ordinal [] ts = ts
add_fingerprints ordinal (bits ∷ rest) ts =
    add_fingerprints (ordinal + 1) rest (add_to_tables (band_key bits) ordinal 0 ts)

unfoldable pub build_semantic : List (List ℕ) → SemanticLsh
unfolding add_fingerprints
build_semantic fingerprints = record {
  tables = add_fingerprints 0 fingerprints (replicate lsh_bands []);
}

-- The postings of one key in each table, in the order of the tables.
unfoldable pub visit_tables : (ℕ → ℕ) → ℕ → List (Map (List ℕ)) → List ℕ
visit_tables key band [] = []
visit_tables key band (t ∷ ts) =
    Map.or_empty (Map.get (key band) t) ++ visit_tables key (band + 1) ts

unfoldable pub semantic_candidates : SemanticLsh → List ℕ → List ℕ
unfolding visit_tables band_key
semantic_candidates lsh bits = visit_tables (band_key bits) 0 lsh.tables

pub record EmbeddingLsh (F : Type 0) : Type 0 where
  pub dim : ℕ
  pub hyperplanes : List (List F)
  pub tables : List (Map (List ℕ))

abbrev sig_bands : ℕ
sig_bands = 4

-- The new state, and the number drawn.
splitmix64 : ℕ → ℕ × ℕ
splitmix64 state =
    let s = (state + 0x9E3779B97F4A7C15) % 2 ^ 64 in
    let z = (bit_xor s (s / 2 ^ 30) * 0xBF58476D1CE4E5B9) % 2 ^ 64 in
    let y = (bit_xor z (z / 2 ^ 27) * 0x94D049BB133111EB) % 2 ^ 64 in (s, bit_xor y (y / 2 ^ 31))

module _ (p : Platform) where
  open p use {F32, decimal, sum, mul}

  -- One hyperplane of `n` signs, and the state of the generator after it.
  signs : ℕ → ℕ → ℕ × List F32
  unfolding splitmix64
  signs zero state = (state, [])
  signs (suc n) state =
      let (s, r) = splitmix64 state in
      let (s', rest) = signs n s in
      (s', (if r % 2 == 0 then decimal 1 0 else p.sub (decimal 0 0) (decimal 1 0)) ∷ rest)

  hyperplanes : ℕ → ℕ → ℕ → List (List F32)
  unfolding signs
  hyperplanes zero dim state = []
  hyperplanes (suc n) dim state = let (s, plane) = signs dim state in plane ∷ hyperplanes n dim s

  products : List F32 → List F32 → List F32
  products [] bs = []
  products (a ∷ as') [] = []
  products (a ∷ as') (b ∷ bs) = mul a b ∷ products as' bs

  -- `x >= 0.0`.
  at_least_zero : F32 → Bool
  at_least_zero x = elim (p.compare x (decimal 0 0)) [
    | none ↦ false
    | some o ↦ elim o [ Ordering.lt ↦ false | _ ↦ true ]
  ]

  -- Bit `i` is the side of hyperplane `i` on which the embedding lies.
  signature_from : ℕ → List F32 → List (List F32) → ℕ → ℕ
  unfolding products at_least_zero
  signature_from i emb [] sig = sig
  signature_from i emb (plane ∷ planes) sig =
      signature_from (i + 1) emb planes
        (if at_least_zero (sum (products emb plane)) then bit_or sig (2 ^ i) else sig)

  signature : List F32 → List (List F32) → ℕ
  unfolding signature_from
  signature emb planes = signature_from 0 emb planes 0

  pub signature_key : ℕ → ℕ → ℕ
  signature_key sig band = sig / 2 ^ (16 * band) % 2 ^ 16

  pub add_embeddings :
      ℕ → List (List F32) → ℕ → List (List F32) → List (Map (List ℕ)) → List (Map (List ℕ))
  unfolding add_to_tables signature signature_key
  add_embeddings dim planes ordinal [] ts = ts
  add_embeddings dim planes ordinal (emb ∷ rest) ts = add_embeddings dim planes (ordinal + 1) rest (
      if length emb == dim
      then add_to_tables (signature_key (signature emb planes)) ordinal 0 ts
      else ts)

  -- The dimension of the first embedding that is not empty.
  first_dim : List (List F32) → Option ℕ
  first_dim [] = none
  first_dim ([] ∷ rest) = first_dim rest
  first_dim ((x ∷ xs) ∷ rest) = some (length (x ∷ xs))

  unfoldable pub build_embedding : List (List F32) → Option (EmbeddingLsh F32)
  unfolding first_dim hyperplanes add_embeddings
  build_embedding embeddings = elim (first_dim embeddings) [
    | none ↦ none
    | some dim ↦
        let planes = hyperplanes (sig_bands * 16) dim 0x123456789abcdef0 in
        some (record {
          dim = dim;
          hyperplanes = planes;
          tables = add_embeddings dim planes 0 embeddings (replicate sig_bands []);
        })
  ]

  unfoldable pub embedding_candidates : EmbeddingLsh F32 → List F32 → List ℕ
  unfolding visit_tables signature signature_key
  embedding_candidates lsh query =
      if length query == lsh.dim
      then visit_tables (signature_key (signature query lsh.hyperplanes)) 0 lsh.tables
      else []
