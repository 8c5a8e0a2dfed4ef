-- ===== src/Index/Lsh/Postings.antt =====
-- crates/l5m-core/src/index.rs: the range of the ordinals in the hash indexes.
use l5m.Prelude.{
  ℕ, zero, suc, ◌+◌, ◌*◌, ◌%◌, ◌^◌, ◌≤◌, ◌<◌, inl, inr, Bool, true, false, none, some, Option, List,
  [], ◌∷◌, ◌==◌, if◌then◌else◌, length, replicate, All, All-append, Bool-cases, arith,
}
use l5m.Prelude.Map.{Map}
use l5m.Platform.{Platform}
use l5m.Index.Below.{Below, MapBelow, push-Below, get-Below}
use l5m.Index.Lsh.{
  EmbeddingLsh, add_to_tables, add_fingerprints, build_semantic, visit_tables, semantic_candidates,
  add_embeddings, build_embedding, hyperplanes, sig_bands, first_dim, embedding_candidates,
}

module _ (n : ℕ) where
  abbrev TablesBelow : List (Map (List ℕ)) → Type 0
  TablesBelow = All (MapBelow n)

  add_to_tables-Below :
      (key : ℕ → ℕ) (o band : ℕ) (ts : List (Map (List ℕ)))
      → o < n
      → TablesBelow ts
      → TablesBelow (add_to_tables key o band ts)
  unfolding add_to_tables
  add_to_tables-Below key o band [] lt h = tt
  add_to_tables-Below key o band (t ∷ ts) lt h = (
    push-Below n (key band) (o % 2 ^ 32) t (omega (arith, lt)) h.0,
    add_to_tables-Below key o (band + 1) ts lt h.1,
  )

  visit_tables-Below :
      (key : ℕ → ℕ) (band : ℕ) (ts : List (Map (List ℕ)))
      → TablesBelow ts
      → Below n (visit_tables key band ts)
  unfolding visit_tables
  visit_tables-Below key band [] h = tt
  visit_tables-Below key band (t ∷ ts) h =
      All-append (λ i. i < n) _ _ (get-Below n (key band) t h.0)
        (visit_tables-Below key (band + 1) ts h.1)

  replicate-Below : (k : ℕ) → TablesBelow (replicate k [])
  replicate-Below zero = tt
  replicate-Below (suc k) = (tt, replicate-Below k)

  add_fingerprints-Below :
      (o : ℕ) (xs : List (List ℕ)) (ts : List (Map (List ℕ)))
      → o + length xs ≤ n
      → TablesBelow ts
      → TablesBelow (add_fingerprints o xs ts)
  unfolding add_fingerprints
  add_fingerprints-Below o [] ts le h = h
  add_fingerprints-Below o (bits ∷ rest) ts le h =
      add_fingerprints-Below (o + 1) rest _ (omega (arith, le))
        (add_to_tables-Below _ o 0 ts (omega (arith, le)) h)

  pub semantic_candidates-Below :
      (fingerprints : List (List ℕ)) (bits : List ℕ)
      → length fingerprints ≤ n
      → Below n (semantic_candidates (build_semantic fingerprints) bits)
  unfolding semantic_candidates build_semantic
  semantic_candidates-Below fingerprints bits le =
      visit_tables-Below _ 0 _
        (add_fingerprints-Below 0 fingerprints _ (omega (arith, le)) (replicate-Below 16))

  module _ (p : Platform) where
    open p use {F32}

    add_embeddings-Below :
        (xs : List (List F32)) (dim : ℕ) (planes : List (List F32)) (o : ℕ)
        (ts : List (Map (List ℕ)))
        → o + length xs ≤ n
        → TablesBelow ts
        → TablesBelow (add_embeddings p dim planes o xs ts)
    unfolding add_embeddings
    add_embeddings-Below [] dim planes o ts le h = h
    add_embeddings-Below (emb ∷ rest) dim planes o ts le h =
        let lt : o < n = omega (arith, le) in
        add_embeddings-Below rest dim planes (o + 1) _ (omega (arith, le))
          (keep _ (length emb == dim) (add_to_tables-Below _ o 0 ts lt h))
      where
        keep :
            (t' : List (Map (List ℕ))) (b : Bool)
            → TablesBelow t'
            → TablesBelow (if b then t' else ts)
        keep t' true k = k
        keep t' false k = h

    -- The tables of the dense index, if there is one.
    abbrev pub LshBelow : Option (EmbeddingLsh F32) → Type 0
    LshBelow none = Unit
    LshBelow (some lsh) = TablesBelow lsh.tables

    pub build_embedding-Below :
        (embeddings : List (List F32))
        → length embeddings ≤ n
        → LshBelow (build_embedding p embeddings)
    unfolding build_embedding
    build_embedding-Below embeddings le = by_dim (first_dim p embeddings) (λ dim.
        add_embeddings-Below embeddings dim (hyperplanes p (sig_bands * 16) dim 0x123456789abcdef0)
          0 (replicate sig_bands []) (omega (arith, le)) (replicate-Below sig_bands))
      where
        by_dim :
            (o : Option ℕ)
            → ((dim : ℕ)
                → TablesBelow (
                    add_embeddings p dim
                      (hyperplanes p (sig_bands * 16) dim 0x123456789abcdef0)
                      0
                      embeddings
                      (replicate sig_bands [])))
            → LshBelow (elim o [
              | none ↦ none
              | some dim ↦
                  let planes = hyperplanes p (sig_bands * 16) dim 0x123456789abcdef0 in
                  some (record {
                    dim = dim;
                    hyperplanes = planes;
                    tables = add_embeddings p dim planes 0 embeddings (replicate sig_bands []);
                  })
            ])
        by_dim none k = tt
        by_dim (some dim) k = k dim

    pub embedding_candidates-Below :
        (query : List F32) (lsh : EmbeddingLsh F32)
        → LshBelow (some lsh)
        → Below n (embedding_candidates p lsh query)
    unfolding embedding_candidates
    embedding_candidates-Below query lsh h = elim (Bool-cases (length query == lsh.dim)) [
      | inl fits ↦ rw fits (visit_tables-Below _ 0 lsh.tables h)
      | inr other ↦ rw other tt
    ]
