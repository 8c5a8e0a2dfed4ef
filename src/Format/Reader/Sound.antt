-- ===== src/Format/Reader/Sound.antt =====
-- crates/l5m-core/src/segment.rs: from bytes that are not trusted, a segment or an error.
use l5m.Prelude.{
  ℕ, zero, suc, ◌+◌, ◌*◌, ◌≤◌, ◌≡◌, refl, ap, ◌∙◌, true, Option, List, [], ◌∷◌, ◌++◌, Bytes,
  bytes_eq, bytes_eq→eq, ◌==◌, ==_iff, length, All, arith,
}
use l5m.Prelude.Utf8.{is_utf8}
use l5m.Platform.{Platform}
use l5m.Outcome.{
  duplicate_ids, content_hash_mismatch, source_hash_mismatch, hash_mismatch, overflow,
}
use l5m.Capsule.{MemoryCapsule}
use l5m.Index.Build.{build}
use l5m.Segment.Query.{Segment}
use l5m.Format.{
  relation_len, metadata_len, hash_offset, hash_len, embed_dim_offset, vector_area_offset,
  segment_hash, checked,
}
use l5m.Format.Safe.{
  Safe, Safe-bind, Safe-ok, if-Safe, checked-some, Safe-imp, Any, check-Safe, or_format-Safe,
  slice-Safe, nth-Safe, checked_range-Safe, checked_range_with_limit-Safe, read_array-Safe,
  read_unsigned-Safe, read_signed-Safe,
}
use l5m.Format.Reader.{
  source_material, validate_capsule_hashes, read_capsule, read_capsules, read_lanes, read_rows,
  read_embeddings, from_bytes,
}
use l5m.Format.Reader.Parts.{
  validate_header-Safe, read_string-Safe, read_optional_string-Safe, read_string_list-Safe,
  read_relations-Safe, read_bytes_signed-Safe, validate_sections-Safe,
}

row_step :
    {F : Type 0} (row dim : ℕ) (cs : List (MemoryCapsule F)) {n : ℕ}
    → row + suc (length cs) * (dim * 4) ≤ n
    → row + dim * 4 + length cs * (dim * 4) ≤ n
row_step row dim cs h = grind arith

module _ (platform : Platform) where
  -- The hashes of the capsule are those of its texts, its relations start at it, and its texts are
  -- UTF-8.
  pub record IsAuthentic (c : MemoryCapsule platform.F32) : Type 0 where
    pub content : platform.blake3 (c.claim ++ (10 ∷ c.evidence)) ≡ c.content_hash
    pub source : platform.blake3 (source_material c.source_uri c.evidence) ≡ c.source_hash
    pub relations : All (λ e. e.from ≡ c.capsule_id) c.relation_edges
    pub claim_text : is_utf8 c.claim ≡ true
    pub evidence_text : is_utf8 c.evidence ≡ true

  validate_capsule_hashes-Safe :
      (claim evidence : Bytes) (uri : Option Bytes) (source content : Bytes)
      → Safe (validate_capsule_hashes platform claim evidence uri source content) (λ _.
        (platform.blake3 (claim ++ (10 ∷ evidence)) ≡ content)
        × (platform.blake3 (source_material uri evidence) ≡ source))
  unfolding validate_capsule_hashes
  validate_capsule_hashes-Safe claim evidence uri source content =
      Safe-bind _ _ (check-Safe _ content_hash_mismatch) λ _ e.
        Safe-imp (check-Safe _ source_hash_mismatch) λ _ e'. (bytes_eq→eq _ _ e, bytes_eq→eq _ _ e')

  read_capsule-Safe :
      (bytes : Bytes) (base strings relations end : ℕ)
      → base + metadata_len ≤ length bytes
      → Safe (read_capsule platform bytes base strings relations end) IsAuthentic
  unfolding read_capsule
  read_capsule-Safe bytes base strings relations end h =
      Safe-bind _ _ (read_unsigned-Safe 16 bytes base) λ id _.
        Safe-bind _ _ (read_unsigned-Safe 8 bytes (base + 16)) λ tenant _.
          Safe-bind _ _ (read_unsigned-Safe 8 bytes (base + 24)) λ source _.
            Safe-bind _ _ (read_array-Safe 32 bytes (base + 32)) λ source_hash _.
              Safe-bind _ _ (read_unsigned-Safe 8 bytes (base + 64)) λ b0 _.
                Safe-bind _ _ (read_unsigned-Safe 8 bytes (base + 72)) λ b1 _.
                  Safe-bind _ _ (read_unsigned-Safe 8 bytes (base + 80)) λ b2 _.
                    Safe-bind _ _ (read_unsigned-Safe 8 bytes (base + 88)) λ b3 _.
                      Safe-bind _ _ (read_bytes_signed-Safe bytes 64 (base + 96) (omega arith))
                        λ residual _.
                          Safe-bind _ _ (read_signed-Safe 8 bytes (base + 160)) λ from _.
                            Safe-bind _ _ (read_signed-Safe 8 bytes (base + 168)) λ until _.
                              Safe-bind _ _ (read_signed-Safe 8 bytes (base + 176)) λ observed _.
                                Safe-bind _ _ (read_signed-Safe 8 bytes (base + 184)) λ last _.
                                  Safe-bind _ _ (read_unsigned-Safe 16 bytes (base + 192))
                                    λ context _.
                                      Safe-bind _ _ (read_unsigned-Safe 16 bytes (base + 208))
                                        λ policy _.
                                          Safe-bind _ _ (nth-Safe bytes (base + 224) (omega arith))
                                            λ trust _.
                                              Safe-bind _ _
                                                (nth-Safe bytes (base + 225) (omega arith))
                                                λ classification _.
                                                  Safe-bind _ _
                                                    (nth-Safe bytes (base + 226) (omega arith))
                                                    λ poison _.
                                                      Safe-bind _ _
                                                        (read_string-Safe bytes strings relations
                                                          (base + 228))
                                                        λ claim claim_text.
                                                          Safe-bind _ _
                                                            (read_string-Safe bytes strings
                                                            relations (base + 240))
                                                            λ evidence text.
                                                            Safe-bind _ _
                                                            (read_optional_string-Safe bytes strings
                                                            relations (base + 252))
                                                            λ uri _.
                                                            Safe-bind _ _
                                                            (read_string_list-Safe bytes strings
                                                            relations (base + 264))
                                                            λ anchors _.
                                                            Safe-bind _ _
                                                            (read_string_list-Safe bytes strings
                                                            relations (base + 276))
                                                            λ entities _.
                                                            Safe-bind _ _
                                                            (read_unsigned-Safe 8 bytes
                                                            (base + 288))
                                                            λ at _.
                                                            Safe-bind _ _
                                                            (read_unsigned-Safe 4 bytes
                                                            (base + 296))
                                                            λ count _.
                                                            Safe-bind _ _
                                                            (read_array-Safe 32 bytes (base + 300))
                                                            λ content _.
                                                            Safe-bind _ _
                                                            (validate_capsule_hashes-Safe claim
                                                            evidence uri source_hash content)
                                                            λ _ hashes.
                                                            Safe-bind _ _
                                                            (or_format-Safe
                                                            (checked (count * relation_len))
                                                            overflow)
                                                            λ size _.
                                                            Safe-bind _ _
                                                            (or_format-Safe
                                                            (checked (relations + at)) overflow)
                                                            λ start _.
                                                            Safe-bind _ _
                                                            (checked_range_with_limit-Safe start
                                                            size end)
                                                            λ _ _.
                                                            Safe-bind _ _
                                                            (read_relations-Safe bytes id count
                                                            start)
                                                            λ edges from_id. Safe-ok _ (record {
                                                            content = hashes.0;
                                                            source = hashes.1;
                                                            relations = from_id;
                                                            claim_text = claim_text;
                                                            evidence_text = text;
                                                            })

  read_capsules-Safe :
      (bytes : Bytes) (count base strings relations index : ℕ)
      → base + count * metadata_len ≤ length bytes
      → Safe
          (read_capsules platform bytes count base strings relations index)
          (λ cs. (length cs ≡ count) × All IsAuthentic cs)
  unfolding read_capsules
  read_capsules-Safe bytes zero base strings relations index h = Safe-ok _ (refl, tt)
  read_capsules-Safe bytes (suc count) base strings relations index h =
      Safe-bind _ _ (read_capsule-Safe bytes base strings relations index (omega arith)) λ c good.
        Safe-bind _ _
          (read_capsules-Safe bytes count (base + metadata_len) strings relations index
            (omega arith))
          λ cs rest. Safe-ok _ (ap suc rest.0, (good, rest.1))

  read_lanes-Safe :
      (bytes : Bytes) (dim at : ℕ)
      → at + 4 * dim ≤ length bytes
      → Safe (read_lanes platform bytes dim at) Any
  unfolding read_lanes
  read_lanes-Safe bytes zero at h = Safe-ok _ tt
  read_lanes-Safe bytes (suc dim) at h =
      Safe-bind _ _ (slice-Safe bytes at 4 (omega arith)) λ lane _.
        Safe-bind _ _ (read_lanes-Safe bytes dim (at + 4) (omega arith)) λ rest _. Safe-ok _ tt

  read_rows-Safe :
      (bytes : Bytes) (dim : ℕ) (cs : List (MemoryCapsule platform.F32)) (row : ℕ)
      → row + length cs * (dim * 4) ≤ length bytes
      → All IsAuthentic cs
      → Safe
          (read_rows platform bytes dim (dim * 4) cs row)
          (λ ds. (length ds ≡ length cs) × All IsAuthentic ds)
  unfolding read_rows
  read_rows-Safe bytes dim [] row h good = Safe-ok _ (refl, tt)
  read_rows-Safe bytes dim (c ∷ cs) row h good =
      Safe-bind _ _ (read_lanes-Safe bytes dim row (omega (arith, row_step row dim cs h)))
        λ lanes _.
          Safe-bind _ _ (read_rows-Safe bytes dim cs (row + dim * 4) (row_step row dim cs h) good.1)
            λ rest goods. Safe-ok _ (
              ap suc goods.0,
              (
                record {
                  content = good.0.content;
                  source = good.0.source;
                  relations = good.0.relations;
                  claim_text = good.0.claim_text;
                  evidence_text = good.0.evidence_text;
                },
                goods.1,
              ),
            )

  read_embeddings-Safe :
      (bytes : Bytes) (count : ℕ) (cs : List (MemoryCapsule platform.F32))
      → length cs ≡ count
      → All IsAuthentic cs
      → Safe
          (read_embeddings platform bytes count cs)
          (λ ds. (length ds ≡ count) × All IsAuthentic ds)
  unfolding read_embeddings
  read_embeddings-Safe bytes count cs n good =
      Safe-bind _ _ (read_unsigned-Safe 4 bytes embed_dim_offset) λ dim _.
        if-Safe (dim == 0) (Safe-ok cs (n, good)) (
          Safe-bind _ _ (read_unsigned-Safe 8 bytes vector_area_offset) λ at _.
            Safe-bind _ _ (or_format-Safe (checked (dim * 4)) overflow) λ width w.
              Safe-bind _ _ (or_format-Safe (checked (count * width)) overflow) λ total t.
                Safe-bind _ _ (checked_range-Safe bytes at total) λ _ inside.
                  rw (← checked-some (dim * 4) w) (
                    Safe-imp
                      (read_rows-Safe bytes dim cs at
                        (rw (n, checked-some (dim * 4) w, checked-some (count * width) t) inside)
                        good)
                      λ ds h. (h.0 ∙ n, h.1)))

  -- What an opened file holds: its index is built from its capsules, no id comes twice, the
  -- capsules are authentic, and each has its metadata in the file.
  pub record IsOpened (bytes : Bytes) (s : Segment platform.F32) : Type 0 where
    pub built : s.index ≡ build platform s.capsules
    pub distinct : length (build platform s.capsules).by_id ≡ length s.capsules
    pub authentic : All IsAuthentic s.capsules
    pub bounded : length s.capsules * metadata_len ≤ length bytes

  -- Whatever the bytes are, opening them returns a segment or an error and does not panic; and a
  -- segment has the hashes that its texts have, ids without repetition, relations that start at
  -- their capsule, the index of its capsules, and no more capsules than the bytes have room for.
  pub from_bytes-Safe : (bytes : Bytes) → Safe (from_bytes platform bytes) (IsOpened bytes)
  unfolding from_bytes
  from_bytes-Safe bytes = Safe-bind _ _ (validate_header-Safe bytes) λ _ long.
      Safe-bind _ _ (slice-Safe bytes hash_offset hash_len (omega arith)) λ stored _.
        Safe-bind _ _ (check-Safe (bytes_eq stored (segment_hash platform bytes)) hash_mismatch)
          λ _ _. Safe-bind _ _ (read_unsigned-Safe 8 bytes 16) λ epoch _.
            Safe-bind _ _ (read_unsigned-Safe 8 bytes 24) λ tenant _.
              Safe-bind _ _ (read_unsigned-Safe 8 bytes 32) λ count _.
                Safe-bind _ _ (read_unsigned-Safe 8 bytes 40) λ metadata _.
                  Safe-bind _ _ (read_unsigned-Safe 8 bytes 48) λ strings _.
                    Safe-bind _ _ (read_unsigned-Safe 8 bytes 56) λ relations _.
                      Safe-bind _ _ (read_unsigned-Safe 8 bytes 64) λ index _.
                        Safe-bind _ _
                          (validate_sections-Safe bytes count metadata strings relations index)
                          λ _ inside.
                            Safe-bind _ _
                              (read_capsules-Safe bytes count metadata strings relations index
                                inside)
                              λ read good.
                                Safe-bind _ _ (read_embeddings-Safe bytes count read good.0 good.1)
                                  λ cs all_good.
                                    Safe-bind _ _
                                      (check-Safe (length (build platform cs).by_id == length cs)
                                        duplicate_ids)
                                      λ _ same. Safe-ok _ (record {
                                        built = refl;
                                        distinct =
                                            (==_iff (length (build platform cs).by_id)
                                                (length cs)).0
                                              same;
                                        authentic = all_good.1;
                                        bounded = omega (arith, all_good.0);
                                      })
