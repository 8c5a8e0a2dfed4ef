-- ===== src/Format/Writer.antt =====
-- crates/l5m-core/src/compiler.rs: the bytes of a segment from its capsules. The vectors that the
-- code appends to are lists, and what it appends stands at their end.
use l5m.Prelude.{
  ℕ, ◌+◌, ◌-◌, ◌*◌, ◌%◌, ◌^◌, not, Option, none, some, List, [], ◌∷◌, ◌++◌, Bytes, ◌==◌,
  if◌then◌else◌, length, take, drop, replicate, max, map, any, compare,
}
use l5m.Prelude.Int.{ℤ, pos}
use l5m.Prelude.Sort.{sort_by}
use l5m.Prelude.Digits.{to_le, unsigned}
use l5m.Platform.{Platform}
use l5m.Outcome.{Outcome, ok, err, format, inconsistent_embedding}
use l5m.Capsule.{
  MemoryCapsule, RelationEdge, RelationKind, supports, contradicts, supersedes, depends_on,
  derived_from, duplicate_of,
}
use l5m.Segment.Query.{first_tenant}
use l5m.Format.{
  magic, index_marker, version, header_len, hash_offset, embed_dim_offset, vector_area_offset,
  metadata_len, none_i64, segment_hash,
}

-- `edge.kind as u8`.
unfoldable pub kind_byte : RelationKind → ℕ
kind_byte supports = 0
kind_byte contradicts = 1
kind_byte supersedes = 2
kind_byte depends_on = 3
kind_byte derived_from = 4
kind_byte duplicate_of = 5

pub record BlobRef : Type 0 where
  pub offset : ℕ
  pub len : ℕ

abbrev pub no_blob : BlobRef
no_blob = record { offset = 2 ^ 64 - 1; len = 2 ^ 32 - 1 }

-- `len as u32`.
abbrev pub as_u32 : ℕ → ℕ
as_u32 n = n % 2 ^ 32

-- `write_bytes`: the area after it, and where the bytes are.
unfoldable pub write_bytes : Bytes → Bytes → Bytes × BlobRef
write_bytes area bytes =
    (area ++ bytes, record { offset = length area; len = as_u32 (length bytes) })

-- The strings of a list, each after its length.
unfoldable pub string_bytes : List Bytes → Bytes
unfolding to_le
string_bytes [] = []
string_bytes (value ∷ values) = to_le 4 (as_u32 (length value)) ++ value ++ string_bytes values

unfoldable pub write_string_list : Bytes → List Bytes → Bytes × BlobRef
unfolding to_le string_bytes
write_string_list area values =
    let area' = area ++ (to_le 4 (as_u32 (length values)) ++ string_bytes values) in
    (area', record { offset = length area; len = as_u32 (length area' - length area) })

unfoldable pub write_optional : Bytes → Option Bytes → Bytes × BlobRef
unfolding write_bytes
write_optional area none = (area, no_blob)
write_optional area (some uri) = write_bytes area uri

unfoldable pub relation_bytes : RelationEdge → Bytes
unfolding to_le unsigned kind_byte
relation_bytes edge =
    to_le 16 edge.from
    ++ to_le 16 edge.to
    ++ (kind_byte edge.kind ∷ [])
    ++ to_le 2 (unsigned 16 edge.weight)
    ++ (0 ∷ 0 ∷ [])

unfoldable pub write_relations : Bytes → List RelationEdge → Bytes
unfolding relation_bytes
write_relations area [] = area
write_relations area (edge ∷ edges) = write_relations (area ++ relation_bytes edge) edges

pub record MetadataRefs : Type 0 where
  pub claim : BlobRef
  pub evidence : BlobRef
  pub source_uri : BlobRef
  pub anchors : BlobRef
  pub entities : BlobRef
  pub relation_offset : ℕ
  pub relation_count : ℕ

-- The areas that the loop over the capsules fills, and its records.
pub record Areas : Type 0 where
  pub strings : Bytes
  pub relations : Bytes
  pub records : List MetadataRefs

unfoldable pub until_or_none : Option ℤ → ℤ
until_or_none none = pos none_i64
until_or_none (some i) = i

unfoldable pub blob_bytes : BlobRef → Bytes
unfolding to_le
blob_bytes blob = to_le 8 blob.offset ++ to_le 4 blob.len

-- Each number at the width, one after the other.
unfoldable pub words_bytes : ℕ → List ℕ → Bytes
unfolding to_le
words_bytes width [] = []
words_bytes width (w ∷ ws) = to_le width w ++ words_bytes width ws

module _ {F : Type 0} where
  -- One round of the loop over the capsules.
  unfoldable pub add_capsule : MemoryCapsule F → Areas → Areas
  unfolding write_bytes write_optional write_string_list write_relations
  add_capsule capsule areas =
      let claim = write_bytes areas.strings capsule.claim in
      let evidence = write_bytes claim.0 capsule.evidence in
      let source_uri = write_optional evidence.0 capsule.source_uri in
      let anchors = write_string_list source_uri.0 capsule.anchors in
      let entities = write_string_list anchors.0 capsule.entities in
      record {
        strings = entities.0;
        relations = write_relations areas.relations capsule.relation_edges;
        records =
            areas.records
            ++ record {
              claim = claim.1;
              evidence = evidence.1;
              source_uri = source_uri.1;
              anchors = anchors.1;
              entities = entities.1;
              relation_offset = length areas.relations;
              relation_count = as_u32 (length capsule.relation_edges);
            }
              ∷ [];
      }

  unfoldable pub add_capsules : List (MemoryCapsule F) → Areas → Areas
  unfolding add_capsule
  add_capsules [] areas = areas
  add_capsules (capsule ∷ capsules) areas = add_capsules capsules (add_capsule capsule areas)

  -- `capsules.iter().map(|c| c.embedding.len()).max().unwrap_or(0)`.
  unfoldable pub embedding_dim : List (MemoryCapsule F) → ℕ
  embedding_dim [] = 0
  embedding_dim (capsule ∷ capsules) = max (length capsule.embedding) (embedding_dim capsules)

  unfoldable pub metadata_bytes : MemoryCapsule F → MetadataRefs → Bytes
  unfolding to_le unsigned blob_bytes words_bytes until_or_none
  metadata_bytes capsule refs =
      to_le 16 capsule.capsule_id
      ++ to_le 8 capsule.tenant_id
      ++ to_le 8 capsule.source_id
      ++ capsule.source_hash
      ++ words_bytes 8 capsule.semantic_bits
      ++ map (unsigned 8) capsule.residual
      ++ to_le 8 (unsigned 64 capsule.valid_from)
      ++ to_le 8 (unsigned 64 (until_or_none capsule.valid_until))
      ++ to_le 8 (unsigned 64 capsule.observed_at)
      ++ to_le 8 (unsigned 64 capsule.last_verified_at)
      ++ to_le 16 capsule.context_mask
      ++ to_le 16 capsule.policy_mask
      ++ (capsule.trust_level ∷ capsule.classification ∷ capsule.poison_risk ∷ 0 ∷ [])
      ++ blob_bytes refs.claim
      ++ blob_bytes refs.evidence
      ++ blob_bytes refs.source_uri
      ++ blob_bytes refs.anchors
      ++ blob_bytes refs.entities
      ++ to_le 8 refs.relation_offset
      ++ to_le 4 refs.relation_count
      ++ capsule.content_hash
      ++ replicate 8 0

  -- `for (capsule, refs) in capsules.iter().zip(&metadata_records)`.
  unfoldable pub write_table : Bytes → List (MemoryCapsule F) → List MetadataRefs → Bytes
  unfolding metadata_bytes
  write_table bytes [] records = bytes
  write_table bytes (capsule ∷ capsules) [] = bytes
  write_table bytes (capsule ∷ capsules) (refs ∷ records) =
      write_table (bytes ++ metadata_bytes capsule refs) capsules records

-- `bytes[offset..offset + src.len()].copy_from_slice(src)`, in bounds.
unfoldable pub copy_at : Bytes → ℕ → Bytes → Bytes
copy_at bytes offset src = take offset bytes ++ src ++ drop (offset + length src) bytes

pub record HeaderFields : Type 0 where
  pub epoch : ℕ
  pub tenant_id : ℕ
  pub capsule_count : ℕ
  pub metadata_offset : ℕ
  pub string_offset : ℕ
  pub relation_offset : ℕ
  pub index_offset : ℕ
  pub embedding_dim : ℕ
  pub vector_offset : ℕ

unfoldable pub write_header_prefix : Bytes → HeaderFields → Bytes
unfolding to_le copy_at
write_header_prefix bytes fields =
    let b0 = copy_at bytes 0 magic in
    let b1 = copy_at b0 8 (to_le 4 version) in
    let b2 = copy_at b1 12 (to_le 4 header_len) in
    let b3 = copy_at b2 16 (to_le 8 fields.epoch) in
    let b4 = copy_at b3 24 (to_le 8 fields.tenant_id) in
    let b5 = copy_at b4 32 (to_le 8 fields.capsule_count) in
    let b6 = copy_at b5 40 (to_le 8 fields.metadata_offset) in
    let b7 = copy_at b6 48 (to_le 8 fields.string_offset) in
    let b8 = copy_at b7 56 (to_le 8 fields.relation_offset) in
    let b9 = copy_at b8 64 (to_le 8 fields.index_offset) in
    let b10 = copy_at b9 embed_dim_offset (to_le 4 fields.embedding_dim) in
    copy_at b10 vector_area_offset (to_le 8 fields.vector_offset)

pub record BuiltSegment : Type 0 where
  pub bytes : Bytes
  pub capsule_count : ℕ
  pub tenant_id : ℕ
  pub epoch : ℕ
  pub hash : Bytes

module _ (platform : Platform) where
  unfoldable pub write_embedding : Bytes → List platform.F32 → Bytes
  unfolding to_le
  write_embedding bytes [] = bytes
  write_embedding bytes (value ∷ values) =
      write_embedding (bytes ++ to_le 4 (platform.to_bits value)) values

  unfoldable pub write_vectors : Bytes → List (MemoryCapsule platform.F32) → Bytes
  unfolding write_embedding
  write_vectors bytes [] = bytes
  write_vectors bytes (capsule ∷ capsules) =
      write_vectors (write_embedding bytes capsule.embedding) capsules

  -- The file before its hash is stored in it.
  unfoldable pub unsigned_bytes : List (MemoryCapsule platform.F32) → ℕ → Bytes
  unfolding add_capsules embedding_dim write_header_prefix write_table to_le write_vectors
  unsigned_bytes capsules epoch =
      let areas = add_capsules capsules (record { strings = []; relations = []; records = [] }) in
      let string_offset = header_len + length capsules * metadata_len in
      let relation_offset = string_offset + length areas.strings in
      let index_offset = relation_offset + length areas.relations in
      let header = write_header_prefix (replicate header_len 0) (record {
        epoch = epoch;
        tenant_id = first_tenant capsules;
        capsule_count = length capsules;
        metadata_offset = header_len;
        string_offset = string_offset;
        relation_offset = relation_offset;
        index_offset = index_offset;
        embedding_dim = as_u32 (embedding_dim capsules);
        vector_offset = index_offset + 16;
      }) in
      let table = write_table header capsules areas.records in
      let indexed =
        table ++ areas.strings ++ areas.relations ++ index_marker ++ to_le 8 (length capsules) in
      write_vectors indexed capsules

  unfoldable pub assemble_segment : List (MemoryCapsule platform.F32) → ℕ → Outcome BuiltSegment
  unfolding embedding_dim unsigned_bytes segment_hash copy_at sort_by
  assemble_segment unsorted epoch =
      let capsules = sort_by (λ a b. compare a.capsule_id b.capsule_id) unsorted in
      if any (λ c. not (length c.embedding == embedding_dim capsules)) capsules
      then err (format inconsistent_embedding)
      else let bytes = unsigned_bytes capsules epoch in
        let hash = segment_hash platform bytes in
        ok (record {
          bytes = copy_at bytes hash_offset hash;
          capsule_count = length capsules;
          tenant_id = first_tenant capsules;
          epoch = epoch;
          hash = hash;
        })
