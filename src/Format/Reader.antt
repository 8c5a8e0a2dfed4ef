-- ===== src/Format/Reader.antt =====
-- crates/l5m-core/src/segment.rs: reading a segment from bytes that are not trusted.
pub mod Parts
pub mod Sound
pub mod Query
use l5m.Prelude.{
  ℕ, zero, suc, ◌+◌, ◌-◌, ◌*◌, ◌^◌, Bool, true, false, not, ◌&&◌, ◌||◌, Option, none, some, List,
  [], ◌∷◌, ◌++◌, Bytes, bytes_eq, ltb, leb, ◌==◌, if◌then◌else◌, length, take, drop, from_le,
}
use l5m.Prelude.Int.{ℤ, pos, negsuc}
use l5m.Prelude.Utf8.{is_utf8}
use l5m.Platform.{Platform}
use l5m.Outcome.{
  Outcome, ok, err, panic, ◌>>=◌, ◌>>◌, nth, FormatError, format, too_short, bad_magic, bad_version,
  bad_header_len, hash_mismatch, duplicate_ids, overflow, bad_sections, bad_index_marker,
  bad_index_count, content_hash_mismatch, source_hash_mismatch, bad_relation_source,
  bad_relation_kind, bad_utf8, truncated_list, trailing_list_bytes,
}
use l5m.Capsule.{
  MemoryCapsule, RelationEdge, RelationKind, supports, contradicts, supersedes, depends_on,
  derived_from, duplicate_of,
}
use l5m.Index.Build.{build}
use l5m.Segment.Query.{Segment}
use l5m.Format.{
  magic, index_marker, version, header_len, hash_offset, hash_len, embed_dim_offset,
  vector_area_offset, metadata_len, relation_len, none_i64, signed, checked, or_format, check,
  slice, checked_range, checked_range_with_limit, read_array, read_unsigned, read_signed, read_u32,
  read_u64, read_u128, segment_hash,
}

unfoldable pub validate_header : Bytes → Outcome (Unit {0})
validate_header bytes = do
  check (leb header_len (length bytes)) too_short
  start ← slice bytes 0 8
  check (bytes_eq start magic) bad_magic
  v ← read_u32 bytes 8
  check (v == version) bad_version
  len ← read_u32 bytes 12
  check (len == header_len) bad_header_len

unfoldable pub validate_sections : Bytes → ℕ → ℕ → ℕ → ℕ → ℕ → Outcome (Unit {0})
validate_sections bytes capsule_count metadata_offset string_offset relation_offset index_offset =
    do
      table_len ← or_format (checked (capsule_count * metadata_len)) overflow
      expected_string_offset ← or_format (checked (metadata_offset + table_len)) overflow
      check
          (metadata_offset == header_len
            && expected_string_offset == string_offset
            && leb string_offset relation_offset
            && leb relation_offset index_offset
            && leb index_offset (length bytes))
          bad_sections
      checked_range bytes metadata_offset table_len
      checked_range bytes string_offset (relation_offset - string_offset)
      checked_range bytes relation_offset (index_offset - relation_offset)
      checked_range bytes index_offset 16
      marker ← slice bytes index_offset 8
      check (bytes_eq marker index_marker) bad_index_marker
      indexed_count ← read_u64 bytes (index_offset + 8)
      check (indexed_count == capsule_count) bad_index_count

-- `str::from_utf8(&bytes[start..start + len])`.
unfoldable pub read_text : Bytes → ℕ → ℕ → Outcome Bytes
read_text bytes start len = do text ← slice bytes start len; check (is_utf8 text) bad_utf8; ok text

unfoldable pub read_string_at : Bytes → ℕ → ℕ → ℕ → ℕ → Outcome Bytes
read_string_at bytes string_base string_end offset len = do
  start ← or_format (checked (string_base + offset)) overflow
  checked_range bytes start len
  checked_range_with_limit start len string_end
  read_text bytes start len

unfoldable pub read_string : Bytes → ℕ → ℕ → ℕ → Outcome Bytes
read_string bytes string_base string_end offset = do
  blob_offset ← read_u64 bytes offset
  blob_len ← read_u32 bytes (offset + 8)
  read_string_at bytes string_base string_end blob_offset blob_len

unfoldable pub read_optional_string : Bytes → ℕ → ℕ → ℕ → Outcome (Option Bytes)
read_optional_string bytes string_base string_end offset = do
  blob_offset ← read_u64 bytes offset
  blob_len ← read_u32 bytes (offset + 8)
  if blob_offset == 2 ^ 64 - 1 && blob_len == 2 ^ 32 - 1
      then ok none
      else read_string_at bytes string_base string_end blob_offset blob_len >>= λ text.
          ok (some text)

-- The loop of `read_string_list`, with what it has pushed so far in front of the rest: the strings,
-- and the cursor after them.
unfoldable pub read_strings : Bytes → ℕ → ℕ → ℕ → Outcome (List Bytes × ℕ)
read_strings bytes end zero cursor = ok ([], cursor)
read_strings bytes end (suc count) cursor = do
  check (ltb cursor end) truncated_list
  len ← read_u32 bytes cursor
  checked_range bytes (cursor + 4) len
  text ← read_text bytes (cursor + 4) len
  rest ← read_strings bytes end count (cursor + 4 + len)
  ok (text ∷ rest.0, rest.1)

unfoldable pub read_string_list : Bytes → ℕ → ℕ → ℕ → Outcome (List Bytes)
read_string_list bytes string_base string_end offset = do
  blob_offset ← read_u64 bytes offset
  blob_len ← read_u32 bytes (offset + 8)
  start ← or_format (checked (string_base + blob_offset)) overflow
  checked_range bytes start blob_len
  checked_range_with_limit start blob_len string_end
  count ← read_u32 bytes start
  read ← read_strings bytes (start + blob_len) count (start + 4)
  check (read.1 == start + blob_len) trailing_list_bytes
  ok read.0

unfoldable pub relation_kind : ℕ → Outcome RelationKind
relation_kind byte =
    if byte == 0
    then ok supports
    else if byte == 1
    then ok contradicts
    else if byte == 2
    then ok supersedes
    else if byte == 3
    then ok depends_on
    else if byte == 4
    then ok derived_from
    else if byte == 5
    then ok duplicate_of
    else err (format bad_relation_kind)

unfoldable pub read_relation : Bytes → ℕ → Outcome RelationEdge
read_relation bytes offset = do
  checked_range bytes offset relation_len
  byte ← nth bytes (offset + 32)
  kind ← relation_kind byte
  from ← read_u128 bytes offset
  to ← read_u128 bytes (offset + 16)
  weight ← read_signed 2 bytes (offset + 33)
  ok (record { from = from; to = to; kind = kind; weight = weight })

-- The loop over the relations of a capsule, from the byte `at` on.
unfoldable pub read_relations : Bytes → ℕ → ℕ → ℕ → Outcome (List RelationEdge)
read_relations bytes capsule_id zero at = ok []
read_relations bytes capsule_id (suc count) at = do
  edge ← read_relation bytes at
  check (edge.from == capsule_id) bad_relation_source
  edges ← read_relations bytes capsule_id count (at + relation_len)
  ok (edge ∷ edges)

-- `bytes[at + index] as i8` for each index below the count.
unfoldable pub read_bytes_signed : Bytes → ℕ → ℕ → Outcome (List ℤ)
unfolding signed
read_bytes_signed bytes zero at = ok []
read_bytes_signed bytes (suc count) at = do
  byte ← nth bytes at
  rest ← read_bytes_signed bytes count (at + 1)
  ok (signed 8 byte ∷ rest)

unfoldable pub unless_none : ℤ → Option ℤ
unless_none (pos n) = if n == none_i64 then none else some (pos n)
unless_none (negsuc n) = some (negsuc n)

-- `source_uri.map(str::as_bytes).unwrap_or_else(|| evidence.as_bytes())`.
unfoldable pub source_material : Option Bytes → Bytes → Bytes
source_material none evidence = evidence
source_material (some uri) evidence = uri

module _ (platform : Platform) where
  unfoldable pub validate_capsule_hashes :
      Bytes → Bytes → Option Bytes → Bytes → Bytes → Outcome (Unit {0})
  unfolding source_material
  validate_capsule_hashes claim evidence source_uri source_hash content_hash = do
    check (bytes_eq (platform.blake3 (claim ++ (10 ∷ evidence))) content_hash) content_hash_mismatch
    check (bytes_eq (platform.blake3 (source_material source_uri evidence)) source_hash)
        source_hash_mismatch

  unfoldable pub read_capsule : Bytes → ℕ → ℕ → ℕ → ℕ → Outcome (MemoryCapsule platform.F32)
  read_capsule bytes base string_base relation_base relation_end = do
    capsule_id ← read_u128 bytes base
    tenant_id ← read_u64 bytes (base + 16)
    source_id ← read_u64 bytes (base + 24)
    source_hash ← read_array 32 bytes (base + 32)
    bits0 ← read_u64 bytes (base + 64)
    bits1 ← read_u64 bytes (base + 72)
    bits2 ← read_u64 bytes (base + 80)
    bits3 ← read_u64 bytes (base + 88)
    residual ← read_bytes_signed bytes 64 (base + 96)
    valid_from ← read_signed 8 bytes (base + 160)
    valid_until_raw ← read_signed 8 bytes (base + 168)
    observed_at ← read_signed 8 bytes (base + 176)
    last_verified_at ← read_signed 8 bytes (base + 184)
    context_mask ← read_u128 bytes (base + 192)
    policy_mask ← read_u128 bytes (base + 208)
    trust_level ← nth bytes (base + 224)
    classification ← nth bytes (base + 225)
    poison_risk ← nth bytes (base + 226)
    claim ← read_string bytes string_base relation_base (base + 228)
    evidence ← read_string bytes string_base relation_base (base + 240)
    source_uri ← read_optional_string bytes string_base relation_base (base + 252)
    anchors ← read_string_list bytes string_base relation_base (base + 264)
    entities ← read_string_list bytes string_base relation_base (base + 276)
    relation_offset ← read_u64 bytes (base + 288)
    relation_count ← read_u32 bytes (base + 296)
    content_hash ← read_array 32 bytes (base + 300)
    validate_capsule_hashes claim evidence source_uri source_hash content_hash
    relation_bytes ← or_format (checked (relation_count * relation_len)) overflow
    relation_start ← or_format (checked (relation_base + relation_offset)) overflow
    checked_range_with_limit relation_start relation_bytes relation_end
    relation_edges ← read_relations bytes capsule_id relation_count relation_start
    ok (record {
      capsule_id = capsule_id;
      tenant_id = tenant_id;
      claim = claim;
      evidence = evidence;
      source_id = source_id;
      source_uri = source_uri;
      source_hash = source_hash;
      semantic_bits = bits0 ∷ bits1 ∷ bits2 ∷ bits3 ∷ [];
      residual = residual;
      embedding = [];
      anchors = anchors;
      entities = entities;
      valid_from = valid_from;
      valid_until = unless_none valid_until_raw;
      observed_at = observed_at;
      last_verified_at = last_verified_at;
      context_mask = context_mask;
      policy_mask = policy_mask;
      trust_level = trust_level;
      classification = classification;
      poison_risk = poison_risk;
      relation_edges = relation_edges;
      content_hash = content_hash;
    })

  -- The loop over the capsules, from the metadata at `base` on.
  unfoldable pub read_capsules :
      Bytes → ℕ → ℕ → ℕ → ℕ → ℕ → Outcome (List (MemoryCapsule platform.F32))
  read_capsules bytes zero base string_offset relation_offset index_offset = ok []
  read_capsules bytes (suc count) base string_offset relation_offset index_offset = do
    capsule ← read_capsule bytes base string_offset relation_offset index_offset
    rest ←
        read_capsules bytes count (base + metadata_len) string_offset relation_offset index_offset
    ok (capsule ∷ rest)

  -- `embedding_dim` floats from the byte `at` on.
  unfoldable pub read_lanes : Bytes → ℕ → ℕ → Outcome (List platform.F32)
  read_lanes bytes zero at = ok []
  read_lanes bytes (suc dim) at = do
    lane ← slice bytes at 4
    rest ← read_lanes bytes dim (at + 4)
    ok (platform.from_bits (from_le lane) ∷ rest)

  -- The loop that gives each capsule its row, which has `width` bytes, from the byte `row` on.
  unfoldable pub read_rows :
      Bytes
      → ℕ
      → ℕ
      → List (MemoryCapsule platform.F32)
      → ℕ
      → Outcome (List (MemoryCapsule platform.F32))
  read_rows bytes dim width [] row = ok []
  read_rows bytes dim width (capsule ∷ capsules) row = do
    embedding ← read_lanes bytes dim row
    rest ← read_rows bytes dim width capsules (row + width)
    ok (record capsule { embedding = embedding } ∷ rest)

  unfoldable pub read_embeddings :
      Bytes → ℕ → List (MemoryCapsule platform.F32) → Outcome (List (MemoryCapsule platform.F32))
  read_embeddings bytes capsule_count capsules = do
    embedding_dim ← read_u32 bytes embed_dim_offset
    if embedding_dim == 0 then ok capsules else do
      vector_offset ← read_u64 bytes vector_area_offset
      bytes_per_capsule ← or_format (checked (embedding_dim * 4)) overflow
      total ← or_format (checked (capsule_count * bytes_per_capsule)) overflow
      checked_range bytes vector_offset total
      read_rows bytes embedding_dim bytes_per_capsule capsules vector_offset

  -- `Segment::from_bytes`, which is `Segment::from_untrusted_bytes`.
  unfoldable pub from_bytes : Bytes → Outcome (Segment platform.F32)
  from_bytes bytes = do
    validate_header bytes
    stored_hash ← slice bytes hash_offset hash_len
    check (bytes_eq stored_hash (segment_hash platform bytes)) hash_mismatch
    epoch ← read_u64 bytes 16
    tenant_id ← read_u64 bytes 24
    capsule_count ← read_u64 bytes 32
    metadata_offset ← read_u64 bytes 40
    string_offset ← read_u64 bytes 48
    relation_offset ← read_u64 bytes 56
    index_offset ← read_u64 bytes 64
    validate_sections bytes capsule_count metadata_offset string_offset relation_offset index_offset
    read ←
        read_capsules bytes capsule_count metadata_offset string_offset relation_offset index_offset
    capsules ← read_embeddings bytes capsule_count read
    let index = build platform capsules
    check (length index.by_id == length capsules) duplicate_ids
    ok (record { epoch = epoch; tenant_id = tenant_id; capsules = capsules; index = index })
