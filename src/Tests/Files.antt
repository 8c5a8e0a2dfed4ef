-- ===== src/Tests/Files.antt =====
-- A segment file of one capsule, which the writer makes and the reader opens.
use l5m.Prelude.{
  ℕ, ◌≡◌, ◌≤◌, ◌*◌, ◌^◌, leb→le, refl, Bool, true, false, some, List, [], ◌∷◌, ◌++◌, Bytes, length,
  replicate,
}
use l5m.Prelude.Int.{pos, negsuc}
use l5m.Outcome.{Outcome, ok, err, ◌>>=◌, panic}
use l5m.Capsule.{MemoryCapsule, RelationEdge, supports}
use l5m.Segment.Query.{Segment}
use l5m.Tests.{note, probe, platform-IsIeee}
use l5m.Format.Safe.{Safe}
use l5m.Format.Reader.Sound.{IsOpened, from_bytes-Safe}
use l5m.Format.Reader.Query.{from_bytes-IsAuthorized}
use l5m.Retrieve.Run.{retrieve_with_config}
use l5m.Retrieve.Run.Authorized.{IsAuthorized, ScoresNan}
use l5m.Outcome.{ReturnsOrPanics}
use l5m.Format.{
  metadata_len, signed, slice, checked_range, checked_range_with_limit, read_array, read_unsigned,
  read_signed, segment_hash,
}
use l5m.Format.Reader.{
  validate_header, validate_sections, read_text, read_string_at, read_string, read_optional_string,
  read_strings, read_string_list, relation_kind, read_relation, read_relations, read_bytes_signed,
  unless_none, source_material, validate_capsule_hashes, read_capsule, read_capsules, read_lanes,
  read_rows, read_embeddings, from_bytes,
}
use l5m.Format.Writer.{
  kind_byte, write_bytes, string_bytes, write_string_list, write_optional, relation_bytes,
  write_relations, until_or_none, blob_bytes, words_bytes, add_capsule, add_capsules, embedding_dim,
  metadata_bytes, write_table, copy_at, write_header_prefix, write_embedding, write_vectors,
  unsigned_bytes, assemble_segment,
}
use l5m.Prelude.Utf8.{is_utf8}
use l5m.Prelude.Digits.{to_le, unsigned}
use l5m.Prelude.Map
use l5m.Prelude.Sort.{sort_by}
use l5m.Index.Build.{build}
use l5m.Retrieve.Candidates.{default_config}
use l5m.Tests.Audits.{hashing}

abbrev text_hash : Bytes
text_hash = replicate 31 1

abbrev edge : RelationEdge
edge = record { from = 12; to = 11; kind = supports; weight = negsuc 4 }

abbrev stored : MemoryCapsule ℕ
stored = record (note 12 7 (edge ∷ [])) {
  source_hash = text_hash ++ 1 ∷ [];
  residual = replicate 64 (negsuc 1);
  content_hash = text_hash ++ 3 ∷ [];
  embedding = 5 ∷ 300 ∷ [];
  valid_until = some (pos 99);
}

abbrev file : Outcome Bytes
file = assemble_segment hashing (stored ∷ []) 4 >>= λ built. ok built.bytes

abbrev opened : Outcome (List (MemoryCapsule ℕ))
opened = file >>= λ bytes. from_bytes hashing bytes >>= λ s. ok s.capsules

abbrev bytes_of : Outcome Bytes → Bytes
bytes_of (ok bytes) = bytes
bytes_of _ = []

abbrev file_bytes : Bytes
file_bytes = bytes_of file

from_bytes-Safe_example : Safe (from_bytes hashing file_bytes) (IsOpened hashing file_bytes)
from_bytes-Safe_example = from_bytes-Safe hashing file_bytes

abbrev pub is_ok : {A : Type 0} → Outcome A → Bool
is_ok (ok a) = true
is_ok _ = false

pub ok_value : {A : Type 0} (m : Outcome A) → is_ok m ≡ true → (a : A) × (m ≡ ok a)
ok_value (ok a) h = (a, refl)
ok_value (err e) h = absurd (cc)
ok_value panic h = absurd (cc)

file_opens : (s : Segment ℕ) × (from_bytes hashing file_bytes ≡ ok s)
unfolding signed slice checked_range checked_range_with_limit read_array read_unsigned read_signed
    segment_hash validate_header validate_sections read_text read_string_at read_string
    read_optional_string read_strings read_string_list relation_kind read_relation read_relations
    read_bytes_signed unless_none source_material validate_capsule_hashes read_capsule read_capsules
    read_lanes read_rows read_embeddings from_bytes kind_byte write_bytes string_bytes
    write_string_list write_optional relation_bytes write_relations until_or_none blob_bytes
    words_bytes add_capsule add_capsules embedding_dim metadata_bytes write_table copy_at
    write_header_prefix write_embedding write_vectors unsigned_bytes assemble_segment is_utf8 to_le
    unsigned sort_by build Map.insert
file_opens = ok_value (from_bytes hashing file_bytes) refl

file_small : length file_bytes ≤ 2 ^ 32 * metadata_len
unfolding segment_hash to_le unsigned sort_by kind_byte write_bytes string_bytes write_string_list
    write_optional relation_bytes write_relations until_or_none blob_bytes words_bytes add_capsule
    add_capsules embedding_dim metadata_bytes write_table copy_at write_header_prefix
    write_embedding write_vectors unsigned_bytes assemble_segment
file_small = leb→le (length file_bytes) (2 ^ 32 * metadata_len) refl

from_bytes-IsAuthorized_example :
    ReturnsOrPanics
      (retrieve_with_config hashing file_opens.0 probe (default_config hashing))
      (IsAuthorized hashing file_opens.0 probe)
      (ScoresNan hashing file_opens.0 probe (default_config hashing).embed_rrf_k)
from_bytes-IsAuthorized_example =
    from_bytes-IsAuthorized hashing file_bytes file_opens.0 probe (default_config hashing)
      platform-IsIeee file_small file_opens.1
