-- ===== src/Format/Reader/Parts.antt =====
-- crates/l5m-core/src/segment.rs: the readers of the parts of a segment do not panic.
use l5m.Prelude.{
  ℕ, zero, suc, ◌+◌, ◌-◌, ◌*◌, ◌^◌, ◌≤◌, ◌≡◌, true, none, some, Bytes, bytes_eq, leb, leb→le, ltb,
  ◌==◌, ==_iff, length, All, arith, ◌&&◌,
}
use l5m.Prelude.Utf8.{is_utf8}
use l5m.Outcome.{
  format, bad_relation_kind, bad_relation_source, bad_utf8, bad_sections, bad_index_marker,
  bad_index_count, overflow, truncated_list, trailing_list_bytes, too_short, bad_magic, bad_version,
  bad_header_len,
}
use l5m.Format.{magic, index_marker, version, header_len, relation_len, metadata_len, checked}
use l5m.Format.Safe.{
  Safe, Safe-bind, Safe-ok, Safe-err, if-Safe, checked-some, Safe-imp, Any, check-Safe,
  or_format-Safe, slice-Safe, nth-Safe, checked_range-Safe, checked_range_with_limit-Safe,
  read_unsigned-Safe, read_signed-Safe,
}
use l5m.Format.Reader.{
  validate_header, validate_sections, read_text, read_string_at, read_string, read_optional_string,
  read_strings, read_string_list, relation_kind, read_relation, read_relations, read_bytes_signed,
}

pub validate_header-Safe :
    (bytes : Bytes) → Safe (validate_header bytes) (λ _. header_len ≤ length bytes)
unfolding validate_header
validate_header-Safe bytes =
    Safe-bind _ _ (check-Safe (leb header_len (length bytes)) too_short) λ _ long.
      let h : 128 ≤ length bytes = leb→le 128 (length bytes) long in
      Safe-bind _ _ (slice-Safe bytes 0 8 (omega arith)) λ start _.
        Safe-bind _ _ (check-Safe (bytes_eq start magic) bad_magic) λ _ _.
          Safe-bind _ _ (read_unsigned-Safe 4 bytes 8) λ v _.
            Safe-bind _ _ (check-Safe (v == version) bad_version) λ _ _.
              Safe-bind _ _ (read_unsigned-Safe 4 bytes 12)
                λ len _. Safe-imp (check-Safe (len == header_len) bad_header_len) λ _ _. h

pub read_text-Safe :
    (bytes : Bytes) (start len : ℕ)
    → start + len ≤ length bytes
    → Safe (read_text bytes start len) (λ text. is_utf8 text ≡ true)
unfolding read_text
read_text-Safe bytes start len h =
    Safe-bind _ _ (slice-Safe bytes start len h)
      λ text _. Safe-bind _ _ (check-Safe (is_utf8 text) bad_utf8) λ _ e. Safe-ok text e

pub read_string_at-Safe :
    (bytes : Bytes) (base end offset len : ℕ)
    → Safe (read_string_at bytes base end offset len) (λ text. is_utf8 text ≡ true)
unfolding read_string_at
read_string_at-Safe bytes base end offset len =
    Safe-bind _ _ (or_format-Safe (checked (base + offset)) overflow) λ start _.
      Safe-bind _ _ (checked_range-Safe bytes start len) λ _ h.
        Safe-bind _ _ (checked_range_with_limit-Safe start len end)
          λ _ _. read_text-Safe bytes start len h

pub read_string-Safe :
    (bytes : Bytes) (base end offset : ℕ)
    → Safe (read_string bytes base end offset) (λ text. is_utf8 text ≡ true)
unfolding read_string
read_string-Safe bytes base end offset = Safe-bind _ _ (read_unsigned-Safe 8 bytes offset) λ at _.
    Safe-bind _ _ (read_unsigned-Safe 4 bytes (offset + 8))
      λ len _. read_string_at-Safe bytes base end at len

pub read_optional_string-Safe :
    (bytes : Bytes) (base end offset : ℕ) → Safe (read_optional_string bytes base end offset) Any
unfolding read_optional_string
read_optional_string-Safe bytes base end offset =
    Safe-bind _ _ (read_unsigned-Safe 8 bytes offset) λ at _.
      Safe-bind _ _ (read_unsigned-Safe 4 bytes (offset + 8)) λ len _.
        if-Safe (at == 2 ^ 64 - 1 && len == 2 ^ 32 - 1) (Safe-ok none tt) (
          Safe-bind _ _ (read_string_at-Safe bytes base end at len)
            λ text _. Safe-ok (some text) tt)

pub read_strings-Safe :
    (bytes : Bytes) (end count cursor : ℕ)
    → Safe (read_strings bytes end count cursor) (λ read. All (λ text. is_utf8 text ≡ true) read.0)
unfolding read_strings
read_strings-Safe bytes end zero cursor = Safe-ok _ tt
read_strings-Safe bytes end (suc count) cursor =
    Safe-bind _ _ (check-Safe (ltb cursor end) truncated_list) λ _ _.
      Safe-bind _ _ (read_unsigned-Safe 4 bytes cursor) λ len _.
        Safe-bind _ _ (checked_range-Safe bytes (cursor + 4) len) λ _ h.
          Safe-bind _ _ (read_text-Safe bytes (cursor + 4) len h) λ text t.
            Safe-bind _ _ (read_strings-Safe bytes end count (cursor + 4 + len))
              λ rest ts. Safe-ok _ (t, ts)

pub read_string_list-Safe :
    (bytes : Bytes) (base string_end offset : ℕ)
    → Safe
        (read_string_list bytes base string_end offset)
        (λ texts. All (λ text. is_utf8 text ≡ true) texts)
unfolding read_string_list
read_string_list-Safe bytes base string_end offset =
    Safe-bind _ _ (read_unsigned-Safe 8 bytes offset) λ at _.
      Safe-bind _ _ (read_unsigned-Safe 4 bytes (offset + 8)) λ len _.
        Safe-bind _ _ (or_format-Safe (checked (base + at)) overflow) λ start _.
          Safe-bind _ _ (checked_range-Safe bytes start len) λ _ _.
            Safe-bind _ _ (checked_range_with_limit-Safe start len string_end) λ _ _.
              Safe-bind _ _ (read_unsigned-Safe 4 bytes start) λ count _.
                Safe-bind _ _ (read_strings-Safe bytes (start + len) count (start + 4))
                  λ read texts.
                    Safe-bind _ _ (check-Safe (read.1 == start + len) trailing_list_bytes)
                      λ _ _. Safe-ok _ texts

pub relation_kind-Safe : (byte : ℕ) → Safe (relation_kind byte) Any
unfolding relation_kind
relation_kind-Safe byte = if-Safe (byte == 0) (Safe-ok _ tt) (
    if-Safe (byte == 1) (Safe-ok _ tt) (
      if-Safe (byte == 2) (Safe-ok _ tt) (
        if-Safe (byte == 3) (Safe-ok _ tt) (
          if-Safe (byte == 4) (Safe-ok _ tt)
            (if-Safe (byte == 5) (Safe-ok _ tt) (Safe-err (format bad_relation_kind)))))))

pub read_relation-Safe : (bytes : Bytes) (offset : ℕ) → Safe (read_relation bytes offset) Any
unfolding read_relation
read_relation-Safe bytes offset =
    Safe-bind _ _ (checked_range-Safe bytes offset relation_len) λ _ h.
      Safe-bind _ _ (nth-Safe bytes (offset + 32) (omega arith)) λ byte _.
        Safe-bind _ _ (relation_kind-Safe byte) λ kind _.
          Safe-bind _ _ (read_unsigned-Safe 16 bytes offset) λ from _.
            Safe-bind _ _ (read_unsigned-Safe 16 bytes (offset + 16)) λ to _.
              Safe-bind _ _ (read_signed-Safe 2 bytes (offset + 33)) λ weight _. Safe-ok _ tt

pub read_relations-Safe :
    (bytes : Bytes) (id count at : ℕ)
    → Safe (read_relations bytes id count at) (λ edges. All (λ e. e.from ≡ id) edges)
unfolding read_relations
read_relations-Safe bytes id zero at = Safe-ok _ tt
read_relations-Safe bytes id (suc count) at = Safe-bind _ _ (read_relation-Safe bytes at) λ edge _.
    Safe-bind _ _ (check-Safe (edge.from == id) bad_relation_source) λ _ e.
      Safe-bind _ _ (read_relations-Safe bytes id count (at + relation_len))
        λ edges es. Safe-ok _ ((==_iff edge.from id).0 e, es)

pub read_bytes_signed-Safe :
    (bytes : Bytes) (count at : ℕ)
    → at + count ≤ length bytes
    → Safe (read_bytes_signed bytes count at) Any
unfolding read_bytes_signed
read_bytes_signed-Safe bytes zero at h = Safe-ok _ tt
read_bytes_signed-Safe bytes (suc count) at h =
    Safe-bind _ _ (nth-Safe bytes at (omega arith)) λ byte _.
      Safe-bind _ _ (read_bytes_signed-Safe bytes count (at + 1) (omega arith))
        λ rest _. Safe-ok _ tt

-- The metadata table lies in the file.
pub validate_sections-Safe :
    (bytes : Bytes) (count metadata strings relations index : ℕ)
    → Safe
        (validate_sections bytes count metadata strings relations index)
        (λ _. metadata + count * metadata_len ≤ length bytes)
unfolding validate_sections
validate_sections-Safe bytes count metadata strings relations index =
    Safe-bind _ _ (or_format-Safe (checked (count * metadata_len)) overflow) λ table t.
      Safe-bind _ _ (or_format-Safe (checked (metadata + table)) overflow) λ expected _.
        Safe-bind _ _ (check-Safe _ bad_sections) λ _ _.
          Safe-bind _ _ (checked_range-Safe bytes metadata table) λ _ inside.
            Safe-bind _ _ (checked_range-Safe bytes strings (relations - strings)) λ _ _.
              Safe-bind _ _ (checked_range-Safe bytes relations (index - relations)) λ _ _.
                Safe-bind _ _ (checked_range-Safe bytes index 16) λ _ last.
                  Safe-bind _ _ (slice-Safe bytes index 8 (omega arith)) λ marker _.
                    Safe-bind _ _ (check-Safe (bytes_eq marker index_marker) bad_index_marker)
                      λ _ _. Safe-bind _ _ (read_unsigned-Safe 8 bytes (index + 8)) λ indexed _.
                        Safe-imp (check-Safe (indexed == count) bad_index_count)
                          λ _ _. omega (arith, checked-some (count * metadata_len) t)
