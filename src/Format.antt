-- ===== src/Format.antt =====
-- crates/l5m-core/src/segment.rs and compiler.rs: the bytes of a segment file. A usize has 64 bits;
-- sums that the code does not check stay below the length of the file or of what is written, and
-- are written without their wrap-around.
pub mod Reader
pub mod Writer
pub mod Safe
use l5m.Prelude.{
  ℕ, zero, suc, ◌+◌, ◌-◌, ◌*◌, ◌^◌, Bool, true, false, ◌&&◌, ◌||◌, Option, none, some, List, [],
  ◌∷◌, ◌++◌, Bytes, ltb, leb, ◌==◌, if◌then◌else◌, length, take, drop, replicate, from_le,
}
use l5m.Prelude.Int.{ℤ, pos, negsuc}
use l5m.Platform.{Platform}
use l5m.Outcome.{
  Outcome, ok, err, panic, ◌>>=◌, ◌>>◌, FormatError, format, out_of_bounds, out_of_section,
}

-- "L5MSEG01" and "L5MIDX01".
abbrev pub magic : Bytes
magic = 76 ∷ 53 ∷ 77 ∷ 83 ∷ 69 ∷ 71 ∷ 48 ∷ 49 ∷ []

abbrev pub index_marker : Bytes
index_marker = 76 ∷ 53 ∷ 77 ∷ 73 ∷ 68 ∷ 88 ∷ 48 ∷ 49 ∷ []

abbrev pub version : ℕ
version = 1

abbrev pub header_len : ℕ
header_len = 128

abbrev pub hash_offset : ℕ
hash_offset = 72

abbrev pub hash_len : ℕ
hash_len = 32

abbrev pub embed_dim_offset : ℕ
embed_dim_offset = 104

abbrev pub vector_area_offset : ℕ
vector_area_offset = 108

abbrev pub metadata_len : ℕ
metadata_len = 340

abbrev pub relation_len : ℕ
relation_len = 37

abbrev pub none_i64 : ℕ
none_i64 = 2 ^ 63 - 1

-- Bits of `w` as a signed number.
unfoldable pub signed : ℕ → ℕ → ℤ
signed w n = if ltb n (2 ^ (w - 1)) then pos n else negsuc (2 ^ w - 1 - n)

-- `usize::checked_add`, `usize::checked_mul`.
abbrev pub checked : ℕ → Option ℕ
checked n = if ltb n (2 ^ 64) then some n else none

abbrev pub or_format {ℓ} : {A : Type ℓ} → Option A → FormatError → Outcome A
or_format none e = err (format e)
or_format (some a) e = ok a

-- `if !test { return Err(…) }`.
abbrev pub check : Bool → FormatError → Outcome (Unit {0})
check true e = ok tt
check false e = err (format e)

-- `&bytes[offset..offset + len]`.
unfoldable pub slice : Bytes → ℕ → ℕ → Outcome Bytes
slice bytes offset len =
    if leb (offset + len) (length bytes) then ok (take len (drop offset bytes)) else panic

unfoldable pub checked_range : Bytes → ℕ → ℕ → Outcome (Unit {0})
checked_range bytes offset len = elim (checked (offset + len)) [
  | none ↦ err (format out_of_bounds)
  | some end ↦ check (leb end (length bytes)) out_of_bounds
]

unfoldable pub checked_range_with_limit : ℕ → ℕ → ℕ → Outcome (Unit {0})
checked_range_with_limit offset len limit = elim (checked (offset + len)) [
  | none ↦ err (format out_of_section)
  | some end ↦ check (leb end limit) out_of_section
]

-- `read_array32` and, with the numbers that the bytes are, the other readers of a fixed width.
unfoldable pub read_array : ℕ → Bytes → ℕ → Outcome Bytes
unfolding checked_range slice
read_array width bytes offset = checked_range bytes offset width >> slice bytes offset width

unfoldable pub read_unsigned : ℕ → Bytes → ℕ → Outcome ℕ
unfolding read_array
read_unsigned width bytes offset = read_array width bytes offset >>= λ bs. ok (from_le bs)

unfoldable pub read_signed : ℕ → Bytes → ℕ → Outcome ℤ
unfolding read_unsigned signed
read_signed width bytes offset = read_unsigned width bytes offset >>= λ n. ok (signed (8 * width) n)

abbrev pub read_u32 : Bytes → ℕ → Outcome ℕ
read_u32 = read_unsigned 4

abbrev pub read_u64 : Bytes → ℕ → Outcome ℕ
read_u64 = read_unsigned 8

abbrev pub read_u128 : Bytes → ℕ → Outcome ℕ
read_u128 = read_unsigned 16

-- `segment_hash`: the hash of the file, with zeros where it is stored.
unfoldable pub segment_hash : Platform → Bytes → Bytes
segment_hash platform bytes =
    if ltb (length bytes) (hash_offset + hash_len)
    then platform.blake3 bytes
    else platform.blake3
        (take hash_offset bytes ++ replicate hash_len 0 ++ drop (hash_offset + hash_len) bytes)
