-- ===== src/Lib.antt =====
-- l5m: a memory store for agents in which every query passes hard gates before anything is scored.
--
-- Parts. A bit set (crates/l5m-core/src/bitset.rs: BitSet) holds the ordinals of candidates. An
-- index (index.rs: Index/Lsh, Index/Build) is built once over the capsules of a segment
-- (segment.rs: Segment/Query). A query (retrieve.rs: Retrieve) runs through the index: the gate
-- scan (Retrieve/Gates: gate_scan), the lookup by entities and anchors and the choice of candidates
-- (Retrieve/Candidates: lookup_scan, scored_ordinals), scoring, fusion and the token budget
-- (Retrieve/Rank: ranked_capsules, with scoring.rs: Scoring), the expansion of relations
-- (Retrieve/Relations: expand_relations), and the whole (Retrieve/Run: retrieve_with_config). The
-- store (store.rs and wal.rs: Store) keeps base segments, sealed runs and a write buffer, and
-- counts what it does (metrics.rs: Metrics). The file of its log is read and written by wal.rs
-- (Wal: append, replay). The types are those of capsule.rs and relation.rs (Capsule), frame.rs and
-- the record of probe.rs (Frame) and error.rs (Outcome). Paths without a directory are below
-- crates/l5m-core/src.
--
-- A segment file (Format) is written by compiler.rs (Format/Writer: assemble_segment) and read,
-- from bytes that nobody vouches for, by segment.rs (Format/Reader: from_bytes). Capsules come from
-- JSON and go back to it in compiler.rs (Ingest: into_capsule, capsule_to_json), with the terms and
-- fingerprints of probe.rs (Probe: extract_terms, semantic_bits_for_terms, residual_for_terms). The
-- audit log of audit.rs is a chain of hashes (Audit: record_query, verify_chain). Product memories
-- (product.rs) become capsules in Product, and crypto.rs (Crypto: seal, unseal) encrypts a segment.
-- The store's query is Store/Modes: query, over its modes.
--
-- The server (crates/l5m-server/src) resolves who asks (principal.rs: Server/Principal:
-- header_principal, jwt_principal), limits the rate (ratelimit.rs: Server/Limit: allow) and asks
-- both before each handler (lib.rs: Server/Authorize: authorize, insert_memory, delete_memory;
-- Server/Query: query_memory, which writes an audit record of what it discloses).
--
-- How the code is read. A struct is a record with the code's fields, a call that can fail returns
-- an Outcome: ok, an error, or the panic of a failed assertion or an index out of bounds. Loops are
-- recursions on the list that they run over, with the variables that the body assigns as state. A
-- 128-bit or 64-bit number is a natural number; sums that can wrap around are written modulo 2 ^ 64
-- (Metrics, the epochs of Store) or 2 ^ 32 (the ordinals that the index stores), and the age of a
-- capsule wraps around in 64 signed bits, as in a release build. Floats, their operations and the
-- BLAKE3 hash are parameters (Platform), about which nothing is assumed but what a theorem names. A
-- sort by floats (Sorting: std_sort_by) is the stable sort where its comparison is a total order of
-- the elements; where it is not, as with NaN among the scores, the standard library panics or
-- leaves some order, which is a parameter (Platform: unordered). A HashMap is an association list
-- and a HashSet a list (Prelude/Map, Prelude/Set); where the code lists the values of a map, their
-- order is a parameter (Store/Modes: arrange). The bit set's iterator runs on one round for each
-- bit and each word, which is enough: it yields all the indices.
--
-- Files are their bytes, and writing to them succeeds. A file is read as its lines, with an error
-- where one is not UTF-8 (Audit: for_each_line). The JSON library is a parameter where lines of a
-- log are printed and read (Audit, Wal), with what is asked of it as hypotheses; a JSON body is the
-- record of its fields, in which a float that is not finite is null (Ingest). The numbers that are
-- printed have at most 39 decimal and 32 hexadecimal digits, which are enough for 128 bits. Lookups
-- by an ordinal of a loop in a slice that the code has checked are written without the wrap-around
-- of a usize: all offsets that are used lie in the file.
--
-- Not modelled: the JSON text, the memory map and the paths of files, the manifest of the compiler,
-- the cipher, compact_to, the response record of the store's query, the JWKS provider, the server's
-- reports and admin_checkpoint, the MCP server, the command line, the files that the product
-- compiler writes and the benchmarks. Store keeps the log as the list of its operations.
pub mod Prelude
pub mod Platform
pub mod Outcome
pub mod Sorting
pub mod Capsule
pub mod Frame
pub mod BitSet
pub mod Index
pub mod Segment
pub mod Scoring
pub mod Retrieve
pub mod Metrics
pub mod Store
pub mod Audit
pub mod Format
pub mod Crypto
pub mod Probe
pub mod Product
pub mod Ingest
pub mod Wal
pub mod Server
pub mod Tests
