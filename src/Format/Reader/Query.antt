-- ===== src/Format/Reader/Query.antt =====
-- crates/l5m-core/src/segment.rs and retrieve.rs: queries on a segment that was opened from bytes.
use l5m.Prelude.{◌*◌, ◌^◌, ◌≤◌, ◌≡◌, Bytes, length, arith}
use l5m.Platform.{Platform}
use l5m.Outcome.{ok, ReturnsOrPanics}
use l5m.Frame.{MemoryProbe}
use l5m.Segment.Query.{Segment}
use l5m.Retrieve.Candidates.{RetrievalConfig}
use l5m.Retrieve.Run.{retrieve_with_config}
use l5m.Retrieve.Run.Authorized.{IsAuthorized, ScoresNan, retrieve_with_config-IsAuthorized}
use l5m.Retrieve.Rank.Numbers.{IsIeee}
use l5m.Format.{metadata_len}
use l5m.Format.Safe.{Safe-of_ok}
use l5m.Format.Reader.{from_bytes}
use l5m.Format.Reader.Sound.{from_bytes-Safe}

-- A file below 1.4 terabytes that opens, whoever wrote it, is safe to query: every query returns a
-- frame that is authorized as in a segment that the store has built itself, unless there is NaN
-- among the scores that it sorts by, as the embeddings in the file may bring about. Floats other
-- than NaN are to compare in a total order.
pub from_bytes-IsAuthorized :
    (platform : Platform) (bytes : Bytes) (s : Segment platform.F32)
    (probe : MemoryProbe platform.F32) (config : RetrievalConfig platform.F64)
    → IsIeee platform
    → length bytes ≤ 2 ^ 32 * metadata_len
    → from_bytes platform bytes ≡ ok s
    → ReturnsOrPanics
        (retrieve_with_config platform s probe config)
        (IsAuthorized platform s probe)
        (ScoresNan platform s probe config.embed_rrf_k)
from_bytes-IsAuthorized platform bytes s probe config ieee small opens =
    let opened = Safe-of_ok (from_bytes-Safe platform bytes) opens in
    retrieve_with_config-IsAuthorized platform s probe config ieee (record {
      built = opened.built;
      distinct = opened.distinct;
      small = omega (arith, opened.bounded);
    })
