-- ===== src/Segment.antt =====
-- crates/l5m-core/src/segment.rs: a segment in memory.
pub mod Query
pub mod Ids
