-- ===== src/Index.antt =====
-- crates/l5m-core/src/index.rs: the lookup structures that are built over a segment's capsules.
-- Ordinals are positions in the segment. A HashMap is an association list, and nothing depends on
-- its order.
pub mod Below
pub mod Lsh
pub mod Build
