-- ===== src/Retrieve.antt =====
-- crates/l5m-core/src/retrieve.rs: retrieval over one segment. The gates run on the tenant's
-- capsules before anything is scored; the phase timings of the source are left out.
pub mod Gates
pub mod Candidates
pub mod Rank
pub mod Relations
pub mod Run
