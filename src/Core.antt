-- ===== src/Core.antt =====
-- crates/skeg-core: the value log and what it is made of.
pub mod Error
pub mod Record
pub mod Segment
pub mod Index
pub mod Recovery
pub mod Cache
pub mod Snapshot
pub mod GroupCommit
pub mod Vlog
