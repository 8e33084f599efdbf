-- ===== src/Server/Payload.antt =====
-- crates/skeg-server/src/payload.rs: the fields of a vector's payload, the index over them, and the
-- filters that the index answers.
pub mod Ids
pub mod Value
pub mod Index
pub mod Filter
pub mod Tokens
pub mod Predicate
pub mod Parser
pub mod Fields
