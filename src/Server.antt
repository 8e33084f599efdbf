-- ===== src/Server.antt =====
-- crates/skeg-server: the pure parts of the server.
pub mod VectorQuota
pub mod Mget
pub mod Payload
pub mod Registry
pub mod Scope
