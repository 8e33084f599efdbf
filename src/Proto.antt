-- ===== src/Proto.antt =====
-- crates/skeg-proto: the binary protocol between clients and the server.
pub mod Error
pub mod Op
pub mod Flags
pub mod Frame
pub mod Request
pub mod Vector
pub mod Response
