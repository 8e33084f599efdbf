-- ===== src/Resp3.antt =====
-- crates/skeg-resp3: the RESP2 and RESP3 wire protocol.
pub mod Frame
pub mod Scan
pub mod Parser
pub mod Encoder
pub mod Decoder
pub mod Command
pub mod Dispatch
pub mod Connection
