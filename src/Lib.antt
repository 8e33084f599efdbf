-- ===== src/Lib.antt =====
-- A verification library for skeg, a log-structured key-value store with a cache and vector
-- indexes.
--
-- The parts of the program and how they interact. A store (crates/skeg-core/src/vlog.rs) appends
-- records (record.rs) to segment files through a committer that batches writes (group_commit.rs),
-- and keeps an index (index.rs) from keys to the place of their newest record. On opening, it
-- scans the segments (segment.rs) and rebuilds the index, or loads an index snapshot (snapshot.rs)
-- and rescans the newer segments. Reads go through a cache (cache.rs). Clients speak a binary
-- protocol (crates/skeg-proto) of frames that carry requests and responses. Several tenants share
-- a store: their keys carry the tenant's id (crates/skeg-tenant), and the server keeps count of
-- what each one holds (crates/skeg-server/src/quota.rs).
--
-- Which file models which part:
--   Core/Record    crates/skeg-core/src/record.rs: encode_record, decode_record, padded_record_size.
--                  A buffer is a list of numbers below 256; `crc32c` is a parameter.
--   Core/Segment   crates/skeg-core/src/segment.rs: scan_file. The callback is the list of its calls.
--   Core/Index     crates/skeg-core/src/index.rs: the hash map is an association list.
--   Core/Recovery  crates/skeg-core/src/vlog.rs, open_shared and BatchGate: the recovery of the index.
--   Core/Cache     crates/skeg-core/src/cache.rs: S3Fifo. Each queue is a list, its front first; the
--                  state is passed on, and a loop that need not end is a function to Option.
--   Core/Snapshot  crates/skeg-core/src/snapshot.rs: encode and decode.
--   Core/Vlog      crates/skeg-core/src/vlog.rs: set_scoped, del and what they call, one call at a time;
--                  the committer's answer is a parameter, and so is whether a next segment file can
--                  be made. The charges of the tenants are shared with the other shards.
--   Core/GroupCommit  crates/skeg-core/src/group_commit.rs: flush_batch and the rounds of committer_task;
--                  what the system calls answer is a parameter of each round.
--   Proto/Frame    crates/skeg-proto/src/frame.rs, with op.rs in Proto/Op and flags.rs in Proto/Flags:
--                  FrameParser::feed passes its state on; encode_frame. Cuts has the loop of
--                  handle_connection in crates/skeg-server/src/handler.rs that calls it.
--   Proto/Request  crates/skeg-proto/src/request.rs: each encoder is its payload in a frame.
--   Proto/Response crates/skeg-proto/src/response.rs
--   Proto/Vector   crates/skeg-proto/src/vector.rs: an f32 is the number of its 32 bits.
--   Tenant         crates/skeg-tenant: Tenant/Namespace for src/id.rs and src/namespace.rs, Tenant/Quota
--                  for src/quota.rs, where each round of a compare-and-set loop is a step.
--   Resp3          crates/skeg-resp3/src: Frame for frame.rs and version.rs, Scan and Parser for
--                  parser.rs, Encoder for encoder.rs, Decoder for decoder.rs, Command and Dispatch for
--                  command.rs, Connection for connection.rs and handlers.rs. Strings are bytes, an f64
--                  is its bit pattern, and the text of an f64 is a parameter. A panic is a result.
--   Server         crates/skeg-server: Server/VectorQuota for src/quota.rs.
--   Server/Scope   the names of vector indexes: crates/skeg-server/src/resp3_handler.rs (the guard) and
--                  crates/skeg-server/src/shard.rs (scope_key, unscope_key).
--   Server/Registry the registry of vector indexes in crates/skeg-server/src/shard.rs.
--   Server/Mget    MGET over the shards in crates/skeg-server/src/shard.rs; what a shard answers for a key is
--                  a parameter.
--   Vector/Kind    the kinds of crates/skeg-vector/src/quant.rs and their wire bytes.
--   Tenant/Tracker the registry of quotas in crates/skeg-tenant/src/quota.rs: a handle is a position in a
--                  list of quotas, and the two parts of `entry` are actions of their own.
--   Server/Payload crates/skeg-server/src/payload.rs: Ids has the sorted id lists, Index the postings,
--                  Filter the evaluation and what a filter says of fields (Matches), Tokens,
--                  Predicate and Parser the text of filters, Fields that of payloads. A panic of
--                  BTreeMap::range is the value none.
--   Prelude        numbers, lists, little-endian fields, hash maps.
--   Tests          the theorems applied at concrete inputs.
--
-- Numbers and fuel. The parser of RESP frames recurs on the depth that is left of 128. The parser
-- of filters has four rounds for each token and four more, and each nested call takes one; the
-- stack of the source is not modelled. Sizes and offsets are natural numbers, cut by `% 2 ^ w`
-- where the code casts; a subtraction of usize in the cache wraps. scan_file has the length of the
-- file and one more as fuel; evict_from_main has the sum of the frequencies, the length of the
-- queue and the fair skips; the loop of insert_for has one round for each entry and two more, and
-- `none` there means that the call does not return.
--
-- Not modelled: the reads and the compaction of the store, the device-wide committer, the platform
-- layer and files (I/O and threads), the vector indexes and their SIMD kernels (floating point),
-- the servers around the store, telemetry.
pub mod Prelude
pub mod Core
pub mod Proto
pub mod Resp3
pub mod Server
pub mod Tenant
pub mod Tests
pub mod Vector
