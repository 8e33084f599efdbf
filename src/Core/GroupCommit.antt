-- ===== src/Core/GroupCommit.antt =====
-- crates/skeg-core/src/group_commit.rs: the committer of one file. `file` is what a reader of the file
-- sees, `flushed` what survives a kernel panic (sync_data), `durable` what survives a power loss
-- (sync_durable). What the system calls answer is an `Outcome`, a
-- parameter of each flush.
pub mod Acked
pub mod Rounds
use skeg.Prelude.{
  ℕ, ◌+◌, ◌*◌, ◌%◌, ◌^◌, Bytes, List, [], ◌∷◌, ◌++◌, Bool, true, false, not, ◌||◌, take, drop,
  length, leb, if◌then◌else◌,
}

abbrev pub max_batch_bytes : ℕ
max_batch_bytes = 256 * 1024

abbrev pub max_batch_entries : ℕ
max_batch_entries = 256

pub data Durability : Type 0 where
  relaxed kernel power : Durability

pub record WriteReq : Type 0 where
  pub bytes : Bytes
  pub durability : Durability

-- What a waiter is told: its offset and size, or the error.
pub data Reply : Type 0 where
  written : ℕ → ℕ → Reply
  failed : Reply

-- Whether the write and each kind of sync succeed, and how many bytes a failing write still leaves.
pub record Outcome : Type 0 where
  pub write_ok : Bool
  pub sync_data_ok : Bool
  pub sync_durable_ok : Bool
  pub partial : ℕ

pub record Committer : Type 0 where
  pub file : Bytes
  pub flushed : Bytes
  pub durable : Bytes
  pub w_offset : ℕ
  pub batch : List WriteReq
  pub batch_bytes : ℕ

-- A write over what stands at the offset, which the file reaches.
unfoldable pub write_at : ℕ → Bytes → Bytes → Bytes
write_at offset bytes file = take offset file ++ (bytes ++ drop (offset + length bytes) file)

-- The buffers of the batch, one behind the other.
abbrev pub chunks : List WriteReq → Bytes
chunks [] = []
chunks (r ∷ rs) = r.bytes ++ chunks rs

abbrev pub offsets : ℕ → List WriteReq → List Reply
offsets pos [] = []
offsets pos (r ∷ rs) = written pos (length r.bytes % 2 ^ 32) ∷ offsets (pos + length r.bytes) rs

abbrev pub all_failed : List WriteReq → List Reply
all_failed [] = []
all_failed (r ∷ rs) = failed ∷ all_failed rs

-- `max` in the derived order.
unfoldable pub stronger : Durability → Durability → Durability
stronger relaxed d = d
stronger kernel relaxed = kernel
stronger kernel kernel = kernel
stronger kernel power = power
stronger power d = power

-- The strongest tier that a request of the batch asks for.
unfoldable pub batch_durability : List WriteReq → Durability
unfolding stronger
batch_durability [] = relaxed
batch_durability (r ∷ rs) = stronger r.durability (batch_durability rs)

-- Whether the sync of the tier succeeds; there is none for `Relaxed`.
unfoldable pub sync_result : Outcome → Durability → Bool
sync_result env relaxed = true
sync_result env kernel = env.sync_data_ok
sync_result env power = env.sync_durable_ok

-- What the sync of the tier makes of the file.
unfoldable pub synced : Durability → Committer → Committer
synced relaxed c = c
synced kernel c = record c { flushed = c.file }
synced power c = record c { flushed = c.file; durable = c.file }

unfoldable pub is_empty_batch : List WriteReq → Bool
is_empty_batch [] = true
is_empty_batch (r ∷ rs) = false

-- After a write that succeeded.
unfoldable pub after_write : Outcome → List WriteReq → Committer → Committer × List Reply
unfolding batch_durability sync_result synced
after_write env reqs c =
    let tier = batch_durability reqs in
    let pos = c.w_offset + length (chunks reqs) in
    if sync_result env tier
    then (synced tier (record c { batch = []; w_offset = pos }), offsets c.w_offset reqs)
    else (record c { batch = [] }, all_failed reqs)

unfoldable pub flush_batch : Outcome → Committer → Committer × List Reply
unfolding after_write write_at is_empty_batch
flush_batch env c =
    if is_empty_batch c.batch
    then (c, [])
    else if env.write_ok
    then after_write env c.batch (record c { file = write_at c.w_offset (chunks c.batch) c.file })
    else (
      record c {
        batch = [];
        file = write_at c.w_offset (take env.partial (chunks c.batch)) c.file;
      },
      all_failed c.batch,
    )

pub data Msg : Type 0 where
  write : WriteReq → Msg
  flush : Msg
  timer : Msg

-- `Ok` and `Err` for the caller of `flush`.
pub data FlushReply : Type 0 where
  flush_ok flush_err no_flush : FlushReply

unfoldable pub flush_and_reset : Outcome → Committer → Committer × List Reply
unfolding flush_batch
flush_and_reset env c =
    let (c', replies) = flush_batch env c in (record c' { batch_bytes = 0 }, replies)

unfoldable pub push : WriteReq → Committer → Committer
push req c = record c {
  batch = c.batch ++ (req ∷ []);
  batch_bytes = c.batch_bytes + length req.bytes;
}

unfoldable pub is_full : Committer → Bool
is_full c = leb max_batch_bytes c.batch_bytes || leb max_batch_entries (length c.batch)

-- One round of `committer_task`.
unfoldable pub on_msg : Outcome → Msg → Committer → Committer × List Reply × FlushReply
unfolding flush_and_reset push is_full
on_msg env (write req) c =
    let pushed = push req c in
    if is_full pushed
    then (let (c', replies) = flush_and_reset env pushed in (c', replies, no_flush))
    else (pushed, [], no_flush)
on_msg env flush c = let (c', replies) = flush_and_reset env c in (c', replies, flush_ok)
on_msg env timer c =
    if is_empty_batch c.batch
    then (c, [], no_flush)
    else (let (c', replies) = flush_and_reset env c in (c', replies, no_flush))
