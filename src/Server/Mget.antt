-- ===== src/Server/Mget.antt =====
-- MGET over the shards: `shard_for`, `mget_scoped` and the shard's side of a batch in
-- crates/skeg-server/src/shard.rs. `xxh3_64` is the function of the xxhash crate. What a shard answers
-- for a key is a parameter, and so is whether it can be reached.
pub mod Places
pub mod Gathered
use skeg.Prelude.{
  ℕ, zero, suc, ◌+◌, ◌%◌, Bytes, List, [], ◌∷◌, ◌++◌, Option, none, some, replicate, length,
}

unfoldable pub shard_for : (Bytes → ℕ) → Bytes → ℕ → ℕ
shard_for xxh3_64 key n_shards = xxh3_64 key % n_shards

-- A shard's read of one key.
pub data Got : Type 0 where
  found : Option Bytes → Got
  failed : Bytes → Got

pub data ShardError : Type 0 where
  unavailable : ShardError
  busy : ShardError
  storage : Bytes → ShardError

-- A shard's reply to a batch; `gone` is the error of the channel that the reply was to come by.
pub data Reply : Type 0 where
  values : List (ℕ × Option Bytes) → Reply
  err : Bytes → Reply
  gone : Reply

abbrev pub push_value : ℕ → Got → Reply → Reply
push_value idx (failed e) rest = err e
push_value idx (found v) (values out) = values ((idx, v) ∷ out)
push_value idx (found v) (err e) = err e
push_value idx (found v) gone = gone

unfoldable pub mget_batch : (Bytes → Got) → List (ℕ × Bytes) → Reply
mget_batch get [] = values []
mget_batch get ((idx, key) ∷ items) = push_value idx (get key) (mget_batch get items)

abbrev pub Buckets : Type 0
Buckets = List (List (ℕ × Bytes))

unfoldable pub push_at : ℕ → ℕ × Bytes → Buckets → Buckets
push_at s item [] = []
push_at zero item (b ∷ bs) = (b ++ (item ∷ [])) ∷ bs
push_at (suc s) item (b ∷ bs) = b ∷ push_at s item bs

-- The loop over the keys from the `i`th on.
unfoldable pub fill : (Bytes → ℕ) → ℕ → ℕ → List Bytes → Buckets → Buckets
unfolding shard_for push_at
fill xxh3_64 n i [] buckets = buckets
fill xxh3_64 n i (key ∷ keys) buckets =
    fill xxh3_64 n (suc i) keys (push_at (shard_for xxh3_64 key n) (i, key) buckets)

unfoldable pub set_at : ℕ → Option Bytes → List (Option Bytes) → List (Option Bytes)
set_at i v [] = []
set_at zero v (x ∷ xs) = v ∷ xs
set_at (suc i) v (x ∷ xs) = x ∷ set_at i v xs

unfoldable pub write_values : List (ℕ × Option Bytes) → List (Option Bytes) → List (Option Bytes)
unfolding set_at
write_values [] result = result
write_values ((idx, v) ∷ items) result = write_values items (set_at idx v result)

pub data Mget : Type 0 where
  ok : List (Option Bytes) → Mget
  fails : ShardError → Mget

-- A shard whose channel takes no request, one that takes it and never replies, or one that serves it.
pub data Shard : Type 0 where
  closed silent : Shard
  serves : (Bytes → Got) → Shard

-- The send of a bucket; `none` is its failure.
unfoldable pub ask : Shard → List (ℕ × Bytes) → Option Reply
unfolding mget_batch
ask closed bucket = none
ask silent bucket = some gone
ask (serves get) bucket = some (mget_batch get bucket)

abbrev pub pend : Option Reply → Option (List Reply) → Option (List Reply)
pend none later = none
pend (some r) none = none
pend (some r) (some rs) = some (r ∷ rs)

-- The first loop: every bucket is sent, from shard `s` on, and an empty one asks nobody.
unfoldable pub send_all : (ℕ → Shard) → ℕ → Buckets → Option (List Reply)
unfolding ask
send_all shards s [] = some []
send_all shards s ([] ∷ bs) = send_all shards (suc s) bs
send_all shards s ((item ∷ b) ∷ bs) = pend (ask (shards s) (item ∷ b)) (send_all shards (suc s) bs)

-- The second loop: the replies in the order of the shards.
unfoldable pub collect : List Reply → List (Option Bytes) → Mget
unfolding write_values
collect [] result = ok result
collect (values items ∷ pending) result = collect pending (write_values items result)
collect (err e ∷ pending) result = fails (storage e)
collect (gone ∷ pending) result = fails unavailable

abbrev pub collect_sent : Option (List Reply) → List (Option Bytes) → Mget
collect_sent none result = fails unavailable
collect_sent (some pending) result = collect pending result

unfoldable pub gather : (ℕ → Shard) → ℕ → Buckets → List (Option Bytes) → Mget
unfolding send_all collect
gather shards s buckets result = collect_sent (send_all shards s buckets) result

unfoldable pub mget_scoped : (Bytes → ℕ) → (ℕ → Shard) → ℕ → List Bytes → Mget
unfolding fill gather
mget_scoped xxh3_64 shards n keys =
    gather shards 0 (fill xxh3_64 n 0 keys (replicate n [])) (replicate (length keys) none)
