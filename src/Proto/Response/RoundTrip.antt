-- ===== src/Proto/Response/RoundTrip.antt =====
-- What the server answers is what a client reads.
use skeg.Prelude.{
  ℕ, zero, suc, ◌+◌, ◌^◌, ◌<◌, ◌≤◌, ◌≡◌, refl, ap, sym, arith, Bytes, List, [], ◌∷◌, ◌++◌, Option,
  none, some, Bool, true, false, to_le, drop, length, ltb, leb, le→ltb, All, append-nil,
  length-append, drop-next, slice-at, drop-next_le, from_le-at, length-at,
}
use skeg.Proto.Response.{
  NativeCapabilities, ServerStats, ShardStats, capabilities_reply, value_reply, bool_reply,
  put_result, put_results, mget_reply, stats_reply, put_shard, put_shards, shards_reply,
  decode_native_capabilities_response, decode_value_response, decode_bool_response,
  decode_u64_response, shard_at, decode_shards, decode_shards_response, decode_stats_response,
  decode_results, decode_mget_response,
}

decode_bool_response-bool_reply :
    (answer : Bool) → decode_bool_response (bool_reply answer) ≡ answer
unfolding decode_bool_response bool_reply
decode_bool_response-bool_reply true = refl
decode_bool_response-bool_reply false = refl

-- A value of less than 4 GiB, a number of 64 bits, a truth value and the capabilities come back as
-- they were sent.
pub decode_value_response-value_reply :
    (value : Bytes) (val : ℕ) (answer : Bool) (c : NativeCapabilities)
    → length value < 2 ^ 32
    → val < 2 ^ 64
    → (decode_value_response (value_reply value) ≡ some value)
      × (decode_u64_response (to_le 8 val) ≡ val)
      × (decode_bool_response (bool_reply answer) ≡ answer)
      × (decode_native_capabilities_response (capabilities_reply c) ≡ some c)
unfolding decode_value_response value_reply decode_u64_response decode_bool_response bool_reply
    decode_native_capabilities_response capabilities_reply
decode_value_response-value_reply value val answer c hv hn =
    let buf = to_le 4 (length value) ++ value in
    let len = from_le-at 0 4 (length value) buf value refl hv in
    (
      rw
          (
            len,
            le→ltb (length buf) 4 (omega arith),
            le→ltb (length buf) (4 + length value) (omega arith),
            slice-at 4 (length value) buf value [] (sym (append-nil value)) refl,
          )
          refl,
      from_le-at 0 8 val (to_le 8 val) [] refl hn,
      decode_bool_response-bool_reply answer,
      refl,
    )

pub record IsStats (s : ServerStats) : Type 0 where
  pub cache_bytes_fits : s.cache_bytes < 2 ^ 64
  pub cache_evictions_fits : s.cache_evictions < 2 ^ 64
  pub n_keys_fits : s.n_keys < 2 ^ 64
  pub cache_budget_fits : s.cache_budget < 2 ^ 64

-- The statistics come back as they were sent, for counters of 64 bits.
pub decode_stats_response-stats_reply :
    (s : ServerStats) → IsStats s → decode_stats_response (stats_reply s) ≡ some s
unfolding decode_stats_response stats_reply
decode_stats_response-stats_reply s h =
    let t3 = to_le 8 s.cache_budget in
    let t2 = to_le 8 s.n_keys ++ t3 in
    let t1 = to_le 8 s.cache_evictions ++ t2 in
    let buf = to_le 8 s.cache_bytes ++ t1 in
    λ i. some (record {
      cache_bytes = from_le-at 0 8 s.cache_bytes buf t1 refl h.cache_bytes_fits i;
      cache_evictions = from_le-at 8 8 s.cache_evictions buf t2 refl h.cache_evictions_fits i;
      n_keys = from_le-at 16 8 s.n_keys buf t3 refl h.n_keys_fits i;
      cache_budget = from_le-at 24 8 s.cache_budget buf [] refl h.cache_budget_fits i;
    })

abbrev pub IsResult : Option Bytes → Type 0
IsResult none = Unit
IsResult (some v) = length v < 2 ^ 32

decode_results-put_results :
    (rs : List (Option Bytes)) (n pos : ℕ) (buf : Bytes)
    → All IsResult rs
    → length rs ≡ n
    → drop pos buf ≡ put_results rs
    → decode_results n pos buf ≡ rs
unfolding decode_results put_result
decode_results-put_results [] zero pos buf h hn at_pos = refl
decode_results-put_results [] (suc n) pos buf h hn at_pos = absurd (omega arith)
decode_results-put_results (r ∷ rs) zero pos buf h hn at_pos = absurd (omega arith)
decode_results-put_results (none ∷ rs) (suc n) pos buf (hr, h) hn at_pos =
    let rest = put_results rs in
    let status = slice-at pos 1 buf (1 ∷ []) rest at_pos refl in
    let at1 = drop-next pos 1 buf (1 ∷ []) rest at_pos refl in
    let size = length-at pos buf (1 ∷ []) rest at_pos (omega arith) in
    let inside : leb (length buf) pos ≡ false = ground arith in
    rw (inside, status)
      (ap (λ l. none ∷ l) (decode_results-put_results rs n (pos + 1) buf h (omega arith) at1))
decode_results-put_results (some v ∷ rs) (suc n) pos buf (hr, h) hn at_pos =
    let k = length v in
    let rest = put_results rs in
    let tail = v ++ rest in
    let at0 : drop pos buf ≡ (0 ∷ []) ++ (to_le 4 k ++ tail) = at_pos in
    let status = slice-at pos 1 buf (0 ∷ []) (to_le 4 k ++ tail) at0 refl in
    let at1 = drop-next pos 1 buf (0 ∷ []) (to_le 4 k ++ tail) at0 refl in
    let at2 = drop-next_le (pos + 1) 4 k (pos + 5) buf tail at1 (omega arith) in
    let at3 = drop-next (pos + 5) k buf v rest at2 refl in
    let size = length-at (pos + 1) buf (to_le 4 k) tail at1 (omega arith) in
    let inside : leb (length buf) pos ≡ false = ground arith in
    let head_in : ltb (length buf) (pos + 5) ≡ false =
      le→ltb (length buf) (pos + 5) (omega arith) in
    let value_in : ltb (length buf) (pos + 5 + k) ≡ false =
      le→ltb (length buf) (pos + 5 + k) (omega (arith, length-append v rest)) in
    rw
      (
        inside,
        status,
        from_le-at (pos + 1) 4 k buf tail at1 hr,
        head_in,
        value_in,
        slice-at (pos + 5) k buf v rest at2 refl,
      )
      (ap (λ l. some v ∷ l) (decode_results-put_results rs n (pos + 5 + k) buf h (omega arith) at3))

-- The results of an MGET come back as they were sent, found or missing, in order, for less than 2^32
-- results of less than 4 GiB each.
pub decode_mget_response-mget_reply :
    (results : List (Option Bytes))
    → length results < 2 ^ 32
    → All IsResult results
    → decode_mget_response (mget_reply results) ≡ results
unfolding decode_mget_response mget_reply
decode_mget_response-mget_reply results hn h =
    let body = put_results results in
    let buf = to_le 4 (length results) ++ body in
    rw (le→ltb (length buf) 4 (omega arith), from_le-at 0 4 (length results) buf body refl hn)
      (decode_results-put_results results (length results) 4 buf h refl refl)

pub record IsShard (s : ShardStats) : Type 0 where
  pub shard_id_fits : s.shard_id < 2 ^ 32
  pub cache_bytes_fits : s.cache_bytes < 2 ^ 64
  pub cache_evictions_fits : s.cache_evictions < 2 ^ 64
  pub n_keys_fits : s.n_keys < 2 ^ 64
  pub cache_budget_fits : s.cache_budget < 2 ^ 64

shard_at-put_shard :
    (pos : ℕ) (buf : Bytes) (s : ShardStats) (rest : Bytes)
    → drop pos buf ≡ put_shard s rest
    → IsShard s
    → (shard_at pos buf ≡ s) × (drop (pos + 36) buf ≡ rest) × (pos + 36 ≤ length buf)
unfolding shard_at put_shard
shard_at-put_shard pos buf s rest at0 h =
    let t4 = to_le 8 s.cache_budget ++ rest in
    let t3 = to_le 8 s.n_keys ++ t4 in
    let t2 = to_le 8 s.cache_evictions ++ t3 in
    let t1 = to_le 8 s.cache_bytes ++ t2 in
    let at1 = drop-next_le pos 4 s.shard_id (pos + 4) buf t1 at0 refl in
    let at2 = drop-next_le (pos + 4) 8 s.cache_bytes (pos + 12) buf t2 at1 (omega arith) in
    let at3 = drop-next_le (pos + 12) 8 s.cache_evictions (pos + 20) buf t3 at2 (omega arith) in
    let at4 = drop-next_le (pos + 20) 8 s.n_keys (pos + 28) buf t4 at3 (omega arith) in
    let at5 = drop-next_le (pos + 28) 8 s.cache_budget (pos + 36) buf rest at4 (omega arith) in
    let size = length-at (pos + 28) buf (to_le 8 s.cache_budget) rest at4 (omega arith) in
    (
      λ i. record {
        shard_id = from_le-at pos 4 s.shard_id buf t1 at0 h.shard_id_fits i;
        cache_bytes = from_le-at (pos + 4) 8 s.cache_bytes buf t2 at1 h.cache_bytes_fits i;
        cache_evictions =
            from_le-at (pos + 12) 8 s.cache_evictions buf t3 at2 h.cache_evictions_fits i;
        n_keys = from_le-at (pos + 20) 8 s.n_keys buf t4 at3 h.n_keys_fits i;
        cache_budget = from_le-at (pos + 28) 8 s.cache_budget buf rest at4 h.cache_budget_fits i;
      },
      at5,
      omega (arith, size),
    )

decode_shards-put_shards :
    (rows : List ShardStats) (n pos : ℕ) (buf : Bytes)
    → All IsShard rows
    → length rows ≡ n
    → drop pos buf ≡ put_shards rows
    → decode_shards n pos buf ≡ rows
unfolding decode_shards
decode_shards-put_shards [] zero pos buf h hn at_pos = refl
decode_shards-put_shards [] (suc n) pos buf h hn at_pos = absurd (omega arith)
decode_shards-put_shards (r ∷ rows) zero pos buf h hn at_pos = absurd (omega arith)
decode_shards-put_shards (r ∷ rows) (suc n) pos buf (hr, h) hn at_pos =
    let (row, next, inside) = shard_at-put_shard pos buf r (put_shards rows) at_pos hr in
    rw (le→ltb (length buf) (pos + 36) inside, row)
      (ap (λ l. r ∷ l) (decode_shards-put_shards rows n (pos + 36) buf h (omega arith) next))

-- The statistics of the shards come back as they were sent, in order, for fields that fit and less
-- than 2^32 rows.
pub decode_shards_response-shards_reply :
    (rows : List ShardStats)
    → length rows < 2 ^ 32
    → All IsShard rows
    → decode_shards_response (shards_reply rows) ≡ rows
unfolding decode_shards_response shards_reply
decode_shards_response-shards_reply rows hn h =
    let body = put_shards rows in
    let buf = to_le 4 (length rows) ++ body in
    rw (le→ltb (length buf) 4 (omega arith), from_le-at 0 4 (length rows) buf body refl hn)
      (decode_shards-put_shards rows (length rows) 4 buf h refl refl)
