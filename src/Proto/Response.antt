-- ===== src/Proto/Response.antt =====
-- crates/skeg-proto/src/response.rs: the payloads of the responses. `from_utf8_lossy` is the
-- conversion of the standard library from bytes to a string, seen as bytes.
pub mod RoundTrip
pub mod Listing
use skeg.Prelude.{
  ℕ, zero, suc, ◌+◌, ◌%◌, ◌/◌, ◌^◌, min, Bytes, List, [], ◌∷◌, ◌++◌, Option, none, some, Bool, true,
  false, not, from_le, to_le, slice, take, length, ltb, leb, ◌==◌, if◌then◌else◌,
}
use skeg.Proto.Op
use skeg.Proto.Flags.{empty}
use skeg.Proto.Frame.{encode_frame}
use skeg.Proto.Vector.{NativeVectorKindV2, kind_to_u8}

pub data ErrCode : Type 0 where
  not_found invalid_request internal : ErrCode

unfoldable pub code_to_u8 : ErrCode → ℕ
code_to_u8 not_found = 1
code_to_u8 invalid_request = 2
code_to_u8 internal = 3

pub record NativeCapabilities : Type 0 where
  pub protocol_version : ℕ
  pub vector_kind_mask : ℕ

-- The bit of the kind in the mask.
unfoldable pub supports : NativeCapabilities → NativeVectorKindV2 → Bool
unfolding kind_to_u8
supports c kind = not (c.vector_kind_mask / 2 ^ kind_to_u8 kind % 2 == 0)

unfoldable pub encode_ok : ℕ → Bytes
encode_ok req_id = encode_frame Op.ok_reply empty req_id []

unfoldable pub capabilities_reply : NativeCapabilities → Bytes
capabilities_reply c = c.protocol_version ∷ (c.vector_kind_mask ∷ [])

unfoldable pub encode_ok_native_capabilities : ℕ → NativeCapabilities → Bytes
unfolding capabilities_reply
encode_ok_native_capabilities req_id c =
    encode_frame Op.ok_reply empty req_id (capabilities_reply c)

unfoldable pub decode_native_capabilities_response : Bytes → Option NativeCapabilities
decode_native_capabilities_response (version ∷ (mask ∷ [])) =
    some (record { protocol_version = version; vector_kind_mask = mask })
decode_native_capabilities_response _ = none

unfoldable pub value_reply : Bytes → Bytes
value_reply value = to_le 4 (length value) ++ value

unfoldable pub encode_ok_value : ℕ → Bytes → Bytes
unfolding value_reply
encode_ok_value req_id value = encode_frame Op.ok_reply empty req_id (value_reply value)

unfoldable pub encode_ok_u64 : ℕ → ℕ → Bytes
encode_ok_u64 req_id val = encode_frame Op.ok_reply empty req_id (to_le 8 val)

unfoldable pub bool_reply : Bool → Bytes
bool_reply true = 1 ∷ []
bool_reply false = 0 ∷ []

unfoldable pub encode_ok_bool : ℕ → Bool → Bytes
unfolding bool_reply
encode_ok_bool req_id val = encode_frame Op.ok_reply empty req_id (bool_reply val)

unfoldable pub put_result : Option Bytes → Bytes
put_result (some v) = 0 ∷ (to_le 4 (length v) ++ v)
put_result none = 1 ∷ []

abbrev pub put_results : List (Option Bytes) → Bytes
put_results [] = []
put_results (r ∷ rs) = put_result r ++ put_results rs

unfoldable pub mget_reply : List (Option Bytes) → Bytes
unfolding put_result
mget_reply results = to_le 4 (length results) ++ put_results results

unfoldable pub encode_ok_mget : ℕ → List (Option Bytes) → Bytes
unfolding mget_reply
encode_ok_mget req_id results = encode_frame Op.ok_reply empty req_id (mget_reply results)

pub record ServerStats : Type 0 where
  pub cache_bytes : ℕ
  pub cache_evictions : ℕ
  pub n_keys : ℕ
  pub cache_budget : ℕ

pub record ShardStats : Type 0 where
  pub shard_id : ℕ
  pub cache_bytes : ℕ
  pub cache_evictions : ℕ
  pub n_keys : ℕ
  pub cache_budget : ℕ

pub record VindexInfo : Type 0 where
  pub name : Bytes
  pub dim : ℕ
  pub kind : ℕ
  pub backend : ℕ
  pub n_vectors : ℕ

unfoldable pub stats_reply : ServerStats → Bytes
stats_reply s =
    to_le 8 s.cache_bytes
    ++ (to_le 8 s.cache_evictions ++ (to_le 8 s.n_keys ++ to_le 8 s.cache_budget))

unfoldable pub encode_ok_stats : ℕ → ServerStats → Bytes
unfolding stats_reply
encode_ok_stats req_id stats = encode_frame Op.ok_reply empty req_id (stats_reply stats)

-- One row, before what stands behind it.
unfoldable pub put_info : VindexInfo → Bytes → Bytes
put_info r rest =
    to_le 2 (length r.name)
    ++ (r.name
        ++ (to_le 4 r.dim
            ++ (to_le 1 r.kind ++ (to_le 1 r.backend ++ (to_le 8 r.n_vectors ++ rest)))))

abbrev pub put_infos : List VindexInfo → Bytes
put_infos [] = []
put_infos (r ∷ rows) = put_info r (put_infos rows)

unfoldable pub vindex_list_reply : List VindexInfo → Bytes
unfolding put_info
vindex_list_reply rows = to_le 4 (length rows) ++ put_infos rows

unfoldable pub encode_ok_vindex_list : ℕ → List VindexInfo → Bytes
unfolding vindex_list_reply
encode_ok_vindex_list req_id rows = encode_frame Op.ok_reply empty req_id (vindex_list_reply rows)

unfoldable pub put_shard : ShardStats → Bytes → Bytes
put_shard r rest =
    to_le 4 r.shard_id
    ++ (to_le 8 r.cache_bytes
        ++ (to_le 8 r.cache_evictions ++ (to_le 8 r.n_keys ++ (to_le 8 r.cache_budget ++ rest))))

abbrev pub put_shards : List ShardStats → Bytes
put_shards [] = []
put_shards (r ∷ rows) = put_shard r (put_shards rows)

unfoldable pub shards_reply : List ShardStats → Bytes
unfolding put_shard
shards_reply rows = to_le 4 (length rows) ++ put_shards rows

unfoldable pub encode_ok_shards : ℕ → List ShardStats → Bytes
unfolding shards_reply
encode_ok_shards req_id rows = encode_frame Op.ok_reply empty req_id (shards_reply rows)

-- The message is cut to 255 bytes.
unfoldable pub error_reply : ErrCode → Bytes → Bytes
unfolding code_to_u8
error_reply code msg =
    let msg_len = min (length msg) 255 in code_to_u8 code ∷ (msg_len ∷ take msg_len msg)

unfoldable pub encode_err : ℕ → ErrCode → Bytes → Bytes
unfolding error_reply
encode_err req_id code msg = encode_frame Op.err_reply empty req_id (error_reply code msg)

unfoldable pub decode_value_response : Bytes → Option Bytes
decode_value_response payload =
    let val_len = from_le (slice 0 4 payload) in
    if ltb (length payload) 4
    then none
    else if ltb (length payload) (4 + val_len)
    then none
    else some (slice 4 val_len payload)

unfoldable pub decode_bool_response : Bytes → Bool
decode_bool_response [] = false
decode_bool_response (b ∷ rest) = not (b == 0)

unfoldable pub decode_u64_response : Bytes → ℕ
decode_u64_response payload = if ltb (length payload) 8 then 0 else from_le (slice 0 8 payload)

unfoldable pub info_at : (Bytes → Bytes) → ℕ → ℕ → Bytes → VindexInfo
info_at from_utf8_lossy pos nlen payload = record {
  name = from_utf8_lossy (slice pos nlen payload);
  dim = from_le (slice (pos + nlen) 4 payload);
  kind = from_le (slice (pos + nlen + 4) 1 payload);
  backend = from_le (slice (pos + nlen + 5) 1 payload);
  n_vectors = from_le (slice (pos + nlen + 6) 8 payload);
}

-- The loops over `n` rows stop at the first one that is cut.
unfoldable pub decode_infos : (Bytes → Bytes) → ℕ → ℕ → Bytes → List VindexInfo
unfolding info_at
decode_infos from_utf8_lossy zero pos payload = []
decode_infos from_utf8_lossy (suc n) pos payload =
    let nlen = from_le (slice pos 2 payload) in
    let rest = decode_infos from_utf8_lossy n (pos + 2 + nlen + 14) payload in
    if ltb (length payload) (pos + 2)
    then []
    else if ltb (length payload) (pos + 2 + nlen + 4 + 1 + 1 + 8)
    then []
    else info_at from_utf8_lossy (pos + 2) nlen payload ∷ rest

unfoldable pub decode_vindex_list_response : (Bytes → Bytes) → Bytes → List VindexInfo
unfolding decode_infos
decode_vindex_list_response from_utf8_lossy payload =
    if ltb (length payload) 4
    then []
    else decode_infos from_utf8_lossy (from_le (slice 0 4 payload)) 4 payload

abbrev pub row_size : ℕ
row_size = 36

unfoldable pub shard_at : ℕ → Bytes → ShardStats
shard_at pos payload = record {
  shard_id = from_le (slice pos 4 payload);
  cache_bytes = from_le (slice (pos + 4) 8 payload);
  cache_evictions = from_le (slice (pos + 12) 8 payload);
  n_keys = from_le (slice (pos + 20) 8 payload);
  cache_budget = from_le (slice (pos + 28) 8 payload);
}

unfoldable pub decode_shards : ℕ → ℕ → Bytes → List ShardStats
unfolding shard_at
decode_shards zero pos payload = []
decode_shards (suc n) pos payload =
    let rest = decode_shards n (pos + row_size) payload in
    if ltb (length payload) (pos + row_size) then [] else shard_at pos payload ∷ rest

unfoldable pub decode_shards_response : Bytes → List ShardStats
unfolding decode_shards
decode_shards_response payload =
    if ltb (length payload) 4 then [] else decode_shards (from_le (slice 0 4 payload)) 4 payload

unfoldable pub decode_stats_response : Bytes → Option ServerStats
decode_stats_response payload =
    if ltb (length payload) 32
    then none
    else some (record {
      cache_bytes = from_le (slice 0 8 payload);
      cache_evictions = from_le (slice 8 8 payload);
      n_keys = from_le (slice 16 8 payload);
      cache_budget = from_le (slice 24 8 payload);
    })

unfoldable pub decode_results : ℕ → ℕ → Bytes → List (Option Bytes)
decode_results zero pos payload = []
decode_results (suc n) pos payload =
    let val_len = from_le (slice (pos + 1) 4 payload) in
    let found = decode_results n (pos + 5 + val_len) payload in
    let missing = decode_results n (pos + 1) payload in
    if leb (length payload) pos
    then []
    else if from_le (slice pos 1 payload) == 0
    then (if ltb (length payload) (pos + 5)
        then []
        else if ltb (length payload) (pos + 5 + val_len)
        then []
        else some (slice (pos + 5) val_len payload) ∷ found)
    else none ∷ missing

unfoldable pub decode_mget_response : Bytes → List (Option Bytes)
unfolding decode_results
decode_mget_response payload =
    if ltb (length payload) 4 then [] else decode_results (from_le (slice 0 4 payload)) 4 payload
