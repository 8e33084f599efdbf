-- ===== src/Proto/Request.antt =====
-- crates/skeg-proto/src/request.rs: the payloads of the requests. An encoder is its payload in a frame.
pub mod RoundTrip
pub mod Wire
use skeg.Prelude.{
  ℕ, zero, suc, ◌+◌, ◌-◌, ◌/◌, Bytes, List, [], ◌∷◌, ◌++◌, from_le, to_le, slice, length, ltb,
  if◌then◌else◌,
}
use skeg.Proto.Error.{
  key_too_short, key_truncated, set_too_short, set_truncated, mget_too_short, mget_count,
  mget_header_truncated, mget_key_truncated, invalid_payload, Parsed, ok, err, ◌>>=◌,
}
use skeg.Proto.Op
use skeg.Proto.Flags.{Flags, empty}
use skeg.Proto.Frame.{version_v2, encode_frame, encode_frame_versioned}

unfoldable pub encode_ping : ℕ → Bytes
encode_ping req_id = encode_frame Op.ping empty req_id []

unfoldable pub encode_stats : ℕ → Bytes
encode_stats req_id = encode_frame Op.stats empty req_id []

unfoldable pub encode_shards : ℕ → Bytes
encode_shards req_id = encode_frame Op.shards empty req_id []

unfoldable pub encode_native_hello : ℕ → Bytes
encode_native_hello req_id = encode_frame_versioned version_v2 Op.native_hello empty req_id []

unfoldable pub key_payload : Bytes → Bytes
key_payload key = to_le 2 (length key) ++ key

unfoldable pub encode_get : ℕ → Bytes → Bytes
unfolding key_payload
encode_get req_id key = encode_frame Op.get empty req_id (key_payload key)

unfoldable pub encode_del : ℕ → Bytes → Bytes
unfolding key_payload
encode_del req_id key = encode_frame Op.del empty req_id (key_payload key)

unfoldable pub set_payload : Bytes → Bytes → Bytes
set_payload key value = to_le 2 (length key) ++ (to_le 4 (length value) ++ (key ++ value))

unfoldable pub encode_set : ℕ → Bytes → Bytes → Flags → Bytes
unfolding set_payload
encode_set req_id key value flags = encode_frame Op.set flags req_id (set_payload key value)

abbrev pub put_keys : List Bytes → Bytes
put_keys [] = []
put_keys (key ∷ keys) = (to_le 2 (length key) ++ key) ++ put_keys keys

unfoldable pub mget_payload : List Bytes → Bytes
mget_payload keys = to_le 4 (length keys) ++ put_keys keys

unfoldable pub encode_mget : ℕ → List Bytes → Bytes
unfolding mget_payload
encode_mget req_id keys = encode_frame Op.mget empty req_id (mget_payload keys)

unfoldable pub decode_key_payload : Bytes → Parsed Bytes
decode_key_payload payload =
    let key_len = from_le (slice 0 2 payload) in
    if ltb (length payload) 2
    then err (invalid_payload key_too_short)
    else if ltb (length payload) (2 + key_len)
    then err (invalid_payload key_truncated)
    else ok (slice 2 key_len payload)

unfoldable pub decode_set_payload : Bytes → Parsed (Bytes × Bytes)
decode_set_payload payload =
    let key_len = from_le (slice 0 2 payload) in
    let val_len = from_le (slice 2 4 payload) in
    if ltb (length payload) 6
    then err (invalid_payload set_too_short)
    else if ltb (length payload) (6 + key_len + val_len)
    then err (invalid_payload set_truncated)
    else ok (slice 6 key_len payload, slice (6 + key_len) val_len payload)

-- The loop over the `n` keys from `pos` on.
unfoldable pub decode_keys : ℕ → ℕ → Bytes → Parsed (List Bytes)
decode_keys zero pos payload = ok []
decode_keys (suc n) pos payload =
    let key_len = from_le (slice pos 2 payload) in
    let rest = decode_keys n (pos + 2 + key_len) payload in
    if ltb (length payload) (pos + 2)
    then err (invalid_payload mget_header_truncated)
    else if ltb (length payload) (pos + 2 + key_len)
    then err (invalid_payload mget_key_truncated)
    else rest >>= λ keys. ok (slice (pos + 2) key_len payload ∷ keys)

unfoldable pub decode_mget_payload : Bytes → Parsed (List Bytes)
unfolding decode_keys
decode_mget_payload payload =
    let n = from_le (slice 0 4 payload) in
    if ltb (length payload) 4
    then err (invalid_payload mget_too_short)
    else if ltb ((length payload - 4) / 2) n
    then err (invalid_payload mget_count)
    else decode_keys n 4 payload
