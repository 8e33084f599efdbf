-- ===== src/Proto/Vector.antt =====
-- crates/skeg-proto/src/vector.rs: the payloads of the vector operations. An f32 is its 32 bits, which
-- its bytes on the wire are; a name is the bytes of the string.
pub mod Fields
pub mod RoundTrip
use skeg.Prelude.{
  ℕ, zero, suc, ◌+◌, ◌*◌, Bytes, List, [], ◌∷◌, ◌++◌, Option, none, some, from_le, to_le, slice,
  drop, length, ltb, ◌==◌, if◌then◌else◌,
}
use skeg.Proto.Error.{
  name_header_truncated, name_truncated, dim_header_truncated, body_truncated, u64_truncated,
  u32_truncated, kind_missing, backend_missing, invalid_payload, Parsed, ok, err, ◌>>=◌, ok_or,
}
use skeg.Proto.Op
use skeg.Proto.Flags.{Flags, empty}
use skeg.Proto.Frame.{encode_frame}

pub data NativeVectorKindV2 : Type 0 where
  f32 int8 binary tq1 tq2 tq4 : NativeVectorKindV2

unfoldable pub kind_to_u8 : NativeVectorKindV2 → ℕ
kind_to_u8 f32 = 0
kind_to_u8 int8 = 1
kind_to_u8 binary = 2
kind_to_u8 tq1 = 3
kind_to_u8 tq2 = 4
kind_to_u8 tq4 = 5

-- `none` for an unknown byte.
unfoldable pub kind_try_from : ℕ → Option NativeVectorKindV2
kind_try_from value =
    if value == 0
    then some f32
    else if value == 1
    then some int8
    else if value == 2
    then some binary
    else if value == 3
    then some tq1
    else if value == 4
    then some tq2
    else if value == 5
    then some tq4
    else none

unfoldable pub put_name : Bytes → Bytes
put_name name = to_le 2 (length name) ++ name

unfoldable pub f32_vec_to_bytes : List ℕ → Bytes
f32_vec_to_bytes [] = []
f32_vec_to_bytes (x ∷ xs) = to_le 4 x ++ f32_vec_to_bytes xs

unfoldable pub put_f32_vec : List ℕ → Bytes
unfolding f32_vec_to_bytes
put_f32_vec v = to_le 4 (length v) ++ f32_vec_to_bytes v

-- The name at `pos`, and the position behind it.
unfoldable pub read_name : Bytes → ℕ → Parsed (Bytes × ℕ)
read_name payload pos =
    let len = from_le (slice pos 2 payload) in
    if ltb (length payload) (pos + 2)
    then err (invalid_payload name_header_truncated)
    else if ltb (length payload) (pos + 2 + len)
    then err (invalid_payload name_truncated)
    else ok (slice (pos + 2) len payload, pos + 2 + len)

-- Of `n` chunks of four bytes, the numbers; `chunks_exact` over a slice of `n * 4` bytes.
unfoldable pub read_chunks : ℕ → ℕ → Bytes → List ℕ
read_chunks zero pos payload = []
read_chunks (suc n) pos payload = from_le (slice pos 4 payload) ∷ read_chunks n (pos + 4) payload

unfoldable pub read_f32_vec : Bytes → ℕ → Parsed (List ℕ × ℕ)
unfolding read_chunks
read_f32_vec payload pos =
    let dim = from_le (slice pos 4 payload) in
    if ltb (length payload) (pos + 4)
    then err (invalid_payload dim_header_truncated)
    else if ltb (length payload) (pos + 4 + dim * 4)
    then err (invalid_payload body_truncated)
    else ok (read_chunks dim (pos + 4) payload, pos + 4 + dim * 4)

unfoldable pub read_u64 : Bytes → ℕ → Parsed ℕ
read_u64 payload pos =
    if ltb (length payload) (pos + 8)
    then err (invalid_payload u64_truncated)
    else ok (from_le (slice pos 8 payload))

unfoldable pub read_u32 : Bytes → ℕ → Parsed ℕ
read_u32 payload pos =
    if ltb (length payload) (pos + 4)
    then err (invalid_payload u32_truncated)
    else ok (from_le (slice pos 4 payload))

unfoldable pub byte_get : Bytes → ℕ → Option ℕ
byte_get payload pos =
    if ltb pos (length payload) then some (from_le (slice pos 1 payload)) else none

unfoldable pub vindex_create_payload : Bytes → ℕ → ℕ → ℕ → Bytes
unfolding put_name
vindex_create_payload name dim kind backend =
    put_name name ++ (to_le 4 dim ++ (to_le 1 kind ++ to_le 1 backend))

unfoldable pub encode_vindex_create : ℕ → Bytes → ℕ → ℕ → ℕ → Bytes
unfolding vindex_create_payload
encode_vindex_create req_id name dim kind backend =
    encode_frame Op.vindex_create empty req_id (vindex_create_payload name dim kind backend)

unfoldable pub encode_vindex_drop : ℕ → Bytes → Bytes
encode_vindex_drop req_id name = encode_frame Op.vindex_drop empty req_id (put_name name)

unfoldable pub encode_vindex_list : ℕ → Bytes
encode_vindex_list req_id = encode_frame Op.vindex_list empty req_id []

unfoldable pub vset_payload : Bytes → ℕ → List ℕ → Bytes
unfolding put_name put_f32_vec
vset_payload name vec_id vector = put_name name ++ (to_le 8 vec_id ++ put_f32_vec vector)

unfoldable pub encode_vset : ℕ → Bytes → ℕ → List ℕ → Flags → Bytes
unfolding vset_payload
encode_vset req_id name vec_id vector flags =
    encode_frame Op.vset flags req_id (vset_payload name vec_id vector)

unfoldable pub vname_id_payload : Bytes → ℕ → Bytes
unfolding put_name
vname_id_payload name vec_id = put_name name ++ to_le 8 vec_id

unfoldable pub encode_vget : ℕ → Bytes → ℕ → Bytes
unfolding vname_id_payload
encode_vget req_id name vec_id = encode_frame Op.vget empty req_id (vname_id_payload name vec_id)

unfoldable pub encode_vdel : ℕ → Bytes → ℕ → Bytes
unfolding vname_id_payload
encode_vdel req_id name vec_id = encode_frame Op.vdel empty req_id (vname_id_payload name vec_id)

unfoldable pub vsearch_payload : Bytes → ℕ → List ℕ → Bytes
unfolding put_name put_f32_vec
vsearch_payload name k query = put_name name ++ (to_le 4 k ++ put_f32_vec query)

unfoldable pub encode_vsearch : ℕ → Bytes → ℕ → List ℕ → Bytes
unfolding vsearch_payload
encode_vsearch req_id name k query =
    encode_frame Op.vsearch empty req_id (vsearch_payload name k query)

abbrev pub put_hits : List (ℕ × ℕ) → Bytes
put_hits [] = []
put_hits ((id, score) ∷ hits) = to_le 8 id ++ (to_le 4 score ++ put_hits hits)

unfoldable pub vsearch_reply : List (ℕ × ℕ) → Bytes
vsearch_reply hits = to_le 4 (length hits) ++ put_hits hits

unfoldable pub encode_ok_vsearch : ℕ → List (ℕ × ℕ) → Bytes
unfolding vsearch_reply
encode_ok_vsearch req_id hits = encode_frame Op.ok_reply empty req_id (vsearch_reply hits)

unfoldable pub decode_vindex_create_payload : Bytes → Parsed (Bytes × ℕ × ℕ × ℕ)
unfolding read_name read_u32 byte_get
decode_vindex_create_payload payload = read_name payload 0 >>= λ (name, pos).
    read_u32 payload pos >>= λ dim.
    ok_or (byte_get payload (pos + 4)) (invalid_payload kind_missing) >>= λ kind.
    ok_or (byte_get payload (pos + 5)) (invalid_payload backend_missing) >>= λ backend.
    ok (name, dim, kind, backend)

unfoldable pub decode_vname_payload : Bytes → Parsed Bytes
unfolding read_name
decode_vname_payload payload = read_name payload 0 >>= λ (name, pos). ok name

unfoldable pub decode_vname_id_payload : Bytes → Parsed (Bytes × ℕ)
unfolding read_name read_u64
decode_vname_id_payload payload =
    read_name payload 0 >>= λ (name, pos). read_u64 payload pos >>= λ id. ok (name, id)

unfoldable pub decode_vset_payload : Bytes → Parsed (Bytes × ℕ × List ℕ)
unfolding read_name read_u64 read_f32_vec
decode_vset_payload payload = read_name payload 0 >>= λ (name, pos). read_u64 payload pos >>= λ id.
    read_f32_vec payload (pos + 8) >>= λ (vector, end). ok (name, id, vector)

abbrev pub unwrap_or {ℓ} : {A : Type ℓ} → A → Parsed A → A
unwrap_or d (ok a) = a
unwrap_or d (err e) = d

-- The trailing list size is optional, and 0 without it.
unfoldable pub decode_vsearch_payload : Bytes → Parsed (Bytes × ℕ × List ℕ × ℕ)
unfolding read_name read_u32 read_f32_vec
decode_vsearch_payload payload = read_name payload 0 >>= λ (name, pos).
    read_u32 payload pos >>= λ k. read_f32_vec payload (pos + 4) >>= λ (query, end).
    ok (name, k, query, unwrap_or 0 (read_u32 payload end))

-- The loop over `n` hits stops at the first one that is cut.
unfoldable pub decode_hits : ℕ → ℕ → Bytes → List (ℕ × ℕ)
decode_hits zero pos payload = []
decode_hits (suc n) pos payload =
    let rest = decode_hits n (pos + 12) payload in
    if ltb (length payload) (pos + 12)
    then []
    else (from_le (slice pos 8 payload), from_le (slice (pos + 8) 4 payload)) ∷ rest

unfoldable pub decode_vsearch_response : Bytes → List (ℕ × ℕ)
unfolding decode_hits
decode_vsearch_response payload =
    if ltb (length payload) 4 then [] else decode_hits (from_le (slice 0 4 payload)) 4 payload

-- A last chunk of less than four bytes is left out.
unfoldable pub bytes_to_f32_vec : Bytes → List ℕ
bytes_to_f32_vec (a ∷ b ∷ c ∷ d ∷ rest) = from_le (a ∷ b ∷ c ∷ d ∷ []) ∷ bytes_to_f32_vec rest
bytes_to_f32_vec _ = []
