-- ===== src/Proto/Vector/RoundTrip.antt =====
-- What a client sends about vectors is what the server reads, and the hits come back as they were.
use skeg.Prelude.{
  ℕ, ◌+◌, ◌*◌, ◌^◌, ◌<◌, ◌≡◌, refl, ap, sym, ◌∙◌, arith, Bytes, List, [], ◌∷◌, ◌++◌, to_le, drop,
  length, le→ltb, All, append_assoc, append-nil, drop-next_le, from_le-at, length-at,
}
use skeg.Proto.Error.{ok}
use skeg.Proto.Vector.{
  put_name, put_f32_vec, put_hits, vindex_create_payload, vset_payload, vname_id_payload,
  vsearch_payload, vsearch_reply, decode_vindex_create_payload, decode_vname_payload,
  decode_vname_id_payload, decode_vset_payload, decode_vsearch_payload, decode_hits,
  decode_vsearch_response,
}
use skeg.Proto.Vector.Fields.{
  IsName, IsF32, read_name-put_name, read_u64-to_le, read_u32-to_le, byte_get-to_le,
  read_f32_vec-put_f32_vec, read_u32-nil,
}

-- A VINDEX CREATE payload decodes to its name, dimension, kind and backend, where they fit their
-- fields.
pub decode_vindex_create_payload-vindex_create_payload :
    (name : Bytes) (dim kind backend : ℕ)
    → IsName name
    → dim < 2 ^ 32
    → kind < 256
    → backend < 256
    → decode_vindex_create_payload (vindex_create_payload name dim kind backend)
      ≡ ok (name, dim, kind, backend)
unfolding decode_vindex_create_payload vindex_create_payload
decode_vindex_create_payload-vindex_create_payload name dim kind backend hn hd hk hb =
    let tail = to_le 4 dim ++ (to_le 1 kind ++ to_le 1 backend) in
    let buf = put_name name ++ tail in
    let p = 0 + 2 + length name in
    let (read, at1) = read_name-put_name 0 buf name tail refl hn in
    let at2 = drop-next_le p 4 dim (p + 4) buf (to_le 1 kind ++ to_le 1 backend) at1 refl in
    let at3 = drop-next_le (p + 4) 1 kind (p + 5) buf (to_le 1 backend) at2 (omega arith) in
    rw
      (
        read,
        read_u32-to_le p dim buf (to_le 1 kind ++ to_le 1 backend) at1 hd,
        byte_get-to_le (p + 4) kind buf (to_le 1 backend) at2 hk,
        byte_get-to_le (p + 5) backend buf [] at3 hb,
      )
      refl

-- A VGET or VDEL payload decodes to its name and id, and as a bare name to the name, for a name
-- shorter than 64 KiB and an id of 64 bits.
pub decode_vname_id_payload-vname_id_payload :
    (name : Bytes) (vec_id : ℕ)
    → IsName name
    → vec_id < 2 ^ 64
    → (decode_vname_id_payload (vname_id_payload name vec_id) ≡ ok (name, vec_id))
      × (decode_vname_payload (vname_id_payload name vec_id) ≡ ok name)
unfolding decode_vname_id_payload decode_vname_payload vname_id_payload
decode_vname_id_payload-vname_id_payload name vec_id hn hi =
    let buf = put_name name ++ to_le 8 vec_id in
    let p = 0 + 2 + length name in
    let (read, at1) = read_name-put_name 0 buf name (to_le 8 vec_id) refl hn in
    (rw (read, read_u64-to_le p vec_id buf [] at1 hi) refl, rw read refl)

-- A VSET payload decodes to its name, id and vector, bit for bit, where they fit their fields.
pub decode_vset_payload-vset_payload :
    (name : Bytes) (vec_id : ℕ) (vector : List ℕ)
    → IsName name
    → vec_id < 2 ^ 64
    → length vector < 2 ^ 32
    → All IsF32 vector
    → decode_vset_payload (vset_payload name vec_id vector) ≡ ok (name, vec_id, vector)
unfolding decode_vset_payload vset_payload
decode_vset_payload-vset_payload name vec_id vector hn hi hl hv =
    let v = put_f32_vec vector in
    let buf = put_name name ++ (to_le 8 vec_id ++ v) in
    let p = 0 + 2 + length name in
    let (read, at1) = read_name-put_name 0 buf name (to_le 8 vec_id ++ v) refl hn in
    let at2 = drop-next_le p 8 vec_id (p + 8) buf v at1 refl in
    let (body, end) =
      read_f32_vec-put_f32_vec (p + 8) buf vector [] (at2 ∙ sym (append-nil v)) hl hv in
    rw (read, read_u64-to_le p vec_id buf v at1 hi, body) refl

-- A VSEARCH payload decodes to its name, its k and its query, with the list size that stands behind
-- it, and with 0 if nothing stands behind it; where they fit their fields.
pub decode_vsearch_payload-vsearch_payload :
    (name : Bytes) (k : ℕ) (query : List ℕ) (l_search : ℕ)
    → IsName name
    → k < 2 ^ 32
    → length query < 2 ^ 32
    → All IsF32 query
    → l_search < 2 ^ 32
    → (decode_vsearch_payload (vsearch_payload name k query) ≡ ok (name, k, query, 0))
      × (decode_vsearch_payload (vsearch_payload name k query ++ to_le 4 l_search)
          ≡ ok (name, k, query, l_search))
unfolding decode_vsearch_payload vsearch_payload
decode_vsearch_payload-vsearch_payload name k query l_search hn hk hl hq hs =
    let v = put_f32_vec query in
    let p = 0 + 2 + length name in
    let bare = put_name name ++ (to_le 4 k ++ v) in
    let (read, at1) = read_name-put_name 0 bare name (to_le 4 k ++ v) refl hn in
    let at2 = drop-next_le p 4 k (p + 4) bare v at1 refl in
    let (body, end) =
      read_f32_vec-put_f32_vec (p + 4) bare query [] (at2 ∙ sym (append-nil v)) hl hq in
    let l = to_le 4 l_search in
    let long = bare ++ l in
    let split = append_assoc (put_name name) (to_le 4 k ++ v) l in
    let (read', at1') = read_name-put_name 0 long name (to_le 4 k ++ (v ++ l)) split hn in
    let at2' = drop-next_le p 4 k (p + 4) long (v ++ l) at1' refl in
    let (body', end') = read_f32_vec-put_f32_vec (p + 4) long query l at2' hl hq in
    (
      rw (read, read_u32-to_le p k bare v at1 hk, body)
          (ap (λ l. ok (name, k, query, l)) (read_u32-nil (p + 4 + 4 + length query * 4) bare end)),
      rw
          (
            read',
            read_u32-to_le p k long (v ++ l) at1' hk,
            body',
            read_u32-to_le (p + 4 + 4 + length query * 4) l_search long [] end' hs,
          )
          refl,
    )

abbrev pub IsHit : ℕ × ℕ → Type 0
IsHit hit = (hit.0 < 2 ^ 64) × (hit.1 < 2 ^ 32)

decode_hits-put_hits :
    (hits : List (ℕ × ℕ)) (pos : ℕ) (buf : Bytes)
    → All IsHit hits
    → drop pos buf ≡ put_hits hits
    → decode_hits (length hits) pos buf ≡ hits
unfolding decode_hits
decode_hits-put_hits [] pos buf h at_pos = refl
decode_hits-put_hits ((id, score) ∷ hits) pos buf ((hi, hs), h) at_pos =
    let rest = put_hits hits in
    let tail = to_le 4 score ++ rest in
    let at1 = drop-next_le pos 8 id (pos + 8) buf tail at_pos refl in
    let at2 = drop-next_le (pos + 8) 4 score (pos + 12) buf rest at1 (omega arith) in
    let size = length-at (pos + 8) buf (to_le 4 score) rest at1 (omega arith) in
    rw
      (
        le→ltb (length buf) (pos + 12) (omega arith),
        from_le-at pos 8 id buf tail at_pos hi,
        from_le-at (pos + 8) 4 score buf rest at1 hs,
        decode_hits-put_hits hits (pos + 12) buf h at2,
      )
      refl

-- The hits of a VSEARCH reply come back as they were, in order, for ids of 64 bits and less than 2^32
-- hits.
pub decode_vsearch_response-vsearch_reply :
    (hits : List (ℕ × ℕ))
    → length hits < 2 ^ 32
    → All IsHit hits
    → decode_vsearch_response (vsearch_reply hits) ≡ hits
unfolding decode_vsearch_response vsearch_reply
decode_vsearch_response-vsearch_reply hits hn h =
    let buf = to_le 4 (length hits) ++ put_hits hits in
    rw
      (
        le→ltb (length buf) 4 (omega arith),
        from_le-at 0 4 (length hits) buf (put_hits hits) refl hn,
      )
      (decode_hits-put_hits hits 4 buf h refl)
