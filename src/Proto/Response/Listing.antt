-- ===== src/Proto/Response/Listing.antt =====
-- The reply that lists the vector indexes.
use skeg.Prelude.{
  ℕ, zero, suc, ◌+◌, ◌^◌, ◌<◌, ◌≤◌, ◌≡◌, refl, ap, ◌∙◌, arith, Bytes, List, [], ◌∷◌, ◌++◌, from_le,
  to_le, slice, drop, length, le→ltb, All, drop-next, slice-at, drop-next_le, from_le-at, length-at,
}
use skeg.Proto.Response.{
  VindexInfo, put_info, put_infos, vindex_list_reply, info_at, decode_infos,
  decode_vindex_list_response,
}

module _ (from_utf8_lossy : Bytes → Bytes) where
  -- What the fields of a row can hold; the name is text, which the conversion keeps.
  pub record IsInfo (r : VindexInfo) : Type 0 where
    pub name_fits : length r.name < 2 ^ 16
    pub name_text : from_utf8_lossy r.name ≡ r.name
    pub dim_fits : r.dim < 2 ^ 32
    pub kind_fits : r.kind < 256
    pub backend_fits : r.backend < 256
    pub n_vectors_fits : r.n_vectors < 2 ^ 64

  record At (pos : ℕ) (buf : Bytes) (r : VindexInfo) (rest : Bytes) : Type 0 where
    nlen : from_le (slice pos 2 buf) ≡ length r.name
    row : info_at from_utf8_lossy (pos + 2) (length r.name) buf ≡ r
    behind : drop (pos + 2 + length r.name + 14) buf ≡ rest
    inside : pos + 2 + length r.name + 14 ≤ length buf

  put_info-At :
      (pos : ℕ) (buf : Bytes) (r : VindexInfo) (rest : Bytes)
      → drop pos buf ≡ put_info r rest
      → IsInfo r
      → At pos buf r rest
  unfolding info_at put_info
  put_info-At pos buf r rest at0 h =
      let k = length r.name in
      let p = pos + 2 + k in
      let t5 = to_le 8 r.n_vectors ++ rest in
      let t4 = to_le 1 r.backend ++ t5 in
      let t3 = to_le 1 r.kind ++ t4 in
      let t2 = to_le 4 r.dim ++ t3 in
      let at1 = drop-next_le pos 2 k (pos + 2) buf (r.name ++ t2) at0 refl in
      let at2 = drop-next (pos + 2) k buf r.name t2 at1 refl in
      let at3 = drop-next_le p 4 r.dim (p + 4) buf t3 at2 refl in
      let at4 = drop-next_le (p + 4) 1 r.kind (p + 5) buf t4 at3 (omega arith) in
      let at5 = drop-next_le (p + 5) 1 r.backend (p + 6) buf t5 at4 (omega arith) in
      let at6 = drop-next_le (p + 6) 8 r.n_vectors (p + 14) buf rest at5 (omega arith) in
      let size = length-at (p + 6) buf (to_le 8 r.n_vectors) rest at5 (omega arith) in
      record {
        nlen = from_le-at pos 2 k buf (r.name ++ t2) at0 h.name_fits;
        row = λ i. record {
          name = (ap from_utf8_lossy (slice-at (pos + 2) k buf r.name t2 at1 refl) ∙ h.name_text) i;
          dim = from_le-at p 4 r.dim buf t3 at2 h.dim_fits i;
          kind = from_le-at (p + 4) 1 r.kind buf t4 at3 h.kind_fits i;
          backend = from_le-at (p + 5) 1 r.backend buf t5 at4 h.backend_fits i;
          n_vectors = from_le-at (p + 6) 8 r.n_vectors buf rest at5 h.n_vectors_fits i;
        };
        behind = at6;
        inside = omega (arith, size);
      }

  decode_infos-put_infos :
      (rows : List VindexInfo) (n pos : ℕ) (buf : Bytes)
      → All IsInfo rows
      → length rows ≡ n
      → drop pos buf ≡ put_infos rows
      → decode_infos from_utf8_lossy n pos buf ≡ rows
  unfolding decode_infos
  decode_infos-put_infos [] zero pos buf h hn at_pos = refl
  decode_infos-put_infos [] (suc n) pos buf h hn at_pos = absurd (omega arith)
  decode_infos-put_infos (r ∷ rows) zero pos buf h hn at_pos = absurd (omega arith)
  decode_infos-put_infos (r ∷ rows) (suc n) pos buf (hr, h) hn at_pos =
      let a = put_info-At pos buf r (put_infos rows) at_pos hr in
      let k = length r.name in
      let more = decode_infos-put_infos rows n (pos + 2 + k + 14) buf h (omega arith) a.behind in
      let inside = a.inside in
      rw
        (
          a.nlen,
          le→ltb (length buf) (pos + 2) (omega (arith, inside)),
          le→ltb (length buf) (pos + 2 + k + 4 + 1 + 1 + 8) (omega (arith, inside)),
          a.row,
          more,
        )
        refl

  -- The rows of a VINDEX LIST reply come back as they were sent, in order, for names that are text and
  -- shorter than 64 KiB, fields that fit, and less than 2^32 rows.
  pub decode_vindex_list_response-vindex_list_reply :
      (rows : List VindexInfo)
      → length rows < 2 ^ 32
      → All IsInfo rows
      → decode_vindex_list_response from_utf8_lossy (vindex_list_reply rows) ≡ rows
  unfolding decode_vindex_list_response vindex_list_reply
  decode_vindex_list_response-vindex_list_reply rows hn h =
      let body = put_infos rows in
      let buf = to_le 4 (length rows) ++ body in
      rw (le→ltb (length buf) 4 (omega arith), from_le-at 0 4 (length rows) buf body refl hn)
        (decode_infos-put_infos rows (length rows) 4 buf h refl refl)
