-- ===== src/Proto/Vector/Fields.antt =====
-- The field readers find what the field writers put at their position.
use skeg.Prelude.{
  ℕ, ◌+◌, ◌*◌, ◌^◌, ◌<◌, ◌≡◌, refl, ap, ap₂, arith, Bytes, List, [], ◌∷◌, ◌++◌, some, false, to_le,
  drop, length, ltb, le→ltb, lt→ltb, All, length-append, drop-next, slice-at, drop-next_le,
  from_le-at, length-at, length-drop,
}
use skeg.Proto.Error.{ok}
use skeg.Proto.Vector.{
  put_name, f32_vec_to_bytes, put_f32_vec, read_name, read_chunks, read_f32_vec, read_u64, read_u32,
  byte_get, unwrap_or,
}

abbrev pub IsName : Bytes → Type 0
IsName name = length name < 2 ^ 16

-- The 32 bits of an f32.
abbrev pub IsF32 : ℕ → Type 0
IsF32 x = x < 2 ^ 32

pub read_name-put_name :
    (pos : ℕ) (buf name rest : Bytes)
    → drop pos buf ≡ put_name name ++ rest
    → IsName name
    → (read_name buf pos ≡ ok (name, pos + 2 + length name))
      × (drop (pos + 2 + length name) buf ≡ rest)
unfolding read_name put_name
read_name-put_name pos buf name rest at_pos h =
    let n = length name in
    let at0 : drop pos buf ≡ to_le 2 n ++ (name ++ rest) = at_pos in
    let at1 = drop-next_le pos 2 n (pos + 2) buf (name ++ rest) at0 refl in
    let size = length-at pos buf (to_le 2 n) (name ++ rest) at0 (omega arith) in
    let len = from_le-at pos 2 n buf (name ++ rest) at0 h in
    let head_in : ltb (length buf) (pos + 2) ≡ false =
      le→ltb (length buf) (pos + 2) (omega arith) in
    let name_in : ltb (length buf) (pos + 2 + n) ≡ false =
      le→ltb (length buf) (pos + 2 + n) (omega (arith, length-append name rest)) in
    (
      rw (len, head_in, name_in, slice-at (pos + 2) n buf name rest at1 refl) refl,
      drop-next (pos + 2) n buf name rest at1 refl,
    )

pub read_u64-to_le :
    (pos n : ℕ) (buf rest : Bytes)
    → drop pos buf ≡ to_le 8 n ++ rest
    → n < 2 ^ 64
    → read_u64 buf pos ≡ ok n
unfolding read_u64
read_u64-to_le pos n buf rest at_pos h =
    let size = length-at pos buf (to_le 8 n) rest at_pos (omega arith) in
    rw (le→ltb (length buf) (pos + 8) (omega arith), from_le-at pos 8 n buf rest at_pos h) refl

pub read_u32-to_le :
    (pos n : ℕ) (buf rest : Bytes)
    → drop pos buf ≡ to_le 4 n ++ rest
    → n < 2 ^ 32
    → read_u32 buf pos ≡ ok n
unfolding read_u32
read_u32-to_le pos n buf rest at_pos h =
    let size = length-at pos buf (to_le 4 n) rest at_pos (omega arith) in
    rw (le→ltb (length buf) (pos + 4) (omega arith), from_le-at pos 4 n buf rest at_pos h) refl

pub byte_get-to_le :
    (pos n : ℕ) (buf rest : Bytes)
    → drop pos buf ≡ to_le 1 n ++ rest
    → n < 256
    → byte_get buf pos ≡ some n
unfolding byte_get
byte_get-to_le pos n buf rest at_pos h =
    let size = length-at pos buf (to_le 1 n) rest at_pos (omega arith) in
    rw (lt→ltb pos (length buf) (omega arith), from_le-at pos 1 n buf rest at_pos h) refl

length-f32_vec_to_bytes : (v : List ℕ) → length (f32_vec_to_bytes v) ≡ length v * 4
unfolding f32_vec_to_bytes
length-f32_vec_to_bytes [] = omega arith
length-f32_vec_to_bytes (x ∷ v) = omega (arith, length-f32_vec_to_bytes v)

read_chunks-f32_vec_to_bytes :
    (v : List ℕ) (pos : ℕ) (buf rest : Bytes)
    → All IsF32 v
    → drop pos buf ≡ f32_vec_to_bytes v ++ rest
    → read_chunks (length v) pos buf ≡ v
unfolding read_chunks f32_vec_to_bytes
read_chunks-f32_vec_to_bytes [] pos buf rest h at_pos = refl
read_chunks-f32_vec_to_bytes (x ∷ v) pos buf rest (hx, h) at_pos =
    let more = f32_vec_to_bytes v ++ rest in
    let at1 = drop-next_le pos 4 x (pos + 4) buf more at_pos refl in
    ap₂ (λ y ys. y ∷ ys) (from_le-at pos 4 x buf more at_pos hx)
      (read_chunks-f32_vec_to_bytes v (pos + 4) buf rest h at1)

pub read_f32_vec-put_f32_vec :
    (pos : ℕ) (buf : Bytes) (v : List ℕ) (rest : Bytes)
    → drop pos buf ≡ put_f32_vec v ++ rest
    → length v < 2 ^ 32
    → All IsF32 v
    → (read_f32_vec buf pos ≡ ok (v, pos + 4 + length v * 4))
      × (drop (pos + 4 + length v * 4) buf ≡ rest)
unfolding read_f32_vec put_f32_vec
read_f32_vec-put_f32_vec pos buf v rest at_pos hn h =
    let n = length v in
    let body = f32_vec_to_bytes v in
    let at0 : drop pos buf ≡ to_le 4 n ++ (body ++ rest) = at_pos in
    let at1 = drop-next_le pos 4 n (pos + 4) buf (body ++ rest) at0 refl in
    let size = length-at pos buf (to_le 4 n) (body ++ rest) at0 (omega arith) in
    let dim = from_le-at pos 4 n buf (body ++ rest) at0 hn in
    let len = length-f32_vec_to_bytes v in
    let head_in : ltb (length buf) (pos + 4) ≡ false =
      le→ltb (length buf) (pos + 4) (omega arith) in
    let body_in : ltb (length buf) (pos + 4 + n * 4) ≡ false =
      le→ltb (length buf) (pos + 4 + n * 4) (omega (arith, length-append body rest)) in
    (
      rw (dim, head_in, body_in, read_chunks-f32_vec_to_bytes v (pos + 4) buf rest h at1) refl,
      drop-next (pos + 4) (n * 4) buf body rest at1 len,
    )

-- Where the buffer ends there is no field, and the default stands.
pub read_u32-nil : (pos : ℕ) (buf : Bytes) → drop pos buf ≡ [] → unwrap_or 0 (read_u32 buf pos) ≡ 0
unfolding read_u32
read_u32-nil pos buf at_end =
    let gone : length (drop pos buf) ≡ 0 = ap length at_end in
    rw (lt→ltb (length buf) (pos + 4) (omega (arith, gone, length-drop pos buf)))
