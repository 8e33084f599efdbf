-- ===== src/Proto/Request/RoundTrip.antt =====
-- What a client sends is what the server reads.
use skeg.Prelude.{
  ℕ, zero, suc, ◌+◌, ◌-◌, ◌*◌, ◌/◌, ◌^◌, ◌<◌, ◌≤◌, ◌≡◌, refl, ap, sym, ◌∙◌, arith, Bytes, List, [],
  ◌∷◌, ◌++◌, false, to_le, drop, length, ltb, le→ltb, All, length-append, append-nil, drop-next,
  slice-at, drop-next_le, from_le-at,
}
use skeg.Proto.Error.{ok}
use skeg.Proto.Request.{
  key_payload, set_payload, put_keys, mget_payload, decode_key_payload, decode_set_payload,
  decode_keys, decode_mget_payload,
}

-- A key payload decodes to its key, for a key of less than 64 KiB.
pub decode_key_payload-key_payload :
    (key : Bytes) → length key < 2 ^ 16 → decode_key_payload (key_payload key) ≡ ok key
unfolding decode_key_payload key_payload
decode_key_payload-key_payload key h =
    let buf = to_le 2 (length key) ++ key in
    let klen = from_le-at 0 2 (length key) buf key refl h in
    let long : ltb (length buf) 2 ≡ false = le→ltb (length buf) 2 (omega arith) in
    let whole : ltb (length buf) (2 + length key) ≡ false =
      le→ltb (length buf) (2 + length key) (omega arith) in
    rw (klen, long, whole) (ap ok (slice-at 2 (length key) buf key [] (sym (append-nil key)) refl))

-- A SET payload decodes to its key and its value, for a key of less than 64 KiB and a value of less
-- than 4 GiB.
pub decode_set_payload-set_payload :
    (key value : Bytes)
    → length key < 2 ^ 16
    → length value < 2 ^ 32
    → decode_set_payload (set_payload key value) ≡ ok (key, value)
unfolding decode_set_payload set_payload
decode_set_payload-set_payload key value hk hv =
    let k = length key in
    let tail = to_le 4 (length value) ++ (key ++ value) in
    let buf = to_le 2 k ++ tail in
    let klen = from_le-at 0 2 k buf tail refl hk in
    let vlen = from_le-at 2 4 (length value) buf (key ++ value) refl hv in
    let key_at = slice-at 6 k buf key value refl refl in
    let value_at =
      slice-at (6 + k) (length value) buf value []
        (drop-next 6 k buf key value refl refl ∙ sym (append-nil value)) refl in
    let size = length-append key value in
    let long : ltb (length buf) 6 ≡ false = le→ltb (length buf) 6 (omega arith) in
    let whole : ltb (length buf) (6 + k + length value) ≡ false =
      le→ltb (length buf) (6 + k + length value) (omega arith) in
    rw (klen, vlen, long, whole, key_at, value_at) refl

abbrev pub IsKey : Bytes → Type 0
IsKey key = length key < 2 ^ 16

decode_keys-put_keys :
    (keys : List Bytes) (n pos : ℕ) (buf : Bytes)
    → All IsKey keys
    → length keys ≡ n
    → drop pos buf ≡ put_keys keys
    → pos + length (put_keys keys) ≤ length buf
    → decode_keys n pos buf ≡ ok keys
unfolding decode_keys
decode_keys-put_keys [] zero pos buf h hn at_pos fits = refl
decode_keys-put_keys [] (suc n) pos buf h hn at_pos fits = absurd (omega arith)
decode_keys-put_keys (x ∷ xs) zero pos buf h hn at_pos fits = absurd (omega arith)
decode_keys-put_keys (key ∷ keys) (suc n) pos buf (hk, h) hn at_pos fits =
    let k = length key in
    let rest = put_keys keys in
    let at0 : drop pos buf ≡ to_le 2 k ++ (key ++ rest) = at_pos in
    let at1 = drop-next_le pos 2 k (pos + 2) buf (key ++ rest) at0 refl in
    let at2 = drop-next (pos + 2) k buf key rest at1 refl in
    let klen = from_le-at pos 2 k buf (key ++ rest) at0 hk in
    let key_at = slice-at (pos + 2) k buf key rest at1 refl in
    let size : length (put_keys (key ∷ keys)) ≡ 2 + k + length rest =
      omega (arith, length-append key rest) in
    let head_in : ltb (length buf) (pos + 2) ≡ false =
      le→ltb (length buf) (pos + 2) (omega arith) in
    let key_in : ltb (length buf) (pos + 2 + k) ≡ false =
      le→ltb (length buf) (pos + 2 + k) (omega arith) in
    let more = decode_keys-put_keys keys n (pos + 2 + k) buf h (omega arith) at2 (omega arith) in
    rw (klen, head_in, key_in, more, key_at) refl

length-put_keys : (keys : List Bytes) → 2 * length keys ≤ length (put_keys keys)
length-put_keys [] = omega arith
length-put_keys (key ∷ keys) =
    omega (arith, length-put_keys keys, length-append key (put_keys keys))

-- An MGET payload decodes to its keys, in order, for less than 2^32 keys of less than 64 KiB each: the
-- bound on the count refuses no payload that the client encodes.
pub decode_mget_payload-mget_payload :
    (keys : List Bytes)
    → length keys < 2 ^ 32
    → All IsKey keys
    → decode_mget_payload (mget_payload keys) ≡ ok keys
unfolding decode_mget_payload mget_payload
decode_mget_payload-mget_payload keys hn h =
    let buf = to_le 4 (length keys) ++ put_keys keys in
    let count = from_le-at 0 4 (length keys) buf (put_keys keys) refl hn in
    let size : length buf ≡ 4 + length (put_keys keys) = omega arith in
    let long : ltb (length buf) 4 ≡ false = le→ltb (length buf) 4 (omega arith) in
    let bounded : ltb ((length buf - 4) / 2) (length keys) ≡ false =
      le→ltb ((length buf - 4) / 2) (length keys) (omega (arith, length-put_keys keys)) in
    rw (count, long, bounded)
      (decode_keys-put_keys keys (length keys) 4 buf h refl refl (omega arith))
