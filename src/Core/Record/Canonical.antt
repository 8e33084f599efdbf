-- ===== src/Core/Record/Canonical.antt =====
-- What `decode_record` accepts: the encodings that `encode_record` writes, and nothing else.
use skeg.Prelude.{
  ℕ, ◌+◌, ◌%◌, ◌-◌, ◌≤◌, ◌≡◌, refl, ap, ap₂, ◌∙◌, sym, arith, List, [], ◌∷◌, ◌++◌, Bytes, IsByte,
  to_le, from_le, slice, take, drop, length, to_le-from_le, length-take, length-drop, All, All-take,
  All-drop, take-add, drop-add, ltb, if◌then◌else◌,
}
use skeg.Core.Error.{Result, ok, err, invalid_record, short_header, ◌>>=◌}
use skeg.Core.Record.{
  RecordKind, scalar, to_u8, from_u8, Record, header_size, record_body, decode_payload,
  decode_record, byte_at,
}

from_u8-ok : (k : ℕ) (kind : RecordKind) → from_u8 k ≡ ok kind → to_u8 kind ≡ k
unfolding from_u8 to_u8
from_u8-ok k kind h = ground arith

kind_small : (kind : RecordKind) → to_u8 kind % 256 ≡ to_u8 kind
unfolding to_u8
kind_small scalar = refl
kind_small _ = refl

-- The tests that an accepted buffer has passed, and where the fields stand.
record Accepted (crc32c : Bytes → ℕ) (buf : Bytes) (r : Record) : Type 0 where
  pub fits : header_size + length r.key + length r.value ≤ length buf
  pub ts_at : from_le (slice 4 8 buf) ≡ r.ts
  pub ksz_at : from_le (slice 12 4 buf) ≡ length r.key
  pub vsz_at : from_le (slice 16 4 buf) ≡ length r.value
  pub kind_at : byte_at 20 buf ≡ to_u8 r.kind
  pub key_at : slice header_size (length r.key) buf ≡ r.key
  pub value_at : slice (header_size + length r.key) (length r.value) buf ≡ r.value
  pub crc_at :
      from_le (slice 0 4 buf)
      ≡ crc32c (slice 4 (header_size + length r.key + length r.value - 4) buf)

length-slice {ℓ} :
    {A : Type ℓ} (from n : ℕ) (xs : List A) → from + n ≤ length xs → length (slice from n xs) ≡ n
length-slice from n xs h = omega (arith, length-take n (drop from xs), length-drop from xs)

decode_payload-Accepted :
    (crc32c : Bytes → ℕ) (buf : Bytes) (kind : RecordKind) (r : Record)
    → byte_at 20 buf ≡ to_u8 kind
    → decode_payload crc32c buf kind ≡ ok r
    → Accepted crc32c buf r
unfolding decode_payload
decode_payload-Accepted crc32c buf kind r hk h = ground (
  arith,
  length-slice 21 (from_le (slice 12 4 buf)) buf,
  length-slice (21 + from_le (slice 12 4 buf)) (from_le (slice 16 4 buf)) buf,
)

decode_record-Accepted :
    (crc32c : Bytes → ℕ) (buf : Bytes) (r : Record)
    → decode_record crc32c buf ≡ ok r
    → Accepted crc32c buf r
unfolding decode_record
decode_record-Accepted crc32c buf r h =
    let (kind, hk, hp) = kind_of (from_u8 (byte_at 20 buf)) (passed h) in
    decode_payload-Accepted crc32c buf kind r (sym (from_u8-ok _ kind hk)) hp
  where
    passed :
        (if ltb (length buf) header_size
            then err (invalid_record short_header)
            else from_u8 (byte_at 20 buf) >>= decode_payload crc32c buf)
          ≡ ok r
        → (from_u8 (byte_at 20 buf) >>= decode_payload crc32c buf) ≡ ok r
    passed h = ground arith

    kind_of :
        (k : Result RecordKind)
        → (k >>= decode_payload crc32c buf) ≡ ok r
        → (kind : RecordKind) × (k ≡ ok kind) × (decode_payload crc32c buf kind ≡ ok r)
    kind_of (ok kind) h = (kind, refl, h)
    kind_of (err e) h = cc

slice_split {ℓ} :
    {A : Type ℓ} (from n m : ℕ) (xs : List A)
    → slice from (n + m) xs ≡ slice from n xs ++ slice (from + n) m xs
slice_split from n m xs = rw (take-add n m, drop-add from n)

-- The fields of a record, cut out of the buffer one after the other.
body_pieces :
    (k v : ℕ) (buf : Bytes)
    → slice 4 (header_size + k + v - 4) buf
      ≡ slice 4 8 buf
        ++ (slice 12 4 buf
            ++ (slice 16 4 buf ++ (slice 20 1 buf ++ (slice 21 k buf ++ slice (21 + k) v buf))))
body_pieces k v buf =
    let e : header_size + k + v - 4 ≡ 8 + (4 + (4 + (1 + (k + v)))) = omega arith in
    rw (e, slice_split 4 8 (4 + (4 + (1 + (k + v)))) buf)
      (rw (slice_split 12 4 (4 + (1 + (k + v))) buf) (
        rw (slice_split 16 4 (1 + (k + v)) buf)
          (rw (slice_split 20 1 (k + v) buf) (rw (slice_split 21 k v buf)))))

reread :
    (from w : ℕ) (buf : Bytes) {n : ℕ}
    → All IsByte buf
    → from + w ≤ length buf
    → from_le (slice from w buf) ≡ n
    → slice from w buf ≡ to_le w n
reread from w buf hb fits e =
    let whole : length (slice from w buf) ≡ w = length-slice from w buf fits in
    rw (← e) (
      sym (
        to_le-from_le (slice from w buf) w
          (All-take IsByte w (drop from buf) (All-drop IsByte from buf hb)) whole))

covered-eq-body :
    (crc32c : Bytes → ℕ) (buf : Bytes) (r : Record)
    → All IsByte buf
    → Accepted crc32c buf r
    → slice 4 (header_size + length r.key + length r.value - 4) buf
      ≡ record_body r.key r.value r.kind r.ts
unfolding record_body
covered-eq-body crc32c buf r hb a =
    let one : slice 20 1 buf ≡ to_u8 r.kind ∷ [] =
      reread 20 1 buf hb (omega (arith, a.fits)) a.kind_at ∙ rw (kind_small r.kind) in
    body_pieces (length r.key) (length r.value) buf
    ∙ rw (
      reread 4 8 buf hb (omega (arith, a.fits)) a.ts_at,
      reread 12 4 buf hb (omega (arith, a.fits)) a.ksz_at,
      reread 16 4 buf hb (omega (arith, a.fits)) a.vsz_at,
      one,
      a.key_at,
      a.value_at,
    )

-- Every buffer of bytes that decodes begins with the encoder's bytes for the record it gives: the
-- checksum of the body and the body.
pub decode_record_canonical :
    (crc32c : Bytes → ℕ) (buf : Bytes) (r : Record)
    → All IsByte buf
    → decode_record crc32c buf ≡ ok r
    → take (header_size + length r.key + length r.value) buf
      ≡ to_le 4 (crc32c (record_body r.key r.value r.kind r.ts))
        ++ record_body r.key r.value r.kind r.ts
decode_record_canonical crc32c buf r hb h =
    let a = decode_record-Accepted crc32c buf r h in
    let body = covered-eq-body crc32c buf r hb a in
    let n : ℕ = header_size + length r.key + length r.value - 4 in
    let e : header_size + length r.key + length r.value ≡ 4 + n = omega arith in
    ap (λ k. take k buf) e
    ∙ slice_split 0 4 n buf
    ∙ ap₂ (λ f g. f ++ g) (reread 0 4 buf hb (omega (arith, a.fits)) (a.crc_at ∙ ap crc32c body))
        body
