-- ===== src/Core/Record/RoundTrip.antt =====
-- Encoding and decoding of record.rs agree.
use skeg.Prelude.{
  ℕ, ◌+◌, ◌-◌, ◌^◌, ◌<◌, ◌≤◌, ◌≡◌, refl, ap, ◌∙◌, arith, ◌++◌, Bytes, to_le, from_le, slice,
  replicate, length, length-append, length-replicate, from_le-to_le, take-append_length,
  drop-append_length, drop-add, append_assoc, le→ltb, ==_iff,
}
use skeg.Core.Error.{ok}
use skeg.Core.Record.{
  RecordKind, scalar, to_u8, from_u8, header_size, padded_record_size, record_body, encode_record,
  decode_record, byte_at,
}

pub from_u8-to_u8 : (k : RecordKind) → from_u8 (to_u8 k) ≡ ok k
unfolding from_u8 to_u8
from_u8-to_u8 scalar = refl
from_u8-to_u8 _ = refl

to_u8-lt : (k : RecordKind) → to_u8 k < 256
unfolding to_u8
to_u8-lt scalar = omega arith
to_u8-lt _ = omega arith

pub padded_record_size_bounds :
    (k v : ℕ)
    → (header_size + k + v ≤ padded_record_size k v)
      × (padded_record_size k v < header_size + k + v + 128)
unfolding padded_record_size
padded_record_size_bounds k v = omega arith

length-record_body :
    (key value : Bytes) (kind : RecordKind) (ts : ℕ)
    → length (record_body key value kind ts) ≡ 17 + length key + length value
unfolding record_body
length-record_body key value kind ts = omega (arith, length-append key value)

-- What stands behind the fixed header of a record.
payload_slices :
    (c : ℕ) (key value : Bytes) (kind : RecordKind) (ts : ℕ) (rest : Bytes)
    → (slice header_size (length key) (to_le 4 c ++ (record_body key value kind ts ++ rest)) ≡ key)
      × (slice
            (header_size + length key)
            (length value)
            (to_le 4 c ++ (record_body key value kind ts ++ rest))
          ≡ value)
unfolding record_body
payload_slices c key value kind ts rest = (
  rw (append_assoc key value rest) (take-append_length (length key) key (value ++ rest) refl),
  rw (drop-add header_size (length key)) (
      rw (append_assoc key value rest) (
        rw (drop-append_length (length key) key (value ++ rest) refl)
          (take-append_length (length value) value rest refl))),
)

module _ (crc32c : Bytes → ℕ) where
  pub length-encode_record :
      (key value : Bytes) (kind : RecordKind) (ts : ℕ)
      → length (encode_record crc32c key value kind ts)
        ≡ padded_record_size (length key) (length value)
  length-encode_record key value kind ts =
      let ksz : ℕ = length key in
      let vsz : ℕ = length value in
      let pad : Bytes = replicate (padded_record_size ksz vsz - (header_size + ksz + vsz)) 0 in
      unfold encode_record in
      omega (
        arith,
        length-append (record_body key value kind ts) pad,
        length-record_body key value kind ts,
        length-replicate {0} {A = ℕ} (padded_record_size ksz vsz - (header_size + ksz + vsz)) 0,
        padded_record_size_bounds ksz vsz,
      )

  -- Decoding by the values of the fields.
  decode_record-fields :
      (buf : Bytes) (c ts ksz vsz : ℕ) (kind : RecordKind)
      → header_size + ksz + vsz ≤ length buf
      → from_le (slice 0 4 buf) ≡ c
      → from_le (slice 4 8 buf) ≡ ts
      → from_le (slice 12 4 buf) ≡ ksz
      → from_le (slice 16 4 buf) ≡ vsz
      → byte_at 20 buf ≡ to_u8 kind
      → crc32c (slice 4 (header_size + ksz + vsz - 4) buf) ≡ c
      → decode_record crc32c buf
        ≡ ok (record {
          ts = ts;
          kind = kind;
          key = slice header_size ksz buf;
          value = slice (header_size + ksz) vsz buf;
        })
  decode_record-fields buf c ts ksz vsz kind fits hc ht hk hv hkind hcrc =
      unfold decode_record in
      rw (le→ltb (length buf) header_size (omega arith)) (
        rw hkind (
          rw (from_u8-to_u8 kind) (
            rw (hk, hv, ht, hc)
              (rw
                (hcrc, le→ltb (length buf) (header_size + ksz + vsz) fits, (==_iff c c).1 refl)))))

  module _ (crc_fits : (bs : Bytes) → crc32c bs < 2 ^ 32) where
    -- Whatever follows the body in the buffer.
    decode_record-append :
        (key value : Bytes) (kind : RecordKind) (ts : ℕ) (rest : Bytes)
        → length key < 2 ^ 32
        → length value < 2 ^ 32
        → ts < 2 ^ 64
        → decode_record crc32c (
            to_le 4 (crc32c (record_body key value kind ts))
            ++ (record_body key value kind ts ++ rest))
          ≡ ok (record { ts = ts; kind = kind; key = key; value = value })
    decode_record-append key value kind ts rest hk hv ht =
        let body : Bytes = record_body key value kind ts in
        let buf : Bytes = to_le 4 (crc32c body) ++ (body ++ rest) in
        let ksz : ℕ = length key in
        let vsz : ℕ = length value in
        let fits : header_size + ksz + vsz ≤ length buf =
          omega (arith, length-append body rest, length-record_body key value kind ts) in
        let covered : slice 4 (header_size + ksz + vsz - 4) buf ≡ body =
          take-append_length (header_size + ksz + vsz - 4) body rest
            (omega (arith, length-record_body key value kind ts)) in
        decode_record-fields buf (crc32c body) ts ksz vsz kind fits
          (from_le-to_le 4 (crc32c body) (crc_fits body))
          (unfold record_body in from_le-to_le 8 ts ht)
          (unfold record_body in from_le-to_le 4 ksz hk)
          (unfold record_body in from_le-to_le 4 vsz hv) (unfold record_body in omega arith)
          (ap crc32c covered)
        ∙ rw (payload_slices (crc32c body) key value kind ts rest).0
            (rw (payload_slices (crc32c body) key value kind ts rest).1)

    -- A record that fits its length fields and its timestamp is read back whole from its encoding,
    -- whatever stands behind it in the buffer, for a checksum of 32 bits.
    pub decode_record-encode_record :
        (key value : Bytes) (kind : RecordKind) (ts : ℕ) (rest : Bytes)
        → length key < 2 ^ 32
        → length value < 2 ^ 32
        → ts < 2 ^ 64
        → decode_record crc32c (encode_record crc32c key value kind ts ++ rest)
          ≡ ok (record { ts = ts; kind = kind; key = key; value = value })
    unfolding encode_record
    decode_record-encode_record key value kind ts rest hk hv ht =
        let body : Bytes = record_body key value kind ts in
        rw (append_assoc body) (decode_record-append key value kind ts _ hk hv ht)
