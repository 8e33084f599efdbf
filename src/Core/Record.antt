-- ===== src/Core/Record.antt =====
-- crates/skeg-core/src/record.rs: one record of the value log as bytes. `crc32c` is the function of
-- the crc32c crate, a parameter.
pub mod RoundTrip
pub mod Canonical
use skeg.Prelude.{
  ℕ, ◌+◌, ◌-◌, ◌*◌, ◌/◌, ◌==◌, List, [], ◌∷◌, ◌++◌, Bytes, to_le, from_le, slice, take, drop,
  replicate, length, ltb, if◌then◌else◌, Option, none, some,
}
use skeg.Core.Error.{
  Result, ok, err, crc_mismatch, invalid_record, short_header, short_payload, unknown_kind, ◌>>=◌,
}

pub data RecordKind : Type 0 where
  scalar tombstone vec_f32 vec_int8 vec_binary batch_begin : RecordKind

-- `kind as u8`
unfoldable pub to_u8 : RecordKind → ℕ
to_u8 scalar = 0
to_u8 tombstone = 1
to_u8 vec_f32 = 2
to_u8 vec_int8 = 3
to_u8 vec_binary = 4
to_u8 batch_begin = 5

unfoldable pub from_u8 : ℕ → Result RecordKind
from_u8 k =
    if k == 0
    then ok scalar
    else if k == 1
    then ok tombstone
    else if k == 2
    then ok vec_f32
    else if k == 3
    then ok vec_int8
    else if k == 4
    then ok vec_binary
    else if k == 5
    then ok batch_begin
    else err (unknown_kind k)

pub record Record : Type 0 where
  pub ts : ℕ
  pub kind : RecordKind
  pub key : Bytes
  pub value : Bytes

abbrev pub header_size : ℕ
header_size = 21

-- `(n + 127) & !127`: the mask clears the seven lowest bits.
unfoldable pub padded_record_size : ℕ → ℕ → ℕ
padded_record_size ksz vsz = (header_size + ksz + vsz + 127) / 128 * 128

-- Bytes 4 .. 21 + ksz + vsz: what the checksum covers. A length is cast to u32 by `to_le 4`.
unfoldable pub record_body : Bytes → Bytes → RecordKind → ℕ → Bytes
record_body key value kind ts =
    to_le 8 ts
    ++ (to_le 4 (length key) ++ (to_le 4 (length value) ++ (to_u8 kind ∷ (key ++ value))))

-- The writes into the zeroed buffer of the padded size, in the order of their positions.
unfoldable pub encode_record : (Bytes → ℕ) → Bytes → Bytes → RecordKind → ℕ → Bytes
unfolding record_body padded_record_size
encode_record crc32c key value kind ts =
    let body = record_body key value kind ts in
    to_le 4 (crc32c body)
    ++ (body
        ++ replicate
            (padded_record_size (length key) (length value)
              - (header_size + length key + length value))
            0)

-- `buf[20]`; the caller has checked the length.
abbrev pub byte_at : ℕ → Bytes → ℕ
byte_at i buf = from_le (slice i 1 buf)

-- The checks after the kind byte, in the order of the code.
unfoldable pub decode_payload : (Bytes → ℕ) → Bytes → RecordKind → Result Record
decode_payload crc32c buf kind =
    let stored_crc = from_le (slice 0 4 buf) in
    let ts = from_le (slice 4 8 buf) in
    let ksz = from_le (slice 12 4 buf) in
    let vsz = from_le (slice 16 4 buf) in
    let payload_end = header_size + ksz + vsz in
    let computed = crc32c (slice 4 (payload_end - 4) buf) in
    if ltb (length buf) payload_end
    then err (invalid_record short_payload)
    else if computed == stored_crc
    then ok (record {
      ts = ts;
      kind = kind;
      key = slice header_size ksz buf;
      value = slice (header_size + ksz) vsz buf;
    })
    else err (crc_mismatch computed stored_crc)

unfoldable pub decode_record : (Bytes → ℕ) → Bytes → Result Record
unfolding from_u8 decode_payload
decode_record crc32c buf =
    if ltb (length buf) header_size
    then err (invalid_record short_header)
    else from_u8 (byte_at 20 buf) >>= decode_payload crc32c buf
