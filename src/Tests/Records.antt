-- ===== src/Tests/Records.antt =====
-- Records, segments and snapshots on concrete bytes. The checksum is a toy: the length of what it
-- covers.
use skeg.Prelude.{
  ℕ, ◌%◌, ◌^◌, ◌<◌, ◌≡◌, refl, arith, Bytes, [], ◌∷◌, ◌++◌, some, take, length, to_le, All, IsByte,
}
use skeg.Core.Error.{ok}
use skeg.Core.Record.{
  Record, scalar, tombstone, header_size, record_body, encode_record, decode_record,
}
use skeg.Core.Record.RoundTrip.{decode_record-encode_record}
use skeg.Core.Record.Canonical.{decode_record_canonical}
use skeg.Core.Segment.{scan_file}
use skeg.Core.Segment.Replay.{IsStorable, padded, positions, encode, segment, padded-pos}
use skeg.Core.Segment.Tail.{scan_file_torn}
use skeg.Core.Index.{IndexEntry}
use skeg.Core.Snapshot
use skeg.Core.Snapshot.RoundTrip

abbrev crc : Bytes → ℕ
crc bs = length bs % 2 ^ 32

crc_fits : (bs : Bytes) → crc bs < 2 ^ 32
crc_fits bs = omega arith

abbrev apple : Record
apple = record { ts = 7; kind = scalar; key = 1 ∷ 2 ∷ []; value = 10 ∷ 11 ∷ 12 ∷ [] }

abbrev pear : Record
pear = record { ts = 8; kind = tombstone; key = 3 ∷ []; value = [] }

apple-IsStorable : IsStorable apple
apple-IsStorable = record {
  key_fits = omega arith;
  value_fits = omega arith;
  ts_fits = omega arith;
}

pear-IsStorable : IsStorable pear
pear-IsStorable = record { key_fits = omega arith; value_fits = omega arith; ts_fits = omega arith }

decode_record-encode_record_example :
    decode_record crc (encode_record crc apple.key apple.value scalar 7 ++ (9 ∷ [])) ≡ ok apple
decode_record-encode_record_example =
    decode_record-encode_record crc crc_fits apple.key apple.value scalar 7 (9 ∷ []) (omega arith)
      (omega arith) (omega arith)

-- A record of 21 bytes that is not padded.
abbrev short_buf : Bytes
short_buf = to_le 4 17 ++ (to_le 8 5 ++ (to_le 4 0 ++ (to_le 4 0 ++ (0 ∷ []))))

short_buf-decodes :
    decode_record crc short_buf ≡ ok (record { ts = 5; kind = scalar; key = []; value = [] })
unfolding decode_record
short_buf-decodes = refl

short_buf-IsByte : All IsByte short_buf
short_buf-IsByte = ground arith

decode_record_canonical_example :
    take header_size short_buf
    ≡ to_le 4 (crc (record_body [] [] scalar 5)) ++ record_body [] [] scalar 5
decode_record_canonical_example =
    decode_record_canonical crc short_buf (record { ts = 5; kind = scalar; key = []; value = [] })
      short_buf-IsByte short_buf-decodes

padded-pear : 100 < padded pear
padded-pear = omega (arith, padded-pos crc pear)

scan_file_torn_example :
    scan_file crc (segment crc (apple ∷ []) ++ take 100 (encode crc pear))
    ≡ some (positions 0 (apple ∷ []), length (segment crc (apple ∷ [])))
scan_file_torn_example =
    scan_file_torn crc crc_fits (apple ∷ []) pear 100 (apple-IsStorable, tt) pear-IsStorable
      padded-pear

abbrev entry : IndexEntry
entry = record { fingerprint = 77; segment_id = 2; pad = 0; offset = 128; size = 128 }

entry-IsStorable : RoundTrip.IsStorable (1 ∷ 2 ∷ []) entry
entry-IsStorable = record {
  key_fits = omega arith;
  fingerprint_fits = omega arith;
  segment_fits = omega arith;
  no_pad = refl;
  offset_fits = omega arith;
  size_fits = omega arith;
}

decode-encode_example :
    Snapshot.decode crc (Snapshot.encode crc 3 41 ((1 ∷ 2 ∷ [], entry) ∷ []))
    ≡ some (record { hwm = 3; max_ts = 41; entries = (1 ∷ 2 ∷ [], entry) ∷ [] })
decode-encode_example =
    RoundTrip.decode-encode crc 3 41 ((1 ∷ 2 ∷ [], entry) ∷ []) crc_fits (omega arith) (omega arith)
      (omega arith) (entry-IsStorable, tt)
