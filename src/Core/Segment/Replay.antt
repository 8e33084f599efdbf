-- ===== src/Core/Segment/Replay.antt =====
-- What the scan finds in a segment that the encoder wrote: every record, and nothing behind a tail
-- that is torn or still zero.
use skeg.Prelude.{
  ℕ, zero, suc, ◌+◌, ◌^◌, ◌<◌, ◌≤◌, ◌≡◌, refl, ap, sym, ◌∙◌, arith, Bytes, List, [], ◌∷◌, ◌++◌,
  some, from_le-to_le, take, length, length-append, length-take, le→ltb, take-append_length,
  drop-append_length, append_assoc, append-nil,
}
use skeg.Core.Error.{ok}
use skeg.Core.Record.{
  Record, header_size, padded_record_size, record_body, encode_record, decode_record,
}
use skeg.Core.Record.RoundTrip.{decode_record-encode_record, length-encode_record}
use skeg.Core.Segment.{scan_found, header_padded, scan_loop}

-- What a record's fixed-width fields can hold.
pub record IsStorable (r : Record) : Type 0 where
  pub key_fits : length r.key < 2 ^ 32
  pub value_fits : length r.value < 2 ^ 32
  pub ts_fits : r.ts < 2 ^ 64

abbrev pub AllStorable : List Record → Type 0
AllStorable [] = Unit
AllStorable (r ∷ rs) = IsStorable r × AllStorable rs

pub padded : Record → ℕ
padded r = padded_record_size (length r.key) (length r.value)

-- The records one behind the other, each with its padding, from `base` on.
abbrev pub positions : ℕ → List Record → List (ℕ × Record)
positions base [] = []
positions base (r ∷ rs) = (base, r) ∷ positions (base + padded r) rs

module _ (crc32c : Bytes → ℕ) where
  pub encode : Record → Bytes
  encode r = encode_record crc32c r.key r.value r.kind r.ts

  abbrev pub segment : List Record → Bytes
  segment [] = []
  segment (r ∷ rs) = encode r ++ segment rs

  -- The scan stops where `tail` begins, at any offset.
  abbrev pub Stops : Bytes → Type 0
  Stops tail =
      (fuel : ℕ) (front : Bytes)
      → scan_loop crc32c (suc fuel) (front ++ tail) (length front) ≡ some ([], length front)

  pub length-encode : (r : Record) → length (encode r) ≡ padded r
  unfolding encode padded
  length-encode r = length-encode_record crc32c r.key r.value r.kind r.ts

  -- The header alone tells the size on disk.
  pub header_padded-encode :
      (r : Record) (rest : Bytes)
      → IsStorable r
      → header_padded (take header_size (encode r ++ rest)) ≡ padded r
  unfolding encode padded header_padded encode_record record_body
  header_padded-encode r rest s =
      rw (from_le-to_le 4 (length r.key) s.key_fits, from_le-to_le 4 (length r.value) s.value_fits)

  pub padded-pos : (r : Record) → 128 ≤ padded r
  unfolding padded padded_record_size
  padded-pos r = omega arith

  module _ (crc_fits : (bs : Bytes) → crc32c bs < 2 ^ 32) where
    decode-encode : (r : Record) → IsStorable r → decode_record crc32c (encode r) ≡ ok r
    unfolding encode
    decode-encode r s =
        sym
          (ap (decode_record crc32c) (append-nil (encode_record crc32c r.key r.value r.kind r.ts)))
        ∙ decode_record-encode_record crc32c crc_fits r.key r.value r.kind r.ts [] s.key_fits
            s.value_fits s.ts_fits

    scan_loop_step :
        (fuel : ℕ) (front : Bytes) (r : Record) (back : Bytes)
        → IsStorable r
        → scan_loop crc32c (suc fuel) (front ++ (encode r ++ back)) (length front)
          ≡ scan_found
              (length front)
              (ok r)
              (scan_loop crc32c fuel (front ++ (encode r ++ back)) (length front + padded r))
    unfolding scan_loop
    scan_loop_step fuel front r back s =
        rw (drop-append_length (length front) front (encode r ++ back) refl) (
          rw (
            header_padded-encode r back s,
            take-append_length (padded r) (encode r) back (length-encode r),
            decode-encode r s,
            le→ltb (length (take header_size (encode r ++ back))) header_size (
                omega (
                  arith,
                  length-take header_size (encode r ++ back),
                  length-append (encode r) back,
                  length-encode r,
                  padded-pos r,
                )),
            le→ltb (length (encode r)) (padded r) (omega (arith, length-encode r)),
          ))

    append_slice :
        (front : Bytes) (r : Record) (back : Bytes)
        → (front ++ (encode r ++ back) ≡ (front ++ encode r) ++ back)
          × (length front + padded r ≡ length (front ++ encode r))
    append_slice front r back = (
      sym (append_assoc front (encode r) back),
      omega (arith, length-append front (encode r), length-encode r),
    )

    pub scan_loop-segment :
        (rs : List Record) (fuel : ℕ) (front tail : Bytes)
        → AllStorable rs
        → Stops tail
        → length rs < fuel
        → scan_loop crc32c fuel (front ++ (segment rs ++ tail)) (length front)
          ≡ some (positions (length front) rs, length front + length (segment rs))
    scan_loop-segment rs zero front tail s stops h = absurd (omega arith)
    scan_loop-segment [] (suc fuel) front tail s stops h =
        stops fuel front ∙ ap (λ n. some ([], n)) (omega arith)
    scan_loop-segment (r ∷ rs) (suc fuel) front tail (sr, srs) stops h =
        let shift = append_slice front r (segment rs ++ tail) in
        rw (append_assoc (encode r) (segment rs) tail) (
          scan_loop_step fuel front r (segment rs ++ tail) sr
          ∙ rw (shift.0, shift.1)
              (rw (scan_loop-segment rs fuel (front ++ encode r) tail srs stops (omega arith)) (
                unfold scan_found in
                ap (λ n. some ((length front, r) ∷ positions (length (front ++ encode r)) rs, n))
                  (omega (
                    arith,
                    length-append (encode r) (segment rs),
                    length-append front (encode r),
                  )))))
