-- ===== src/Core/Segment/Total.antt =====
-- The scan of a segment ends on every file.
use skeg.Prelude.{
  ℕ, zero, suc, ◌+◌, ◌<◌, ◌≤◌, ◌≡◌, refl, arith, Bytes, [], ◌∷◌, Option, none, some, drop, length,
  length-take, length-drop, ltb, ltb→le, Bool-cases, inl, inr,
}
use skeg.Core.Error.{Result, ok, err}
use skeg.Core.Record.{Record, header_size, padded_record_size, decode_record}
use skeg.Core.Segment.{Scanned, pread, scan_found, header_padded, scan_loop, scan_file}

scan_found-end :
    (offset bound : ℕ) (r : Result Record) (rest : Option Scanned)
    → offset ≤ bound
    → (s : Scanned) × (rest ≡ some s) × (s.1 ≤ bound)
    → (s : Scanned) × (scan_found offset r rest ≡ some s) × (s.1 ≤ bound)
unfolding scan_found
scan_found-end offset bound (err e) rest h k = (([], offset), refl, h)
scan_found-end offset bound (ok rec) none h (s, e, k) = absurd (cc)
scan_found-end offset bound (ok rec) (some (recs, end)) h (s, e, k) =
    (((offset, rec) ∷ recs, end), refl, ground arith)

header_padded-pos : (header : Bytes) → 128 ≤ header_padded header
unfolding header_padded padded_record_size
header_padded-pos header = omega arith

module _ (crc32c : Bytes → ℕ) where
  scan_loop_total :
      (fuel : ℕ) (file : Bytes) (offset : ℕ)
      → offset ≤ length file
      → length file < fuel + offset
      → (s : Scanned) × (scan_loop crc32c fuel file offset ≡ some s) × (s.1 ≤ length file)
  unfolding scan_loop
  scan_loop_total zero file offset h k = absurd (omega arith)
  scan_loop_total (suc fuel) file offset h k =
      let header = pread file offset header_size in
      let padded = header_padded header in
      let buf = pread file offset padded in
      elim (Bool-cases (ltb (length header) header_size)) [
        | inl short ↦ (([], offset), rw short, h)
        | inr _whole ↦ elim (Bool-cases (ltb (length buf) padded)) [
          | inl torn ↦ (([], offset), rw (_whole, torn), h)
          | inr full ↦
              rw (_whole, full)
                (scan_found-end offset (length file) (decode_record crc32c buf) _ h (
                  scan_loop_total fuel file (offset + padded)
                    (omega (
                      arith,
                      ltb→le _ _ full,
                      length-take padded (drop offset file),
                      length-drop offset file,
                      header_padded-pos header,
                    ))
                    (omega (arith, header_padded-pos header))))
        ]
      ]

  -- The scan ends on every file, whatever its bytes, at an offset that the file holds.
  pub scan_file_total :
      (file : Bytes) → (s : Scanned) × (scan_file crc32c file ≡ some s) × (s.1 ≤ length file)
  unfolding scan_file
  scan_file_total file = scan_loop_total (suc (length file)) file 0 (omega arith) (omega arith)
