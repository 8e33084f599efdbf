-- ===== src/Core/Segment.antt =====
-- crates/skeg-core/src/segment.rs: the recovery scan of a segment file. A file is its bytes; the
-- callback of the scan is the list of the pairs it is called with, in order.
pub mod Total
pub mod Replay
pub mod Tail
use skeg.Prelude.{
  ℕ, zero, suc, ◌+◌, Bytes, List, [], ◌∷◌, Option, none, some, from_le, slice, length, ltb,
  if◌then◌else◌,
}
use skeg.Core.Error.{Result, ok, err}
use skeg.Core.Record.{Record, header_size, padded_record_size, decode_record}

-- `pread_sync` reads what the file holds from `offset` on, at most `n` bytes.
abbrev pub pread : Bytes → ℕ → ℕ → Bytes
pread file offset n = slice offset n file

abbrev pub Scanned : Type 0
Scanned = List (ℕ × Record) × ℕ

unfoldable pub scan_found : ℕ → Result Record → Option Scanned → Option Scanned
scan_found offset (err e) rest = some ([], offset)
scan_found offset (ok rec) none = none
scan_found offset (ok rec) (some (recs, end)) = some ((offset, rec) ∷ recs, end)

-- `padded` of the header at `offset`.
unfoldable pub header_padded : Bytes → ℕ
header_padded header =
    padded_record_size (from_le (slice 12 4 header)) (from_le (slice 16 4 header))

-- The loop on fuel; `none` means that the fuel ran out.
unfoldable pub scan_loop : (Bytes → ℕ) → ℕ → Bytes → ℕ → Option Scanned
scan_loop crc32c zero file offset = none
scan_loop crc32c (suc fuel) file offset =
    let header = pread file offset header_size in
    let padded = header_padded header in
    let buf = pread file offset padded in
    let rest = scan_loop crc32c fuel file (offset + padded) in
    if ltb (length header) header_size
    then some ([], offset)
    else if ltb (length buf) padded
    then some ([], offset)
    else scan_found offset (decode_record crc32c buf) rest

-- A round goes on by 128 bytes at least that the file holds.
unfoldable pub scan_file : (Bytes → ℕ) → Bytes → Option Scanned
scan_file crc32c file = scan_loop crc32c (suc (length file)) file 0
