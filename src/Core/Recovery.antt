-- ===== src/Core/Recovery.antt =====
-- crates/skeg-core/src/vlog.rs, the recovery half: the gate of atomic batches, the full scan by
-- timestamps and the rescan over a snapshot. A scanned segment is its id and the pairs that
-- `scan_file` reports, in order.
pub mod Gate
pub mod Newest
pub mod Rescan
use skeg.Prelude.{
  ℕ, ◌+◌, ◌%◌, ◌^◌, Bytes, List, [], ◌∷◌, ◌++◌, Option, none, some, Bool, true, false, from_le,
  take, length, ltb, ◌==◌, max, if◌then◌else◌, Assoc, bytes_key, lookup, insert, foldl,
}
use skeg.Core.Record.{RecordKind, scalar, tombstone, batch_begin, Record, padded_record_size}
use skeg.Core.Index
use skeg.Core.Index.{Index, IndexEntry, fingerprint}

unfoldable pub is_batch_begin : RecordKind → Bool
is_batch_begin batch_begin = true
is_batch_begin _ = false

unfoldable pub is_tombstone : RecordKind → Bool
is_tombstone tombstone = true
is_tombstone _ = false

pub record BatchGate : Type 0 where
  pub expect : Option ℕ
  pub pending : List (ℕ × Record)

-- `BatchGate::default()`
abbrev pub fresh : BatchGate
fresh = record { expect = none; pending = [] }

-- `value.get(..4)` is none on a shorter value, and the count is then 0.
unfoldable pub batch_count : Bytes → ℕ
batch_count value = if ltb (length value) 4 then 0 else from_le (take 4 value)

unfoldable pub hold : BatchGate → ℕ → Record → Option ℕ → BatchGate × List (ℕ × Record)
hold gate offset rec none = (gate, (offset, rec) ∷ [])
hold gate offset rec (some n) =
    let pending = gate.pending ++ ((offset, rec) ∷ []) in
    if length pending == n
    then (record { expect = none; pending = [] }, pending)
    else (record { expect = some n; pending = pending }, [])

-- The new gate, and the records that `apply` is called with, in order.
unfoldable pub feed : BatchGate → ℕ → Record → BatchGate × List (ℕ × Record)
unfolding is_batch_begin batch_count hold
feed gate offset rec =
    if is_batch_begin rec.kind
    then (
      record {
        expect = (if ltb 0 (batch_count rec.value) then some (batch_count rec.value) else none);
        pending = [];
      },
      [],
    )
    else hold gate offset rec gate.expect

-- One segment through a gate; what is pending at its end is dropped.
unfoldable pub feed_all : BatchGate → List (ℕ × Record) → List (ℕ × Record)
feed_all gate [] = []
feed_all gate ((offset, rec) ∷ rest) =
    let (gate', ready) = feed gate offset rec in ready ++ feed_all gate' rest

pub record Scanned : Type 0 where
  pub id : ℕ
  pub records : List (ℕ × Record)

-- `off as u32` and `padded_record_size(..) as u32`
unfoldable pub entry_of : (Bytes → ℕ) → ℕ → ℕ → Record → IndexEntry
entry_of xxh3 id offset r = record {
  fingerprint = fingerprint xxh3 r.key;
  segment_id = id;
  pad = 0;
  offset = offset % 2 ^ 32;
  size = padded_record_size (length r.key) (length r.value) % 2 ^ 32;
}

pub record Winner : Type 0 where
  pub ts : ℕ
  pub kind : RecordKind
  pub entry : IndexEntry

abbrev pub Winners : Type 0
Winners = Assoc Bytes Winner

abbrev pub is_newer : ℕ → Option Winner → Bool
is_newer ts none = true
is_newer ts (some w) = ltb w.ts ts

-- The callback of the full scan.
unfoldable pub keep_newer : (Bytes → ℕ) → ℕ → Winners → ℕ × Record → Winners
keep_newer xxh3 id winners (offset, r) =
    if is_newer r.ts (lookup r.key winners)
    then insert r.key (record { ts = r.ts; kind = r.kind; entry = entry_of xxh3 id offset r })
        winners
    else winners

unfoldable pub scan_winners : (Bytes → ℕ) → Winners → List Scanned → Winners
unfolding keep_newer
scan_winners xxh3 winners [] = winners
scan_winners xxh3 winners (seg ∷ segs) =
    scan_winners xxh3 (foldl (keep_newer xxh3 seg.id) winners (feed_all fresh seg.records)) segs

-- The index holds the winners that are not tombstones.
unfoldable pub index_winners : Index → Winners → Index
index_winners index [] = index
index_winners index ((key, w) ∷ rest) =
    index_winners (if is_tombstone w.kind then index else Index.set index key w.entry) rest

unfoldable pub full_scan : (Bytes → ℕ) → List Scanned → Index
full_scan xxh3 segs = index_winners Index.new (scan_winners xxh3 [] segs)

-- The callback of the rescan over a snapshot: the last record of a key wins.
unfoldable pub apply_last : (Bytes → ℕ) → ℕ → Index → ℕ × Record → Index
apply_last xxh3 id index (offset, r) =
    if is_tombstone r.kind
    then (Index.remove_key index r.key).0
    else Index.set index r.key (entry_of xxh3 id offset r)

-- Segments below the high-water mark are skipped.
unfoldable pub rescan : (Bytes → ℕ) → ℕ → Index → List Scanned → Index
rescan xxh3 hwm index [] = index
rescan xxh3 hwm index (seg ∷ segs) =
    rescan xxh3 hwm
      (if ltb seg.id hwm
        then index
        else foldl (apply_last xxh3 seg.id) index (feed_all fresh seg.records))
      segs

-- The clock resumes above every timestamp seen, those of withheld records included.
unfoldable pub newest_ts : ℕ → List (ℕ × Record) → ℕ
newest_ts ts [] = ts
newest_ts ts ((offset, r) ∷ rest) = newest_ts (max ts r.ts) rest
