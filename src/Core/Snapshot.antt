-- ===== src/Core/Snapshot.antt =====
-- crates/skeg-core/src/snapshot.rs: the bytes of an index snapshot. `crc32c` is the function of the
-- crc32c crate, a parameter. Writing the file and renaming it is the platform's.
pub mod RoundTrip
use skeg.Prelude.{
  ℕ, zero, suc, ◌+◌, ◌-◌, Bytes, List, [], ◌∷◌, ◌++◌, Option, none, some, from_le, to_le, slice,
  take, drop, length, ltb, ◌==◌, if◌then◌else◌,
}
use skeg.Core.Index.{IndexEntry}

abbrev pub magic : ℕ
magic = 0x534B5350

abbrev pub version : ℕ
version = 1

abbrev pub header_len : ℕ
header_len = 19

abbrev pub Entries : Type 0
Entries = List (Bytes × IndexEntry)

pub record Snapshot : Type 0 where
  pub hwm : ℕ
  pub max_ts : ℕ
  pub entries : Entries

unfoldable pub encode_entry : Bytes → IndexEntry → Bytes
encode_entry key e =
    to_le 4 (length key)
    ++ (key
        ++ (to_le 4 e.fingerprint
            ++ (to_le 2 e.segment_id ++ (to_le 4 e.offset ++ to_le 4 e.size))))

abbrev pub encode_entries : Entries → Bytes
encode_entries [] = []
encode_entries ((key, e) ∷ rest) = encode_entry key e ++ encode_entries rest

-- What the checksum covers.
unfoldable pub encode_body : ℕ → ℕ → Entries → Bytes
unfolding encode_entry
encode_body hwm max_ts entries =
    to_le 4 magic
    ++ (to_le 1 version
        ++ (to_le 2 hwm
            ++ (to_le 8 max_ts ++ (to_le 4 (length entries) ++ encode_entries entries))))

unfoldable pub encode : (Bytes → ℕ) → ℕ → ℕ → Entries → Bytes
unfolding encode_body
encode crc32c hwm max_ts entries =
    let body = encode_body hwm max_ts entries in body ++ to_le 4 (crc32c body)

abbrev pub map_some {ℓ κ} : {A : Type ℓ} {B : Type κ} → (A → B) → Option A → Option B
map_some f none = none
map_some f (some a) = some (f a)

-- The entry whose key begins at `pos`.
unfoldable pub entry_at : ℕ → ℕ → Bytes → Bytes × IndexEntry
entry_at pos klen buf = (
  slice pos klen buf,
  record {
    fingerprint = from_le (slice (pos + klen) 4 buf);
    segment_id = from_le (slice (pos + klen + 4) 2 buf);
    pad = 0;
    offset = from_le (slice (pos + klen + 6) 4 buf);
    size = from_le (slice (pos + klen + 10) 4 buf);
  },
)

-- The loop over the `n` entries from `pos` on; `end` is where the checksum begins.
unfoldable pub decode_entries : ℕ → ℕ → ℕ → Bytes → Option Entries
unfolding entry_at
decode_entries zero pos end buf = some []
decode_entries (suc n) pos end buf =
    let klen = from_le (slice pos 4 buf) in
    let rest = decode_entries n (pos + 4 + klen + 14) end buf in
    if ltb end (pos + 4)
    then none
    else if ltb end (pos + 4 + klen + 14)
    then none
    else map_some (λ es. entry_at (pos + 4) klen buf ∷ es) rest

unfoldable pub decode : (Bytes → ℕ) → Bytes → Option Snapshot
unfolding decode_entries
decode crc32c buf =
    let end = length buf - 4 in
    if ltb (length buf) (header_len + 4)
    then none
    else if crc32c (take end buf) == from_le (drop end buf)
    then (if from_le (slice 0 4 buf) == magic
        then (if from_le (slice 4 1 buf) == version
            then map_some
                (λ es. record {
                  hwm = from_le (slice 5 2 buf);
                  max_ts = from_le (slice 7 8 buf);
                  entries = es;
                })
                (decode_entries (from_le (slice 15 4 buf)) header_len end buf)
            else none)
        else none)
    else none
