-- ===== src/Core/Snapshot/RoundTrip.antt =====
-- A snapshot is read back as it was written.
use skeg.Prelude.{
  ℕ, zero, suc, ◌+◌, ◌-◌, ◌^◌, ◌<◌, ◌≤◌, ◌≡◌, refl, ap, ap₂, sym, ◌∙◌, arith, Bytes, [], ◌∷◌, ◌++◌,
  some, from_le, to_le, from_le-to_le, slice, take, drop, length, ltb, ◌==◌, true, false,
  length-append, append_assoc, take-append_length, drop-append_length, le→ltb, ==_iff, drop-next,
  slice-at, drop-next_le, from_le-at,
}
use skeg.Core.Index.{IndexEntry}
use skeg.Core.Snapshot.{
  Entries, magic, version, header_len, encode_entry, encode_entries, encode_body, encode, entry_at,
  decode_entries, decode,
}

-- What the fixed-width fields of an entry can hold.
pub record IsStorable (key : Bytes) (e : IndexEntry) : Type 0 where
  pub key_fits : length key < 2 ^ 32
  pub fingerprint_fits : e.fingerprint < 2 ^ 32
  pub segment_fits : e.segment_id < 2 ^ 16
  pub no_pad : e.pad ≡ 0
  pub offset_fits : e.offset < 2 ^ 32
  pub size_fits : e.size < 2 ^ 32

abbrev pub AllStorable : Entries → Type 0
AllStorable [] = Unit
AllStorable ((key, e) ∷ rest) = IsStorable key e × AllStorable rest

length-encode_entry : (key : Bytes) (e : IndexEntry) → length (encode_entry key e) ≡ length key + 18
unfolding encode_entry
length-encode_entry key e = omega (
  arith,
  length-append key
      (to_le 4 e.fingerprint ++ (to_le 2 e.segment_id ++ (to_le 4 e.offset ++ to_le 4 e.size))),
)

-- The parts of an entry that stands at `pos`.
record At (pos : ℕ) (buf key : Bytes) (e : IndexEntry) (rest : Bytes) : Type 0 where
  klen : from_le (slice pos 4 buf) ≡ length key
  entry : entry_at (pos + 4) (length key) buf ≡ (key, e)
  behind : drop (pos + 4 + length key + 14) buf ≡ rest

entry-At :
    (pos : ℕ) (buf key : Bytes) (e : IndexEntry) (rest : Bytes)
    → drop pos buf ≡ encode_entry key e ++ rest
    → IsStorable key e
    → At pos buf key e rest
unfolding entry_at encode_entry
entry-At pos buf key e rest at_pos s =
    let k = length key in
    let size = to_le 4 e.size in
    let offset = to_le 4 e.offset in
    let tail2 = offset ++ size in
    let tail3 = to_le 2 e.segment_id ++ tail2 in
    let tail4 = to_le 4 e.fingerprint ++ tail3 in
    let at0 : drop pos buf ≡ to_le 4 k ++ ((key ++ tail4) ++ rest) = at_pos in
    let at1 : drop (pos + 4) buf ≡ key ++ (tail4 ++ rest) =
      drop-next_le pos 4 k (pos + 4) buf ((key ++ tail4) ++ rest) at0 refl
      ∙ append_assoc key tail4 rest in
    let p = pos + 4 + k in
    let at2 : drop p buf ≡ tail4 ++ rest = drop-next (pos + 4) k buf key (tail4 ++ rest) at1 refl in
    let at3 = drop-next_le p 4 e.fingerprint (p + 4) buf (tail3 ++ rest) at2 refl in
    let at4 = drop-next_le (p + 4) 2 e.segment_id (p + 6) buf (tail2 ++ rest) at3 (omega arith) in
    let at5 = drop-next_le (p + 6) 4 e.offset (p + 10) buf (size ++ rest) at4 (omega arith) in
    let at6 = drop-next_le (p + 10) 4 e.size (p + 14) buf rest at5 (omega arith) in
    record {
      klen = from_le-at pos 4 k buf ((key ++ tail4) ++ rest) at0 s.key_fits;
      entry =
          ap₂ (λ b x. (b, x)) (slice-at (pos + 4) k buf key (tail4 ++ rest) at1 refl)
            (λ i. record {
              fingerprint =
                  from_le-at p 4 e.fingerprint buf (tail3 ++ rest) at2 s.fingerprint_fits i;
              segment_id =
                  from_le-at (p + 4) 2 e.segment_id buf (tail2 ++ rest) at3 s.segment_fits i;
              pad = sym s.no_pad i;
              offset = from_le-at (p + 6) 4 e.offset buf (size ++ rest) at4 s.offset_fits i;
              size = from_le-at (p + 10) 4 e.size buf rest at5 s.size_fits i;
            });
      behind = at6;
    }

decode_entries-encode_entries :
    (entries : Entries) (n pos end : ℕ) (buf rest : Bytes)
    → AllStorable entries
    → length entries ≡ n
    → drop pos buf ≡ encode_entries entries ++ rest
    → pos + length (encode_entries entries) ≤ end
    → decode_entries n pos end buf ≡ some entries
unfolding decode_entries
decode_entries-encode_entries [] zero pos end buf rest s hn at_pos fits = refl
decode_entries-encode_entries [] (suc n) pos end buf rest s hn at_pos fits = absurd (omega arith)
decode_entries-encode_entries (x ∷ es) zero pos end buf rest s hn at_pos fits = absurd (omega arith)
decode_entries-encode_entries ((key, e) ∷ es) (suc n) pos end buf rest (s, ss) hn at_pos fits =
    let more = encode_entries es ++ rest in
    let a =
      entry-At pos buf key e more
        (at_pos ∙ append_assoc (encode_entry key e) (encode_entries es) rest) s in
    let k = length key in
    let q = pos + 4 + k + 14 in
    let total : q + length (encode_entries es) ≤ end =
      omega (
        arith,
        length-append (encode_entry key e) (encode_entries es),
        length-encode_entry key e,
      ) in
    let here : ltb end (pos + 4) ≡ false = le→ltb end (pos + 4) (omega arith) in
    let inside : ltb end q ≡ false = le→ltb end q (omega arith) in
    let rest_eq =
      decode_entries-encode_entries es n q end buf rest ss (omega arith) a.behind total in
    rw (a.klen, here, inside, rest_eq, a.entry) refl

-- The fixed header, read at its offsets.
record Header (buf : Bytes) (hwm max_ts n : ℕ) (rest : Bytes) : Type 0 where
  has_magic : from_le (slice 0 4 buf) ≡ magic
  has_version : from_le (slice 4 1 buf) ≡ version
  has_hwm : from_le (slice 5 2 buf) ≡ hwm
  has_max_ts : from_le (slice 7 8 buf) ≡ max_ts
  has_count : from_le (slice 15 4 buf) ≡ n
  behind : drop header_len buf ≡ rest

encode_body-Header :
    (hwm max_ts : ℕ) (entries : Entries) (sum : Bytes)
    → hwm < 2 ^ 16
    → max_ts < 2 ^ 64
    → length entries < 2 ^ 32
    → Header
        (encode_body hwm max_ts entries ++ sum)
        hwm
        max_ts
        (length entries)
        (encode_entries entries ++ sum)
unfolding encode_body
encode_body-Header hwm max_ts entries sum hh ht hn =
    let buf = encode_body hwm max_ts entries ++ sum in
    let f4 = encode_entries entries ++ sum in
    let f3 = to_le 4 (length entries) ++ f4 in
    let f2 = to_le 8 max_ts ++ f3 in
    let f1 = to_le 2 hwm ++ f2 in
    record {
      has_magic = refl;
      has_version = refl;
      has_hwm = from_le-at 5 2 hwm buf f2 refl hh;
      has_max_ts = from_le-at 7 8 max_ts buf f3 refl ht;
      has_count = from_le-at 15 4 (length entries) buf f4 refl hn;
      behind = refl;
    }

length-encode_body :
    (hwm max_ts : ℕ) (entries : Entries)
    → length (encode_body hwm max_ts entries) ≡ 19 + length (encode_entries entries)
unfolding encode_body
length-encode_body hwm max_ts entries = omega arith

-- The checks of `decode` passed, what it returns.
decode-Header :
    (crc32c : Bytes → ℕ) (buf rest : Bytes) (hwm max_ts n : ℕ) (entries : Entries)
    → ltb (length buf) (header_len + 4) ≡ false
    → (crc32c (take (length buf - 4) buf) == from_le (drop (length buf - 4) buf)) ≡ true
    → Header buf hwm max_ts n rest
    → decode_entries n header_len (length buf - 4) buf ≡ some entries
    → decode crc32c buf ≡ some (record { hwm = hwm; max_ts = max_ts; entries = entries })
unfolding decode
decode-Header crc32c buf rest hwm max_ts n entries long crc h read =
    rw (long, crc, h.has_magic, h.has_version, h.has_count, h.has_hwm, h.has_max_ts, read) refl

encode-body :
    (crc32c : Bytes → ℕ) (hwm max_ts : ℕ) (entries : Entries)
    → encode crc32c hwm max_ts entries
      ≡ encode_body hwm max_ts entries ++ to_le 4 (crc32c (encode_body hwm max_ts entries))
unfolding encode
encode-body crc32c hwm max_ts entries = refl

-- Decoding an encoded snapshot gives back its high-water mark, its newest timestamp and its entries,
-- for values that fit their fields and a checksum of 32 bits.
pub decode-encode :
    (crc32c : Bytes → ℕ) (hwm max_ts : ℕ) (entries : Entries)
    → ((bs : Bytes) → crc32c bs < 2 ^ 32)
    → hwm < 2 ^ 16
    → max_ts < 2 ^ 64
    → length entries < 2 ^ 32
    → AllStorable entries
    → decode crc32c (encode crc32c hwm max_ts entries)
      ≡ some (record { hwm = hwm; max_ts = max_ts; entries = entries })
decode-encode crc32c hwm max_ts entries crc_fits hh ht hn s =
    let body = encode_body hwm max_ts entries in
    let sum = to_le 4 (crc32c body) in
    let buf = body ++ sum in
    let h = encode_body-Header hwm max_ts entries sum hh ht hn in
    let len = length-encode_body hwm max_ts entries in
    let whole : length buf ≡ length body + 4 = omega (arith, length-append body sum) in
    let end : length buf - 4 ≡ length body = omega arith in
    let long : ltb (length buf) 23 ≡ false = le→ltb (length buf) 23 (omega arith) in
    let stored : from_le (drop (length buf - 4) buf) ≡ crc32c body =
      ap from_le (drop-append_length (length buf - 4) body sum (sym end))
      ∙ from_le-to_le 4 (crc32c body) (crc_fits body) in
    let covered = ap crc32c (take-append_length (length buf - 4) body sum (sym end)) in
    let crc =
      (==_iff (crc32c (take (length buf - 4) buf)) (from_le (drop (length buf - 4) buf))).1
        (covered ∙ sym stored) in
    let read =
      decode_entries-encode_entries entries (length entries) header_len (length buf - 4) buf sum s
        refl h.behind (omega arith) in
    ap (decode crc32c) (encode-body crc32c hwm max_ts entries)
    ∙ decode-Header crc32c buf (encode_entries entries ++ sum) hwm max_ts (length entries) entries
        long crc h read
