-- ===== src/Server/Registry/RoundTrip.antt =====
-- What the registry writes, it reads, also where the file ends early.
use skeg.Prelude.{
  ℕ, ◌≤◌, ◌<◌, ◌^◌, ◌≡◌, refl, sym, ap, ◌∙◌, arith, true, Bytes, List, [], ◌++◌, some, map, to_le,
  take, drop, length, All, ltb, le→ltb, lt→ltb, length-append, from_le-at, inl, inr, bytes_beq,
  bytes_beq_iff, Bool-cases, ltb→lt, ltb→le,
}
use skeg.Server.Registry.{write_entries, write_registry, read_registry, vindex_registry_v2_magic}
use skeg.Server.Registry.Entries.{IsEntry, kept, split_front, IsRead, read_entries-IsRead}

starts_with_magic :
    (x r rest : Bytes)
    → x ++ r ≡ vindex_registry_v2_magic ++ rest
    → 4 ≤ length x
    → bytes_beq (take 4 x) vindex_registry_v2_magic ≡ true
starts_with_magic x r rest whole h =
    let (same, left) = split_front vindex_registry_v2_magic rest x r whole h in
    (bytes_beq_iff (take 4 x) vindex_registry_v2_magic).1 (ap (take 4) same)

-- A file without a count has no entries.
read_registry_short :
    (x r rest : Bytes)
    → x ++ r ≡ vindex_registry_v2_magic ++ rest
    → length x < 8
    → read_registry (some x) ≡ []
unfolding read_registry
read_registry_short x r rest whole h =
    let v2 = bytes_beq (take 4 x) vindex_registry_v2_magic in
    elim (Bool-cases v2) [
      | inl magic ↦ rw (magic, lt→ltb (length x) 8 h) refl
      | inr other ↦ elim (Bool-cases (ltb (length x) 4)) [
        | inl tiny ↦ rw (other, tiny) refl
        | inr four ↦
            let magic = starts_with_magic x r rest whole (ltb→le (length x) 4 four) in absurd cc
      ]
    ]

read_registry_long :
    (entries : List (Bytes × ℕ × ℕ)) (x r : Bytes)
    → All IsEntry entries
    → length entries < 2 ^ 32
    → x ++ r ≡ vindex_registry_v2_magic ++ (to_le 4 (length entries) ++ write_entries entries)
    → 8 ≤ length x
    → IsRead r (read_registry (some x)) entries
unfolding read_registry
read_registry_long entries x r h few whole enough =
    let count = to_le 4 (length entries) in
    let magic =
      starts_with_magic x r (count ++ write_entries entries) whole (omega (arith, enough)) in
    let (same, left) =
      split_front (vindex_registry_v2_magic ++ count) (write_entries entries) x r whole enough in
    let number = from_le-at 4 4 (length entries) x (drop 8 x) (ap (drop 4) same) few in
    rw (magic, le→ltb (length x) 8 enough, number)
      (read_entries-IsRead entries 8 x (drop 8 x) r h refl left)

-- The registry of entries that the guard on names accepts, cut anywhere: what is read is a prefix of what
-- was written, and all of it if no byte is missing.
pub read_registry-write_registry :
    (entries : List (Bytes × ℕ × ℕ)) (x r : Bytes)
    → All IsEntry entries
    → length entries < 2 ^ 32
    → x ++ r ≡ write_registry entries
    → IsRead r (read_registry (some x)) entries
unfolding write_registry
read_registry-write_registry entries x r h few whole =
    let count = to_le 4 (length entries) in
    let body = count ++ write_entries entries in
    let head = vindex_registry_v2_magic ++ count in
    elim (Bool-cases (ltb (length x) 8)) [
      | inl short ↦
          let empty = read_registry_short x r body whole (ltb→lt (length x) 8 short) in
          let total = sym (length-append x r) ∙ ap length whole in
          let less = ltb→lt (length x) 8 short in
          (
            (map kept entries, ap (λ es. es ++ map kept entries) empty),
            λ e. absurd (omega (arith, total, less, ap length e)),
          )
      | inr long ↦ read_registry_long entries x r h few whole (ltb→le (length x) 8 long)
    ]
