-- ===== src/Core/Cache/Operations.antt =====
-- The public operations of the cache: its accounting, what it holds, and its byte budget.
use skeg.Prelude.{
  ℕ, ◌+◌, ◌%◌, ◌^◌, ◌<◌, ◌≡◌, inl, inr, refl, sym, subst, arith, Bytes, [], ◌∷◌, ◌++◌, none, some,
  of_some, Option-cases, min, length, if◌then◌else◌, bytes_key, nat_key, lookup, remove,
}
use skeg.Core.Cache.{
  CacheEntry, S3Fifo, new, get, hit, insert_for, insert_at, insert_new, place, overwrite,
  remove_key, remove_found, make_room, sub_usize, is_none, entry_overhead,
}
use skeg.Core.Cache.Accounting.{
  IsAccounted, drop_entry-IsAccounted, touch-IsAccounted, admit-IsAccounted, resize-IsAccounted,
}
use skeg.Core.Cache.Keeps.{make_room-keeps}
use skeg.Core.Cache.Preserve.{IsAccounted-rules}
use skeg.Core.Cache.Forget.{Shrunk, Shrunk-refl, Shrunk-rules}

-- The size that `insert_for` charges.
abbrev pub entry_size : Bytes → ℕ → ℕ
entry_size key value_bytes = length key + value_bytes + entry_overhead

module _ {V : Type 0} where
  pub new-IsAccounted : (budget : ℕ) → IsAccounted (new V budget)
  unfolding new
  new-IsAccounted budget = record {
    unique = tt;
    bytes = refl;
    charges = record {
      unique = tt;
      default = refl;
      reads = λ t. ground arith;
      resident = λ t n h. absurd (cc);
    };
  }

  pub get-IsAccounted : (key : Bytes) (s : S3Fifo V) → IsAccounted s → IsAccounted (get key s).1
  unfolding get hit
  get-IsAccounted key s a = elim (Option-cases (lookup key s.map)) [
    | inl miss ↦ rw miss (record { unique = a.unique; bytes = a.bytes; charges = a.charges })
    | inr (e, found) ↦
        let t =
          touch-IsAccounted key e (record e { freq = min (e.freq + 1) 3 }) s found refl refl a in
        rw found (record { unique = t.unique; bytes = t.bytes; charges = t.charges })
  ]

  overwrite-IsAccounted :
      (key : Bytes) (value : V) (n tenant : ℕ) (e : CacheEntry V) (s : S3Fifo V)
      → lookup key s.map ≡ some e
      → 0 < n
      → IsAccounted s
      → IsAccounted (overwrite key value n tenant e s)
  unfolding overwrite
  overwrite-IsAccounted key value n tenant e s found pos a =
      resize-IsAccounted key e (record e { value = value; size = n; tenant = tenant })
        (record s {
          small_bytes =
              (if e.in_small then sub_usize (s.small_bytes + n) e.size else s.small_bytes);
        })
        found pos (record { unique = a.unique; bytes = a.bytes; charges = a.charges })

  module _ (xxh3 : Bytes → ℕ) where
    place-IsAccounted :
        (key : Bytes) (value : V) (n tenant : ℕ) (s : S3Fifo V)
        → lookup key s.map ≡ none
        → 0 < n
        → IsAccounted s
        → IsAccounted (place xxh3 key value n tenant s)
    unfolding place
    place-IsAccounted key value n tenant s absent pos a =
        let in_small = is_none (lookup (xxh3 key) s.ghost_set) in
        admit-IsAccounted key
          (record { value = value; size = n; freq = 0; in_small = in_small; tenant = tenant })
          (record s {
            ghost_set = remove (xxh3 key) s.ghost_set;
            small = (if in_small then s.small ++ (key ∷ []) else s.small);
            small_bytes = (if in_small then s.small_bytes + n else s.small_bytes);
            main = (if in_small then s.main else s.main ++ (key ∷ []));
          })
          absent pos (record { unique = a.unique; bytes = a.bytes; charges = a.charges })

    -- A key that is not held is not held after evictions.
    absent-Shrunk :
        (key : Bytes) (s t : S3Fifo V)
        → lookup key s.map ≡ none
        → Shrunk s t
        → lookup key t.map ≡ none
    absent-Shrunk key s t absent h = ground (arith, h.forgets key)

    -- The state after the evictions of an insertion.
    pub record Room (key : Bytes) (n : ℕ) (s u : S3Fifo V) : Type 0 where
      pub shrunk : Shrunk s u
      pub accounted : IsAccounted s → IsAccounted u
      pub absent : lookup key s.map ≡ none → lookup key u.map ≡ none

    pub make_room-Room :
        (fuel n : ℕ) (key : Bytes) (s u : S3Fifo V)
        → make_room xxh3 fuel n s ≡ some u
        → Room key n s u
    make_room-Room fuel n key s u h =
        let shrunk =
          make_room-keeps xxh3 (Shrunk s) (Shrunk-rules xxh3 s) fuel n s u (Shrunk-refl s) h in
        record {
          shrunk = shrunk;
          accounted = λ a. make_room-keeps xxh3 IsAccounted (IsAccounted-rules xxh3) fuel n s u a h;
          absent = λ absent. absent-Shrunk key s u absent shrunk;
        }

    pub insert_new-some :
        (key : Bytes) (value : V) (n tenant : ℕ) (s t : S3Fifo V)
        → insert_new xxh3 key value n tenant s ≡ some t
        → (u : S3Fifo V) × (make_room xxh3 (length s.map + 2) n s ≡ some u)
          × (t ≡ place xxh3 key value n tenant u)
    unfolding insert_new
    insert_new-some key value n tenant s t h =
        elim (Option-cases (make_room xxh3 (length s.map + 2) n s)) [
          | inl hang ↦ cc (rw (hang, insert_new) at h)
          | inr (u, e) ↦ (u, e, sym (of_some (rw (e, insert_new) at h)))
        ]

    -- Inserting keeps the accounting, over every eviction that it makes.
    pub insert_for-IsAccounted :
        (key : Bytes) (value : V) (value_bytes tenant : ℕ) (s t : S3Fifo V)
        → IsAccounted s
        → insert_for xxh3 key value value_bytes tenant s ≡ some t
        → IsAccounted t
    unfolding insert_for insert_at
    insert_for-IsAccounted key value value_bytes tenant s t a h =
        elim (Option-cases (lookup key s.map)) [
          | inl absent ↦
              let n : ℕ = entry_size key value_bytes in
              let (u, room, e) =
                insert_new-some key value n (tenant % 2 ^ 64) s t (rw (absent, insert_for) at h) in
              let r = make_room-Room (length s.map + 2) n key s u room in
              subst IsAccounted (sym e) (
                place-IsAccounted key value n (tenant % 2 ^ 64) u (r.absent absent) (omega arith)
                  (r.accounted a))
          | inr (e, found) ↦ subst IsAccounted (of_some (rw (found, insert_for) at h)) (
              overwrite-IsAccounted key value (entry_size key value_bytes) (tenant % 2 ^ 64) e s
                found (omega arith) a)
        ]

  pub remove_key-IsAccounted :
      (key : Bytes) (s : S3Fifo V) → IsAccounted s → IsAccounted (remove_key key s).0
  unfolding remove_key remove_found
  remove_key-IsAccounted key s a = elim (Option-cases (lookup key s.map)) [
    | inl absent ↦ rw absent a
    | inr (e, found) ↦ rw found (
        drop_entry-IsAccounted key e
          (record s {
            small_bytes = (if e.in_small then sub_usize s.small_bytes e.size else s.small_bytes);
          })
          found (record { unique = a.unique; bytes = a.bytes; charges = a.charges }))
  ]

-- The calls that a cache can have seen since `new`.
pub data Reach (V : Type 0) (xxh3 : Bytes → ℕ) : S3Fifo V → Type 0 where
  created : (budget : ℕ) → Reach V xxh3 (new V budget)
  read : (key : Bytes) {s : S3Fifo V} → Reach V xxh3 s → Reach V xxh3 (get key s).1
  inserted :
      (key : Bytes) (value : V) (value_bytes tenant : ℕ) {s t : S3Fifo V}
      → Reach V xxh3 s
      → insert_for xxh3 key value value_bytes tenant s ≡ some t
      → Reach V xxh3 t
  removed : (key : Bytes) {s : S3Fifo V} → Reach V xxh3 s → Reach V xxh3 (remove_key key s).0

-- After any calls, whatever they evicted, the byte total is the sum of the sizes of the held entries,
-- the charge of every tenant is the sum over its own entries, and the map of the tenants holds exactly
-- positive charges and never tenant 0.
pub Reach-IsAccounted :
    (V : Type 0) (xxh3 : Bytes → ℕ) (s : S3Fifo V) → Reach V xxh3 s → IsAccounted s
Reach-IsAccounted V xxh3 _ (created budget) = new-IsAccounted budget
Reach-IsAccounted V xxh3 _ (read key {s} r) = get-IsAccounted key s (Reach-IsAccounted V xxh3 s r)
Reach-IsAccounted V xxh3 _ (inserted key value value_bytes tenant {s} {t} r h) =
    insert_for-IsAccounted xxh3 key value value_bytes tenant s t (Reach-IsAccounted V xxh3 s r) h
Reach-IsAccounted V xxh3 _ (removed key {s} r) =
    remove_key-IsAccounted key s (Reach-IsAccounted V xxh3 s r)
