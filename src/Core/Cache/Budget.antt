-- ===== src/Core/Cache/Budget.antt =====
-- The byte budget of the cache, and what a caller reads back from it.
use skeg.Prelude.{
  ℕ, zero, suc, ◌+◌, ◌%◌, ◌^◌, ◌≤◌, ◌≡◌, ◌⊎◌, inl, inr, refl, ap, sym, subst, ◌∙◌, arith, Bytes, [],
  ◌∷◌, ◌++◌, none, some, of_some, false, Bool-cases, Option-cases, ltb, not, ◌&&◌, min, length,
  if◌then◌else◌, Assoc, bytes_key, nat_key, bytes_beq, bytes_beq_iff, lookup, insert, remove,
  lookup-insert, total,
}
use skeg.Core.Cache.{
  CacheEntry, S3Fifo, get, hit, insert_for, insert_at, place, overwrite, map_some, make_room,
  evict_one, sub_usize, is_none, is_empty, sub_tenant_bytes,
}
use skeg.Core.Cache.Accounting.{IsAccounted, sub-SameButCharges, add-SameButCharges, size_of}
use skeg.Core.Cache.Forget.{held}
use skeg.Core.Cache.Operations.{entry_size, make_room-Room, insert_new-some}

module _ {V : Type 0} where
  -- The tests of the eviction loop when it ends.
  make_room_exit :
      (xxh3 : Bytes → ℕ) (fuel n : ℕ) (s t : S3Fifo V)
      → make_room xxh3 fuel n s ≡ some t
      → (t.total_bytes + n ≤ t.budget_bytes) ⊎ (t.map ≡ [])
  unfolding make_room
  make_room_exit xxh3 zero n s t h = cc
  make_room_exit xxh3 (suc fuel) n s t h =
      elim (Bool-cases (ltb s.budget_bytes (s.total_bytes + n) && not (is_empty s.map))) [
        | inl over ↦ elim (Option-cases (evict_one xxh3 s)) [
          | inl hang ↦ cc (rw (over, hang, make_room) at h)
          | inr (u, e) ↦ make_room_exit xxh3 fuel n u t (rw (over, e, make_room) at h)
        ]
        | inr fits ↦
            subst (λ (u : S3Fifo V). (u.total_bytes + n ≤ u.budget_bytes) ⊎ (u.map ≡ []))
              (of_some (rw (fits, make_room) at h)) (exit (s.map) refl fits)
      ]
    where
      exit :
          (m : Assoc Bytes (CacheEntry V))
          → s.map ≡ m
          → (ltb s.budget_bytes (s.total_bytes + n) && not (is_empty s.map)) ≡ false
          → (s.total_bytes + n ≤ s.budget_bytes) ⊎ (s.map ≡ [])
      exit [] e f = inr e
      exit (p ∷ m) e f = inl (ground (arith, ap is_empty e))

  -- What `place` does to the map and the bytes.
  record Placed (key : Bytes) (value : V) (n : ℕ) (u t : S3Fifo V) : Type 0 where
    entry : CacheEntry V
    map : t.map ≡ insert key entry u.map
    value_at : entry.value ≡ value
    total_bytes : t.total_bytes ≡ u.total_bytes + n
    budget_bytes : t.budget_bytes ≡ u.budget_bytes

  place-Placed :
      (xxh3 : Bytes → ℕ) (key : Bytes) (value : V) (n tenant : ℕ) (u : S3Fifo V)
      → Placed key value n u (place xxh3 key value n tenant u)
  unfolding place
  place-Placed xxh3 key value n tenant u =
      let in_small = is_none (lookup (xxh3 key) u.ghost_set) in
      let new_entry : CacheEntry V = record {
        value = value;
        size = n;
        freq = 0;
        in_small = in_small;
        tenant = tenant;
      } in
      let c = add-SameButCharges tenant n (record u {
        ghost_set = remove (xxh3 key) u.ghost_set;
        small = (if in_small then u.small ++ (key ∷ []) else u.small);
        small_bytes = (if in_small then u.small_bytes + n else u.small_bytes);
        main = (if in_small then u.main else u.main ++ (key ∷ []));
        map = insert key new_entry u.map;
        total_bytes = u.total_bytes + n;
      }) in
      record {
        entry = new_entry;
        map = c.map;
        value_at = refl;
        total_bytes = c.total_bytes;
        budget_bytes = c.budget_bytes;
      }

  -- What `overwrite` does.
  overwrite-Placed :
      (key : Bytes) (value : V) (n tenant : ℕ) (e : CacheEntry V) (s : S3Fifo V)
      → (entry : CacheEntry V) × ((overwrite key value n tenant e s).map ≡ insert key entry s.map)
        × (entry.value ≡ value)
        × ((overwrite key value n tenant e s).total_bytes ≡ sub_usize (s.total_bytes + n) e.size)
        × ((overwrite key value n tenant e s).budget_bytes ≡ s.budget_bytes)
  unfolding overwrite
  overwrite-Placed key value n tenant e s =
      let new_entry : CacheEntry V = record e { value = value; size = n; tenant = tenant } in
      let s1 : S3Fifo V = record s {
        map = insert key new_entry s.map;
        total_bytes = sub_usize (s.total_bytes + n) e.size;
        small_bytes = (if e.in_small then sub_usize (s.small_bytes + n) e.size else s.small_bytes);
      } in
      let c = sub-SameButCharges e.tenant e.size s1 in
      let d = add-SameButCharges tenant n (sub_tenant_bytes e.tenant e.size s1) in
      (
        new_entry,
        d.map ∙ c.map,
        refl,
        d.total_bytes ∙ c.total_bytes,
        d.budget_bytes ∙ c.budget_bytes,
      )

  -- A new key that fits the budget on its own never brings the cache over its budget, whatever it
  -- held before: when the insertion returns, the charged bytes are within the budget.
  pub insert_for_within_budget :
      (xxh3 : Bytes → ℕ) (key : Bytes) (value : V) (value_bytes tenant : ℕ) (s t : S3Fifo V)
      → IsAccounted s
      → lookup key s.map ≡ none
      → entry_size key value_bytes ≤ s.budget_bytes
      → insert_for xxh3 key value value_bytes tenant s ≡ some t
      → (t.total_bytes ≤ t.budget_bytes) × (t.budget_bytes ≡ s.budget_bytes)
  unfolding insert_for insert_at
  insert_for_within_budget xxh3 key value value_bytes tenant s t a absent fits h =
      let n : ℕ = entry_size key value_bytes in
      let (u, room, e) =
        insert_new-some xxh3 key value n (tenant % 2 ^ 64) s t (rw (absent, insert_for) at h) in
      let r = make_room-Room xxh3 (length s.map + 2) n key s u room in
      let p = place-Placed xxh3 key value n (tenant % 2 ^ 64) u in
      let limit : u.budget_bytes ≡ s.budget_bytes = r.shrunk.budget_bytes in
      let acc = r.accounted a in
      (
        rw e (elim (make_room_exit xxh3 (length s.map + 2) n s u room) [
          | inl room_left ↦ omega (arith, p.total_bytes, p.budget_bytes)
          | inr emptied ↦
              let none_left : u.total_bytes ≡ 0 = acc.bytes ∙ ap (total size_of) emptied in
              omega (arith, p.total_bytes, p.budget_bytes)
        ]),
        rw e (p.budget_bytes ∙ limit),
      )

  insert-held :
      (key k : Bytes) (e : CacheEntry V) (m : Assoc Bytes (CacheEntry V))
      → held k (insert key e m) ≡ (if bytes_beq key k then some e.value else held k m)
  insert-held key k e m = rw (lookup-insert key k e m) (ground arith)

  -- What a reader finds after an insertion: the new value under its key, and under every other key the
  -- value from before or, if it was evicted, nothing.
  pub insert_for-held :
      (xxh3 : Bytes → ℕ) (key : Bytes) (value : V) (value_bytes tenant : ℕ) (s t : S3Fifo V)
      → insert_for xxh3 key value value_bytes tenant s ≡ some t
      → (k : Bytes)
      → (held k t.map ≡ (if bytes_beq key k then some value else held k s.map))
        ⊎ ((bytes_beq key k ≡ false) × (held k t.map ≡ none))
  unfolding insert_for insert_at
  insert_for-held xxh3 key value value_bytes tenant s t h k =
      elim (Option-cases (lookup key s.map)) [
        | inl absent ↦
            let n : ℕ = entry_size key value_bytes in
            let (u, room, e) =
              insert_new-some xxh3 key value n (tenant % 2 ^ 64) s t
                (rw (absent, insert_for) at h) in
            let r = make_room-Room xxh3 (length s.map + 2) n key s u room in
            let p = place-Placed xxh3 key value n (tenant % 2 ^ 64) u in
            let now : held k t.map
                ≡ (if bytes_beq key k then some p.entry.value else held k u.map) =
              ap (λ (c : S3Fifo V). held k c.map) e
              ∙ ap (held k) p.map
              ∙ insert-held key k p.entry u.map in
            elim (Bool-cases (bytes_beq key k)) [
              | inl own ↦ inl (now ∙ rw own (ap some p.value_at))
              | inr other ↦ elim (r.shrunk.forgets k) [
                | inl gone ↦ inr (other, now ∙ rw other gone)
                | inr kept ↦ inl (now ∙ rw other kept)
              ]
            ]
        | inr (e, found) ↦
            let (entry, at_map, at_value, _bytes, _limit) =
              overwrite-Placed key value (entry_size key value_bytes) (tenant % 2 ^ 64) e s in
            let et = of_some (rw (found, insert_for) at h) in
            let now : held k t.map ≡ (if bytes_beq key k then some entry.value else held k s.map) =
              ap (λ (c : S3Fifo V). held k c.map) (sym et)
              ∙ ap (held k) at_map
              ∙ insert-held key k entry s.map in
            elim (Bool-cases (bytes_beq key k)) [
              | inl own ↦ inl (now ∙ rw own (ap some at_value))
              | inr other ↦ inl (now ∙ rw other)
            ]
      ]

  -- A read returns the held value, and leaves every held value as it is.
  pub get_reads :
      (key : Bytes) (s : S3Fifo V)
      → ((get key s).0 ≡ held key s.map) × ((k : Bytes) → held k (get key s).1.map ≡ held k s.map)
  unfolding get hit
  get_reads key s = elim (Option-cases (lookup key s.map)) [
    | inl miss ↦ rw (miss, hit) (refl, λ k. refl)
    | inr (e, found) ↦
        rw (found, get)
          (
            refl,
            λ k.
                insert-held key k (record e { freq = min (e.freq + 1) 3 }) s.map
                ∙ (elim (Bool-cases (bytes_beq key k)) [
                  | inl own ↦ rw own (
                      sym (
                        ap (map_some (λ (c : CacheEntry V). c.value))
                          (rw ((bytes_beq_iff key k).0 own) at found)))
                  | inr other ↦ rw other
                ]),
          )
  ]
