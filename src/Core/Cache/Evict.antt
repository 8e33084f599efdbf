-- ===== src/Core/Cache/Evict.antt =====
-- The evictions of the cache. The queue loops are recursions: over the small queue itself, and on fuel
-- over the main queue, where a key can go back to the end; `none` means that the fuel ran out.
use skeg.Prelude.{
  ℕ, zero, suc, ◌+◌, ◌-◌, Bytes, List, [], ◌∷◌, ◌++◌, Option, none, some, Bool, true, false, not,
  ◌&&◌, if◌then◌else◌, ltb, leb, length, bytes_key, nat_key, lookup, insert, total,
}
use skeg.Core.Cache.State.{
  CacheEntry, S3Fifo, max_fair_skips, sub_usize, tenant_charged, share_target, has_over_share,
  drop_entry, ghost_push,
}

abbrev pub is_empty {ℓ} : {A : Type ℓ} → List A → Bool
is_empty [] = true
is_empty (x ∷ xs) = false

module _ {V : Type 0} (xxh3 : Bytes → ℕ) where
  -- A key of the small queue that was read twice moves to the main queue.
  unfoldable pub promote : Bytes → CacheEntry V → S3Fifo V → S3Fifo V
  promote key e s = record s {
    map = insert key (record e { freq = 0; in_small = false }) s.map;
    small_bytes = sub_usize s.small_bytes e.size;
    main = s.main ++ (key ∷ []);
  }

  unfoldable pub drop_small : Bytes → CacheEntry V → List Bytes → S3Fifo V → S3Fifo V
  unfolding drop_entry
  drop_small key e rest s =
      let t =
        drop_entry key e
          (record s { small = rest; small_bytes = sub_usize s.small_bytes e.size }) in
      let g = ghost_push (xxh3 key) t in record g { evictions = g.evictions + 1 }

  -- The queue is what has not been popped; a stale key is skipped. True if an entry was evicted.
  unfoldable pub evict_small : List Bytes → S3Fifo V → S3Fifo V × Bool
  evict_small [] s = (record s { small = [] }, false)
  evict_small (key ∷ rest) s = elim (lookup key s.map) [
    | none ↦ evict_small rest s
    | some e ↦
        let on = evict_small rest (promote key e s) in
        if ltb 1 e.freq then on else (drop_small key e rest s, true)
  ]

  unfoldable pub evict_from_small : S3Fifo V → S3Fifo V × Bool
  evict_from_small s = evict_small s.small s

  unfoldable pub drop_main : Bytes → CacheEntry V → List Bytes → S3Fifo V → S3Fifo V
  drop_main key e rest s =
      let t = drop_entry key e (record s { main = rest }) in
      record t { evictions = t.evictions + 1 }

  unfoldable pub second_chance : Bytes → CacheEntry V → S3Fifo V → S3Fifo V
  second_chance key e s = record s { map = insert key (record e { freq = e.freq - 1 }) s.map }

  -- The loop over the main queue, on fuel; the queue is carried beside the state until the loop ends.
  unfoldable pub evict_main : ℕ → ℕ → Bool → ℕ → List Bytes → S3Fifo V → Option (S3Fifo V)
  evict_main zero target over_exists skips queue s = none
  evict_main (suc fuel) target over_exists skips [] s = some (record s { main = [] })
  evict_main (suc fuel) target over_exists skips (key ∷ rest) s = elim (lookup key s.map) [
    | none ↦ evict_main fuel target over_exists skips rest s
    | some e ↦
        let again =
          evict_main fuel target over_exists skips (rest ++ (key ∷ [])) (second_chance key e s) in
        let spared = evict_main fuel target over_exists (skips + 1) (rest ++ (key ∷ [])) s in
        if ltb 0 e.freq
        then again
        else if over_exists && (ltb skips max_fair_skips && leb (tenant_charged e.tenant s) target)
        then spared
        else some (drop_main key e rest s)
  ]

  -- Every round lowers the frequencies, the skips left or the queue.
  unfoldable pub main_fuel : S3Fifo V → ℕ
  main_fuel s = total (λ k e. e.freq) s.map + length s.main + max_fair_skips + 1

  unfoldable pub evict_from_main : S3Fifo V → Option (S3Fifo V)
  unfolding main_fuel
  evict_from_main s =
      let target = if is_empty s.per_tenant then 0 else share_target s in
      let over_exists = if is_empty s.per_tenant then false else has_over_share target s in
      evict_main (main_fuel s) target over_exists 0 s.main s

  unfoldable pub main_unless : S3Fifo V × Bool → Option (S3Fifo V)
  main_unless (s, true) = some s
  main_unless (s, false) = evict_from_main s

  unfoldable pub evict_one : S3Fifo V → Option (S3Fifo V)
  unfolding main_unless
  evict_one s =
      if leb s.small_budget s.small_bytes
      then main_unless (evict_from_small s)
      else evict_from_main s

  -- The loop of `insert_for` that evicts until the new entry fits.
  unfoldable pub make_room : ℕ → ℕ → S3Fifo V → Option (S3Fifo V)
  make_room zero entry_size s = none
  make_room (suc fuel) entry_size s =
      if ltb s.budget_bytes (s.total_bytes + entry_size) && not (is_empty s.map)
      then elim (evict_one s) [ none ↦ none | some s' ↦ make_room fuel entry_size s' ]
      else some s
