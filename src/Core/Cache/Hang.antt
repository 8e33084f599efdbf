-- ===== src/Core/Cache/Hang.antt =====
-- A call of `insert_for` that never returns.
use skeg.Prelude.{
  ℕ, zero, suc, ◌+◌, ◌<◌, ◌≡◌, refl, ap, ◌∙◌, arith, Bytes, [], none, some, Bool, false, leb,
  lt→ltb, length, bytes_key, lookup, total, if◌then◌else◌,
}
use skeg.Core.Cache.{
  CacheEntry, S3Fifo, evict_main, evict_from_main, main_fuel, evict_one, make_room, insert_for,
  insert_at, insert_new, is_empty, share_target, has_over_share,
}
use skeg.Core.Cache.Operations.{entry_size}

module _ {V : Type 0} (xxh3 : Bytes → ℕ) where
  abbrev drained : S3Fifo V → S3Fifo V
  drained s = record s { main = [] }

  -- The small queue is below its share and the main queue is empty: an eviction looks at the main
  -- queue alone, and finds nothing there.
  abbrev pub IsIdle : S3Fifo V → Type 0
  IsIdle s = (s.small_bytes < s.small_budget) × (s.main ≡ [])

  evict_main_empty :
      (fuel target : ℕ) (over_exists : Bool) (skips : ℕ) (s : S3Fifo V)
      → 0 < fuel
      → evict_main xxh3 fuel target over_exists skips [] s ≡ some (drained s)
  unfolding evict_main
  evict_main_empty zero target over_exists skips s h = absurd (omega arith)
  evict_main_empty (suc fuel) target over_exists skips s h = refl

  evict_from_main_empty : (s : S3Fifo V) → s.main ≡ [] → evict_from_main xxh3 s ≡ some (drained s)
  unfolding evict_from_main main_fuel
  evict_from_main_empty s empty =
      let fuel : ℕ =
        total (λ (k : Bytes) (e : CacheEntry V). e.freq) s.map + length s.main + 16 + 1 in
      let target : ℕ = if is_empty s.per_tenant then 0 else share_target s in
      let over : Bool = if is_empty s.per_tenant then false else has_over_share target s in
      ap (λ q. evict_main xxh3 fuel target over 0 q s) empty
      ∙ evict_main_empty fuel target over 0 s (omega arith)

  evict_one_idle : (s : S3Fifo V) → IsIdle s → evict_one xxh3 s ≡ some (drained s)
  unfolding evict_one
  evict_one_idle s (low, empty) = rw (not_full, evict_one) (evict_from_main_empty s empty)
    where
      not_full : leb s.small_budget s.small_bytes ≡ false
      not_full = ground arith

  make_room_hangs :
      (fuel n : ℕ) (s : S3Fifo V)
      → IsIdle s
      → is_empty s.map ≡ false
      → s.budget_bytes < s.total_bytes + n
      → make_room xxh3 fuel n s ≡ none
  unfolding make_room
  make_room_hangs zero n s idle held over = refl
  make_room_hangs (suc fuel) n s idle held over =
      rw (lt→ltb s.budget_bytes (s.total_bytes + n) over, held, evict_one_idle s idle, make_room)
        (make_room_hangs fuel n (drained s) (idle.0, refl) held over)

  -- The call that never returns: a new key comes to a cache that holds something, whose main queue is
  -- empty, whose small queue is below its share, and where the new entry does not fit beside what is
  -- held. The eviction loop goes round for every number of rounds, and `insert_for` has no result.
  pub insert_for_hangs :
      (key : Bytes) (value : V) (value_bytes tenant : ℕ) (s : S3Fifo V)
      → IsIdle s
      → is_empty s.map ≡ false
      → lookup key s.map ≡ none
      → s.budget_bytes < s.total_bytes + entry_size key value_bytes
      → ((rounds : ℕ) → make_room xxh3 rounds (entry_size key value_bytes) s ≡ none)
        × (insert_for xxh3 key value value_bytes tenant s ≡ none)
  unfolding insert_for insert_at insert_new
  insert_for_hangs key value value_bytes tenant s idle held absent over = (
    λ rounds. make_room_hangs rounds (entry_size key value_bytes) s idle held over,
    rw (absent, insert_for)
        (rw (
          make_room_hangs (length s.map + 2) (entry_size key value_bytes) s idle held over,
          insert_new,
        )),
  )
