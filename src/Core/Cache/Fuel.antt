-- ===== src/Core/Cache/Fuel.antt =====
-- The loop over the main queue ends: every round lowers the frequencies, the skips left or the queue.
use skeg.Prelude.{
  ℕ, zero, suc, ◌-◌, ◌+◌, ◌≤◌, ◌<◌, ◌≡◌, refl, arith, inl, inr, Bytes, List, [], ◌∷◌, ◌++◌, some,
  Bool, Bool-cases, Option-cases, ltb, leb, ltb→lt, ◌&&◌, length, length-append, bytes_key, lookup,
  Unique, total, total-insert, total-remove, Unique-insert,
}
use skeg.Core.Cache.{
  CacheEntry, S3Fifo, evict_main, evict_from_main, main_fuel, second_chance, max_fair_skips,
  drop_main, tenant_charged,
}

module _ {V : Type 0} (xxh3 : Bytes → ℕ) where
  abbrev freq_of : Bytes → CacheEntry V → ℕ
  freq_of k e = e.freq

  -- A second chance takes one off the frequencies.
  second_chance_lowers :
      (key : Bytes) (e : CacheEntry V) (s : S3Fifo V)
      → lookup key s.map ≡ some e
      → 0 < e.freq
      → Unique s.map
      → total freq_of (second_chance xxh3 key e s).map + 1 ≡ total freq_of s.map
  unfolding second_chance
  second_chance_lowers key e s found warm u = ground (
    arith,
    total-insert freq_of key (record e { freq = e.freq - 1 }) s.map u,
    total-remove freq_of key s.map u,
  )

  evict_main-total :
      (fuel target : ℕ) (over_exists : Bool) (skips : ℕ) (q : List Bytes) (s : S3Fifo V)
      → Unique s.map
      → skips ≤ max_fair_skips
      → total freq_of s.map + length q + (max_fair_skips - skips) < fuel
      → (t : S3Fifo V) × (evict_main xxh3 fuel target over_exists skips q s ≡ some t)
  unfolding evict_main
  evict_main-total zero target over_exists skips q s u k h = absurd (omega arith)
  evict_main-total (suc fuel) target over_exists skips [] s u k h = (record s { main = [] }, refl)
  evict_main-total (suc fuel) target over_exists skips (key ∷ rest) s u k h =
      elim (Option-cases (lookup key s.map)) [
        | inl stale ↦
            rw (stale, evict_main)
              (evict_main-total fuel target over_exists skips rest s u k (omega arith))
        | inr (e, found) ↦ elim (Bool-cases (ltb 0 e.freq)) [
          | inl warm ↦
              rw (found, warm, evict_main)
                (evict_main-total fuel target over_exists skips (rest ++ (key ∷ []))
                  (second_chance xxh3 key e s)
                  (unfold second_chance in
                    Unique-insert key (record e { freq = e.freq - 1 }) s.map u)
                  k
                  (omega (
                    arith,
                    length-append rest (key ∷ []),
                    second_chance_lowers key e s found (ltb→lt 0 e.freq warm) u,
                  )))
          | inr cold ↦
              elim (Bool-cases (
                over_exists
                && (ltb skips max_fair_skips && leb (tenant_charged e.tenant s) target))) [
                  | inl spare ↦
                      let room : skips < max_fair_skips = ground (arith, spare) in
                      rw (found, cold, spare, evict_main)
                        (evict_main-total fuel target over_exists (skips + 1) (rest ++ (key ∷ [])) s
                          u (omega arith) (omega (arith, length-append rest (key ∷ []))))
                  | inr victim ↦
                      rw (found, cold, victim, evict_main) (drop_main xxh3 key e rest s, refl)
                ]
        ]
      ]

  -- The eviction from the main queue returns, whatever the queue and the frequencies hold: the fuel
  -- of the model is enough.
  pub evict_from_main-total :
      (s : S3Fifo V) → Unique s.map → (t : S3Fifo V) × (evict_from_main xxh3 s ≡ some t)
  unfolding evict_from_main main_fuel
  evict_from_main-total s u = evict_main-total _ _ _ 0 s.main s u (omega arith) (omega arith)
