-- ===== src/Core/Cache/Keeps.antt =====
-- Invariants of the evictions: what every single step keeps, the loops keep.
use skeg.Prelude.{
  ℕ, zero, suc, ◌+◌, ◌≡◌, subst, Bytes, List, [], ◌∷◌, ◌++◌, some, of_some, Bool, true, false,
  Bool-cases, Option-cases, inl, inr, ltb, leb, ◌&&◌, not, bytes_key, nat_key, lookup,
}
use skeg.Core.Cache.{
  CacheEntry, S3Fifo, evict_small, evict_from_small, evict_main, evict_from_main, evict_one,
  make_room, promote, drop_small, drop_main, second_chance, main_unless, is_empty, max_fair_skips,
  tenant_charged,
}

-- A property of the cache that every step of an eviction keeps.
pub record Rules {V : Type 0} (xxh3 : Bytes → ℕ) (P : S3Fifo V → Type 0) : Type 0 where
  pub clear_small : (s : S3Fifo V) → P s → P (record s { small = [] })
  pub clear_main : (s : S3Fifo V) → P s → P (record s { main = [] })
  pub promote_keeps :
      (key : Bytes) (e : CacheEntry V) (s : S3Fifo V)
      → lookup key s.map ≡ some e
      → P s
      → P (promote xxh3 key e s)
  pub second_chance_keeps :
      (key : Bytes) (e : CacheEntry V) (s : S3Fifo V)
      → lookup key s.map ≡ some e
      → P s
      → P (second_chance xxh3 key e s)
  pub drop_small_keeps :
      (key : Bytes) (e : CacheEntry V) (rest : List Bytes) (s : S3Fifo V)
      → lookup key s.map ≡ some e
      → P s
      → P (drop_small xxh3 key e rest s)
  pub drop_main_keeps :
      (key : Bytes) (e : CacheEntry V) (rest : List Bytes) (s : S3Fifo V)
      → lookup key s.map ≡ some e
      → P s
      → P (drop_main xxh3 key e rest s)

module _ {V : Type 0} (xxh3 : Bytes → ℕ) (P : S3Fifo V → Type 0) (r : Rules xxh3 P) where
  evict_small-keeps : (q : List Bytes) (s : S3Fifo V) → P s → P (evict_small xxh3 q s).0
  unfolding evict_small
  evict_small-keeps [] s a = r.clear_small s a
  evict_small-keeps (key ∷ rest) s a = elim (Option-cases (lookup key s.map)) [
    | inl stale ↦ rw (stale, evict_small) (evict_small-keeps rest s a)
    | inr (e, found) ↦ elim (Bool-cases (ltb 1 e.freq)) [
      | inl warm ↦
          rw (found, warm, evict_small)
            (evict_small-keeps rest (promote xxh3 key e s) (r.promote_keeps key e s found a))
      | inr cold ↦ rw (found, cold, evict_small) (r.drop_small_keeps key e rest s found a)
    ]
  ]

  evict_main-keeps :
      (fuel target : ℕ) (over_exists : Bool) (skips : ℕ) (q : List Bytes) (s t : S3Fifo V)
      → P s
      → evict_main xxh3 fuel target over_exists skips q s ≡ some t
      → P t
  unfolding evict_main
  evict_main-keeps zero target over_exists skips q s t a h = cc
  evict_main-keeps (suc fuel) target over_exists skips [] s t a h =
      subst P (of_some h) (r.clear_main s a)
  evict_main-keeps (suc fuel) target over_exists skips (key ∷ rest) s t a h =
      elim (Option-cases (lookup key s.map)) [
        | inl stale ↦
            evict_main-keeps fuel target over_exists skips rest s t a (rw (stale, evict_main) at h)
        | inr (e, found) ↦ elim (Bool-cases (ltb 0 e.freq)) [
          | inl warm ↦
              evict_main-keeps fuel target over_exists skips (rest ++ (key ∷ []))
                (second_chance xxh3 key e s) t (r.second_chance_keeps key e s found a)
                (rw (found, warm, evict_main) at h)
          | inr cold ↦
              elim (Bool-cases (
                over_exists
                && (ltb skips max_fair_skips && leb (tenant_charged e.tenant s) target))) [
                  | inl spare ↦
                      evict_main-keeps fuel target over_exists (skips + 1) (rest ++ (key ∷ [])) s t
                        a (rw (found, cold, spare, evict_main) at h)
                  | inr victim ↦
                      subst P (of_some (rw (found, cold, victim, evict_main) at h))
                        (r.drop_main_keeps key e rest s found a)
                ]
        ]
      ]

  evict_from_main-keeps : (s t : S3Fifo V) → P s → evict_from_main xxh3 s ≡ some t → P t
  unfolding evict_from_main
  evict_from_main-keeps s t a h = evict_main-keeps _ _ _ 0 s.main s t a h

  main_unless-keeps :
      (o : S3Fifo V × Bool) (t : S3Fifo V) → P o.0 → main_unless xxh3 o ≡ some t → P t
  unfolding main_unless
  main_unless-keeps (s, true) t a h = subst P (of_some h) a
  main_unless-keeps (s, false) t a h = evict_from_main-keeps s t a h

  pub evict_one-keeps : (s t : S3Fifo V) → P s → evict_one xxh3 s ≡ some t → P t
  unfolding evict_one evict_from_small
  evict_one-keeps s t a h = elim (Bool-cases (leb s.small_budget s.small_bytes)) [
    | inl full ↦
        main_unless-keeps (evict_small xxh3 s.small s) t (evict_small-keeps s.small s a)
          (rw (full, evict_one) at h)
    | inr room ↦ evict_from_main-keeps s t a (rw (room, evict_one) at h)
  ]

  pub make_room-keeps : (fuel n : ℕ) (s t : S3Fifo V) → P s → make_room xxh3 fuel n s ≡ some t → P t
  unfolding make_room
  make_room-keeps zero n s t a h = cc
  make_room-keeps (suc fuel) n s t a h =
      elim (Bool-cases (ltb s.budget_bytes (s.total_bytes + n) && not (is_empty s.map))) [
        | inl over ↦ elim (Option-cases (evict_one xxh3 s)) [
          | inl hang ↦ cc (rw (over, hang, make_room) at h)
          | inr (u, e) ↦
              make_room-keeps fuel n u t (evict_one-keeps s u a e) (rw (over, e, make_room) at h)
        ]
        | inr fits ↦ subst P (of_some (rw (fits, make_room) at h)) a
      ]
