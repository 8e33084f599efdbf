-- ===== src/Core/Cache/Forget.antt =====
-- An eviction only forgets: what is still held has the value that it had, and the limits stay.
use skeg.Prelude.{
  ℕ, ◌-◌, ◌≡◌, ◌⊎◌, inl, inr, refl, ◌∙◌, arith, Bytes, List, [], ◌∷◌, ◌++◌, Option, none, some,
  false, Bool-cases, if◌then◌else◌, Assoc, bytes_key, nat_key, bytes_beq, bytes_beq_iff, lookup,
  insert, remove, lookup-insert, lookup-remove,
}
use skeg.Core.Cache.{
  CacheEntry, S3Fifo, map_some, drop_entry, ghost_push, trim_ghost, promote, drop_small, drop_main,
  second_chance, sub_usize, is_none, sub_tenant_bytes,
}
use skeg.Core.Cache.Accounting.{sub-SameButCharges}
use skeg.Core.Cache.Keeps.{Rules}

module _ {V : Type 0} where
  -- The cached value of a key.
  abbrev pub held : Bytes → Assoc Bytes (CacheEntry V) → Option V
  held k m = map_some (λ (e : CacheEntry V). e.value) (lookup k m)

  abbrev pub Forgets : Assoc Bytes (CacheEntry V) → Assoc Bytes (CacheEntry V) → Type 0
  Forgets m m' = (k : Bytes) → (held k m' ≡ none) ⊎ (held k m' ≡ held k m)

  -- The limits of a cache, and what it may have forgotten since.
  pub record Shrunk (s0 s : S3Fifo V) : Type 0 where
    pub forgets : Forgets s0.map s.map
    pub budget_bytes : s.budget_bytes ≡ s0.budget_bytes
    pub small_budget : s.small_budget ≡ s0.small_budget

  pub Shrunk-refl : (s : S3Fifo V) → Shrunk s s
  Shrunk-refl s = record { forgets = λ k. inr refl; budget_bytes = refl; small_budget = refl }

  -- A new state of an entry keeps the values.
  touch-Forgets :
      (key : Bytes) (e e' : CacheEntry V) (m0 m : Assoc Bytes (CacheEntry V))
      → lookup key m ≡ some e
      → e'.value ≡ e.value
      → Forgets m0 m
      → Forgets m0 (insert key e' m)
  touch-Forgets key e e' m0 m found same f k = elim (Bool-cases (bytes_beq key k)) [
    | inl own ↦
        let kk : key ≡ k = (bytes_beq_iff key k).0 own in
        let at_k : lookup k m ≡ some e = rw kk at found in
        rw (lookup-insert key k e' m, own) (ground (arith, f k))
    | inr other ↦ rw (lookup-insert key k e' m, other) (f k)
  ]

  drop-Forgets :
      (key : Bytes) (m0 m : Assoc Bytes (CacheEntry V)) → Forgets m0 m → Forgets m0 (remove key m)
  drop-Forgets key m0 m f k = elim (Bool-cases (bytes_beq key k)) [
    | inl own ↦ inl (rw (lookup-remove key k m, own))
    | inr other ↦ rw (lookup-remove key k m, other) (f k)
  ]

  -- The ghost queue is no part of what a reader sees.
  pub record SameView (s t : S3Fifo V) : Type 0 where
    pub map : s.map ≡ t.map
    pub budget_bytes : s.budget_bytes ≡ t.budget_bytes
    pub small_budget : s.small_budget ≡ t.small_budget

  trim_ghost-SameView :
      (hs : List ℕ) (set : Assoc ℕ Unit) (s : S3Fifo V) → SameView (trim_ghost hs set s) s
  unfolding trim_ghost
  trim_ghost-SameView [] set s = record { map = refl; budget_bytes = refl; small_budget = refl }
  trim_ghost-SameView (h ∷ hs) set s = ground (arith, trim_ghost-SameView hs (remove h set) s)

  ghost_push-SameView : (kh : ℕ) (s : S3Fifo V) → SameView (ghost_push kh s) s
  unfolding ghost_push
  ghost_push-SameView kh s =
      trim_ghost-SameView
        (if is_none (lookup kh s.ghost_set) then s.ghost ++ (kh ∷ []) else s.ghost)
        (insert kh tt s.ghost_set) s

  pub Shrunk-rules : (xxh3 : Bytes → ℕ) (s0 : S3Fifo V) → Rules xxh3 (Shrunk s0)
  unfolding promote second_chance drop_small drop_main drop_entry
  Shrunk-rules xxh3 s0 = record {
    clear_small = λ s h. record {
      forgets = h.forgets;
      budget_bytes = h.budget_bytes;
      small_budget = h.small_budget;
    };
    clear_main = λ s h. record {
      forgets = h.forgets;
      budget_bytes = h.budget_bytes;
      small_budget = h.small_budget;
    };
    promote_keeps = λ key e s found h. record {
      forgets =
          touch-Forgets key e (record e { freq = 0; in_small = false }) s0.map s.map found refl
            h.forgets;
      budget_bytes = h.budget_bytes;
      small_budget = h.small_budget;
    };
    second_chance_keeps = λ key e s found h. record {
      forgets =
          touch-Forgets key e (record e { freq = e.freq - 1 }) s0.map s.map found refl h.forgets;
      budget_bytes = h.budget_bytes;
      small_budget = h.small_budget;
    };
    drop_small_keeps = λ key e rest s found h.
        let s1 : S3Fifo V = record s {
          small = rest;
          map = remove key s.map;
          total_bytes = sub_usize s.total_bytes e.size;
          small_bytes = sub_usize s.small_bytes e.size;
        } in
        let c = sub-SameButCharges e.tenant e.size s1 in
        let g = ghost_push-SameView (xxh3 key) (sub_tenant_bytes e.tenant e.size s1) in
        record {
          forgets = rw (g.map ∙ c.map) (drop-Forgets key s0.map s.map h.forgets);
          budget_bytes = g.budget_bytes ∙ c.budget_bytes ∙ h.budget_bytes;
          small_budget = g.small_budget ∙ c.small_budget ∙ h.small_budget;
        };
    drop_main_keeps = λ key e rest s found h.
        let s1 : S3Fifo V = record s {
          main = rest;
          map = remove key s.map;
          total_bytes = sub_usize s.total_bytes e.size;
        } in
        let c = sub-SameButCharges e.tenant e.size s1 in
        record {
          forgets = rw c.map (drop-Forgets key s0.map s.map h.forgets);
          budget_bytes = c.budget_bytes ∙ h.budget_bytes;
          small_budget = c.small_budget ∙ h.small_budget;
        };
  }
