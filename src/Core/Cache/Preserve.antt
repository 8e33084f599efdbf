-- ===== src/Core/Cache/Preserve.antt =====
-- Every operation of the cache keeps its accounting, and the evictions take at least one entry or none.
use skeg.Prelude.{
  ℕ, ◌-◌, ◌≡◌, refl, arith, Bytes, List, [], ◌∷◌, ◌++◌, some, false, if◌then◌else◌, Assoc,
  bytes_key, nat_key, lookup, insert, remove,
}
use skeg.Core.Cache.{
  CacheEntry, S3Fifo, ghost_push, trim_ghost, promote, drop_small, drop_main, second_chance,
  is_none, sub_usize,
}
use skeg.Core.Cache.Keeps.{Rules}
use skeg.Core.Cache.Accounting.{IsAccounted, drop_entry-IsAccounted, touch-IsAccounted}

module _ {V : Type 0} where
  -- Two states with the same books are accounted alike.
  abbrev SameBooks : S3Fifo V → S3Fifo V → Type 0
  SameBooks s t =
      (s.map ≡ t.map)
      × (s.total_bytes ≡ t.total_bytes)
      × (s.tenant0_bytes ≡ t.tenant0_bytes)
      × (s.per_tenant ≡ t.per_tenant)

  SameBooks-IsAccounted : (s t : S3Fifo V) → SameBooks s t → IsAccounted t → IsAccounted s
  SameBooks-IsAccounted s t (m, n, z, p) a = record {
    unique = rw m a.unique;
    bytes = rw (m, n) a.bytes;
    charges = rw (m, z, p) a.charges;
  }

  trim_ghost-SameBooks :
      (hs : List ℕ) (set : Assoc ℕ Unit) (s : S3Fifo V) → SameBooks (trim_ghost hs set s) s
  unfolding trim_ghost
  trim_ghost-SameBooks [] set s = (refl, refl, refl, refl)
  trim_ghost-SameBooks (h ∷ hs) set s = ground (arith, trim_ghost-SameBooks hs (remove h set) s)

  ghost_push-IsAccounted : (kh : ℕ) (s : S3Fifo V) → IsAccounted s → IsAccounted (ghost_push kh s)
  unfolding ghost_push
  ghost_push-IsAccounted kh s a =
      SameBooks-IsAccounted (ghost_push kh s) s
        (trim_ghost-SameBooks
          (if is_none (lookup kh s.ghost_set) then s.ghost ++ (kh ∷ []) else s.ghost)
          (insert kh tt s.ghost_set) s)
        a

  module _ (xxh3 : Bytes → ℕ) where
    promote-IsAccounted :
        (key : Bytes) (e : CacheEntry V) (s : S3Fifo V)
        → lookup key s.map ≡ some e
        → IsAccounted s
        → IsAccounted (promote xxh3 key e s)
    unfolding promote
    promote-IsAccounted key e s found a =
        let t =
          touch-IsAccounted key e (record e { freq = 0; in_small = false }) s found refl refl a in
        record { unique = t.unique; bytes = t.bytes; charges = t.charges }

    drop_small-IsAccounted :
        (key : Bytes) (e : CacheEntry V) (rest : List Bytes) (s : S3Fifo V)
        → lookup key s.map ≡ some e
        → IsAccounted s
        → IsAccounted (drop_small xxh3 key e rest s)
    unfolding drop_small
    drop_small-IsAccounted key e rest s found a =
        let d =
          drop_entry-IsAccounted key e
            (record s { small = rest; small_bytes = sub_usize s.small_bytes e.size }) found
            (record { unique = a.unique; bytes = a.bytes; charges = a.charges }) in
        let g = ghost_push-IsAccounted (xxh3 key) _ d in
        record { unique = g.unique; bytes = g.bytes; charges = g.charges }

    drop_main-IsAccounted :
        (key : Bytes) (e : CacheEntry V) (rest : List Bytes) (s : S3Fifo V)
        → lookup key s.map ≡ some e
        → IsAccounted s
        → IsAccounted (drop_main xxh3 key e rest s)
    unfolding drop_main
    drop_main-IsAccounted key e rest s found a =
        let d =
          drop_entry-IsAccounted key e (record s { main = rest }) found
            (record { unique = a.unique; bytes = a.bytes; charges = a.charges }) in
        record { unique = d.unique; bytes = d.bytes; charges = d.charges }

    second_chance-IsAccounted :
        (key : Bytes) (e : CacheEntry V) (s : S3Fifo V)
        → lookup key s.map ≡ some e
        → IsAccounted s
        → IsAccounted (second_chance xxh3 key e s)
    unfolding second_chance
    second_chance-IsAccounted key e s found a =
        touch-IsAccounted key e (record e { freq = e.freq - 1 }) s found refl refl a

    pub IsAccounted-rules : Rules {V = V} xxh3 IsAccounted
    IsAccounted-rules = record {
      clear_small = λ s a. record { unique = a.unique; bytes = a.bytes; charges = a.charges };
      clear_main = λ s a. record { unique = a.unique; bytes = a.bytes; charges = a.charges };
      promote_keeps = promote-IsAccounted;
      second_chance_keeps = second_chance-IsAccounted;
      drop_small_keeps = drop_small-IsAccounted;
      drop_main_keeps = drop_main-IsAccounted;
    }
