-- ===== src/Core/Recovery/Rescan.antt =====
-- Recovery over a snapshot: the rescan lets the last record of a key win. It agrees with the full scan
-- where the records of a key stand in the order of their timestamps, and only there.
use skeg.Prelude.{
  ℕ, ◌<◌, ◌≡◌, ◌≢◌, inl, inr, refl, ap, sym, ◌∙◌, Bytes, List, [], ◌∷◌, ◌++◌, Option, none, some,
  true, Bool-cases, lt→ltb, All, All-map, ltb, if◌then◌else◌, bytes_key, append_assoc, subst,
  bytes_beq, bytes_beq_iff, foldl,
}
use skeg.Core.Record.{Record}
use skeg.Core.Index
use skeg.Core.Index.{Index, IndexEntry}
use skeg.Core.Recovery.{
  is_tombstone, fresh, feed_all, Scanned, entry_of, Winner, is_newer, full_scan, apply_last, rescan,
}
use skeg.Core.Recovery.Newest.{
  Applied, tag, applied, Member, winner_of, round, best, best-Origin, live, full_scan-get,
}

-- The segments that the rescan reads.
abbrev pub from_hwm : ℕ → List Scanned → List Scanned
from_hwm hwm [] = []
from_hwm hwm (seg ∷ segs) =
    let rest = from_hwm hwm segs in if ltb seg.id hwm then rest else seg ∷ rest

-- Of two records of one key, the later one is newer.
abbrev pub Rising : List Applied → Type 0
Rising [] = Unit
Rising (x ∷ xs) = All (λ (y : Applied). y.rec.key ≡ x.rec.key → x.rec.ts < y.rec.ts) xs × Rising xs

-- Every record of `xs` is newer than the records of its key in `ys`.
abbrev pub NewerThan : List Applied → List Applied → Type 0
NewerThan ys xs =
    All (λ (x : Applied). All (λ (y : Applied). y.rec.key ≡ x.rec.key → y.rec.ts < x.rec.ts) ys) xs

module _ (xxh3 : Bytes → ℕ) where
  -- One key's entry when the last record wins.
  abbrev step : Bytes → Option IndexEntry → Applied → Option IndexEntry
  step k e x =
      if bytes_beq x.rec.key k
      then (if is_tombstone x.rec.kind then none else some (entry_of xxh3 x.id x.offset x.rec))
      else e

  latest : Bytes → Option IndexEntry → List Applied → Option IndexEntry
  latest k e [] = e
  latest k e (x ∷ xs) = latest k (step k e x) xs

  apply_last-get :
      (k : Bytes) (index : Index) (x : Applied)
      → Index.get (apply_last xxh3 x.id index (x.offset, x.rec)) k ≡ step k (Index.get index k) x
  unfolding apply_last
  apply_last-get k index x = elim (Bool-cases (is_tombstone x.rec.kind)) [
    | inl dead ↦ rw dead (Index.get-remove_key index x.rec.key k)
    | inr kept ↦ rw kept (Index.get-set index x.rec.key k (entry_of xxh3 x.id x.offset x.rec))
  ]

  foldl-latest :
      (k : Bytes) (id : ℕ) (index : Index) (rs : List (ℕ × Record))
      → Index.get (foldl (apply_last xxh3 id) index rs) k ≡ latest k (Index.get index k) (tag id rs)
  unfolding latest
  foldl-latest k id index [] = refl
  foldl-latest k id index ((o, r) ∷ rs) =
      foldl-latest k id (apply_last xxh3 id index (o, r)) rs
      ∙ ap (λ e. latest k e (tag id rs))
          (apply_last-get k index (record { id = id; offset = o; rec = r }))

  latest-append :
      (k : Bytes) (e : Option IndexEntry) (xs ys : List Applied)
      → latest k e (xs ++ ys) ≡ latest k (latest k e xs) ys
  unfolding latest
  latest-append k e [] ys = refl
  latest-append k e (x ∷ xs) ys = latest-append k (step k e x) xs ys

  rescan-latest :
      (k : Bytes) (hwm : ℕ) (index : Index) (segs : List Scanned)
      → Index.get (rescan xxh3 hwm index segs) k
        ≡ latest k (Index.get index k) (applied (from_hwm hwm segs))
  unfolding rescan
  rescan-latest k hwm index [] = unfold latest in refl
  rescan-latest k hwm index (seg ∷ segs) = elim (Bool-cases (ltb seg.id hwm)) [
    | inl below ↦ rw below (rescan-latest k hwm index segs)
    | inr above ↦ rw above (
        rescan-latest k hwm (foldl (apply_last xxh3 seg.id) index (feed_all fresh seg.records)) segs
        ∙ ap (λ e. latest k e (applied (from_hwm hwm segs)))
            (foldl-latest k seg.id index (feed_all fresh seg.records))
        ∙ sym (
            latest-append k (Index.get index k) (tag seg.id (feed_all fresh seg.records))
              (applied (from_hwm hwm segs))))
  ]

  best-append :
      (k : Bytes) (w : Option Winner) (xs ys : List Applied)
      → best xxh3 k w (xs ++ ys) ≡ best xxh3 k (best xxh3 k w xs) ys
  unfolding best
  best-append k w [] ys = refl
  best-append k w (x ∷ xs) ys = best-append k (round xxh3 k w x) xs ys

  -- Every record of the key is newer than the winner so far.
  abbrev Above : Bytes → Option Winner → List Applied → Type 0
  Above k w xs = All (λ (x : Applied). bytes_beq x.rec.key k ≡ true → is_newer x.rec.ts w ≡ true) xs

  Above-won :
      (k : Bytes) (x : Applied) (xs : List Applied)
      → bytes_beq x.rec.key k ≡ true
      → All (λ (y : Applied). y.rec.key ≡ x.rec.key → x.rec.ts < y.rec.ts) xs
      → Above k (some (winner_of xxh3 x)) xs
  Above-won k x xs same rising =
      let xk : x.rec.key ≡ k = (bytes_beq_iff x.rec.key k).0 same in
      All-map
        (λ y later own.
          lt→ltb x.rec.ts y.rec.ts (later ((bytes_beq_iff y.rec.key k).0 own ∙ sym xk)))
        xs rising

  latest-best :
      (k : Bytes) (w : Option Winner) (xs : List Applied)
      → Above k w xs
      → Rising xs
      → latest k (live w none) xs ≡ live (best xxh3 k w xs) none
  unfolding latest best
  latest-best k w [] a r = refl
  latest-best k w (x ∷ xs) (ax, a) (rx, r) = elim (Bool-cases (bytes_beq x.rec.key k)) [
    | inl same ↦
        rw (same, ax same) (latest-best k (some (winner_of xxh3 x)) xs (Above-won k x xs same rx) r)
    | inr other ↦ rw other (latest-best k w xs a r)
  ]

  applied-append : (xs ys : List Scanned) → applied (xs ++ ys) ≡ applied xs ++ applied ys
  applied-append [] ys = refl
  applied-append (seg ∷ xs) ys =
      ap (λ l. tag seg.id (feed_all fresh seg.records) ++ l) (applied-append xs ys)
      ∙ sym (append_assoc (tag seg.id (feed_all fresh seg.records)) (applied xs) (applied ys))

  All-Member :
      (P : Applied → Type 0) (ys : List Applied) (y : Applied) → All P ys → Member y ys → P y
  All-Member P [] y h m = absurd m
  All-Member P (z ∷ ys) y (hz, h) (inl e) = subst P (sym e) hz
  All-Member P (z ∷ ys) y (hz, h) (inr m) = All-Member P ys y h m

  Above-best :
      (k : Bytes) (ys xs : List Applied) → NewerThan ys xs → Above k (best xxh3 k none ys) xs
  Above-best k ys xs h =
      All-map (λ x newer own. is_newer-best x newer own (best xxh3 k none ys) refl) xs h
    where
      is_newer-best :
          (x : Applied)
          → All (λ (y : Applied). y.rec.key ≡ x.rec.key → y.rec.ts < x.rec.ts) ys
          → bytes_beq x.rec.key k ≡ true
          → (w : Option Winner) → best xxh3 k none ys ≡ w
          → is_newer x.rec.ts w ≡ true
      is_newer-best x newer own none e = refl
      is_newer-best x newer own (some b) e = elim (best-Origin xxh3 k none ys b e) [
        | inl start ↦ absurd (cc)
        | inr (y, member, key, eb) ↦
            let yx : y.rec.key ≡ x.rec.key =
              (bytes_beq_iff y.rec.key k).0 key ∙ sym ((bytes_beq_iff x.rec.key k).0 own) in
            rw eb (
              lt→ltb y.rec.ts x.rec.ts (
                All-Member (λ (z : Applied). z.rec.key ≡ x.rec.key → z.rec.ts < x.rec.ts) ys y newer
                  member yx))
      ]

  latest-start :
      (k : Bytes) (d e : Option IndexEntry) (xs : List Applied)
      → (All (λ (x : Applied). x.rec.key ≢ k) xs → d ≡ e)
      → latest k d xs ≡ latest k e xs
  unfolding latest
  latest-start k d e [] h = h tt
  latest-start k d e (x ∷ xs) h = elim (Bool-cases (bytes_beq x.rec.key k)) [
    | inl same ↦ rw same
    | inr other ↦
        rw other (
          latest-start k d e xs (λ rest. h ((λ own. cc ((bytes_beq_iff x.rec.key k).1 own)), rest)))
  ]

  -- Recovery over a snapshot gives every key the entry that the full scan of all segments gives it.
  -- The conditions: the snapshot holds, for each key with no record in the rescanned segments, the
  -- entry of the full scan of the segments below the mark; the records of a key in the rescanned
  -- segments stand in the order of their timestamps; and they are newer than those below the mark.
  pub rescan-eq-full_scan :
      (hwm : ℕ) (snapshot : Index) (below above : List Scanned)
      → from_hwm hwm (below ++ above) ≡ above
      → ((k : Bytes)
          → All (λ (x : Applied). x.rec.key ≢ k) (applied above)
          → Index.get snapshot k ≡ Index.get (full_scan xxh3 below) k)
      → Rising (applied above)
      → NewerThan (applied below) (applied above)
      → (k : Bytes)
      → Index.get (rescan xxh3 hwm snapshot (below ++ above)) k
        ≡ Index.get (full_scan xxh3 (below ++ above)) k
  rescan-eq-full_scan hwm snapshot below above split agree rising newer k =
      rescan-latest k hwm snapshot (below ++ above)
      ∙ ap (λ segs. latest k (Index.get snapshot k) (applied segs)) split
      ∙ latest-start k (Index.get snapshot k) (Index.get (full_scan xxh3 below) k) (applied above)
          (agree k)
      ∙ ap (λ e. latest k e (applied above)) (full_scan-get xxh3 k below)
      ∙ latest-best k (best xxh3 k none (applied below)) (applied above)
          (Above-best k (applied below) (applied above) newer) rising
      ∙ ap (λ w. live w none)
          (sym (best-append k none (applied below) (applied above))
            ∙ ap (best xxh3 k none) (sym (applied-append below above)))
      ∙ sym (full_scan-get xxh3 k (below ++ above))

  abbrev pair : ℕ → ℕ → Record → ℕ → Record → Scanned
  pair id o newer p older = record { id = id; records = (o, newer) ∷ ((p, older) ∷ []) }
