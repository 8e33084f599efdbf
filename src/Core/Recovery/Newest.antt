-- ===== src/Core/Recovery/Newest.antt =====
-- The full scan: the record with the highest timestamp decides for its key, in whatever order the
-- segments hold the records.
use skeg.Prelude.{
  ℕ, ◌≤◌, ◌≡◌, ◌≢◌, ◌⊎◌, inl, inr, refl, ap, ap₂, sym, ◌∙◌, arith, Bytes, List, [], ◌∷◌, ◌++◌,
  Option, none, some, true, false, Bool-cases, ltb→lt, ltb→le, All, All-map, ◌&&◌, ltb,
  if◌then◌else◌, bytes_key, bytes_beq, bytes_beq_iff, lookup, Unique, Unique-insert, lookup-insert,
  foldl,
}
use skeg.Core.Record.{Record}
use skeg.Core.Index
use skeg.Core.Index.{Index, IndexEntry}
use skeg.Core.Recovery.{
  is_tombstone, fresh, feed_all, Scanned, entry_of, Winner, Winners, is_newer, keep_newer,
  scan_winners, index_winners, full_scan,
}

-- A record that the gate has released: its segment, its offset, and itself.
pub record Applied : Type 0 where
  pub id : ℕ
  pub offset : ℕ
  pub rec : Record

abbrev pub tag : ℕ → List (ℕ × Record) → List Applied
tag id [] = []
tag id ((o, r) ∷ rest) = record { id = id; offset = o; rec = r } ∷ tag id rest

-- All that the gates of the segments release, in the order of the scan.
abbrev pub applied : List Scanned → List Applied
applied [] = []
applied (seg ∷ segs) = tag seg.id (feed_all fresh seg.records) ++ applied segs

abbrev pub Member : Applied → List Applied → Type 0
Member x [] = ⊥
Member x (y ∷ ys) = (x ≡ y) ⊎ Member x ys

module _ (xxh3 : Bytes → ℕ) where
  abbrev pub winner_of : Applied → Winner
  winner_of x = record {
    ts = x.rec.ts;
    kind = x.rec.kind;
    entry = entry_of xxh3 x.id x.offset x.rec;
  }

  abbrev pub round : Bytes → Option Winner → Applied → Option Winner
  round k w x = if bytes_beq x.rec.key k && is_newer x.rec.ts w then some (winner_of x) else w

  -- One key's winner over a list of records.
  unfoldable pub best : Bytes → Option Winner → List Applied → Option Winner
  best k w [] = w
  best k w (x ∷ xs) = best k (round k w x) xs

  keep_all : Winners → List Applied → Winners
  keep_all ws [] = ws
  keep_all ws (x ∷ xs) = keep_all (keep_newer xxh3 x.id ws (x.offset, x.rec)) xs

  keep_newer-lookup :
      (k : Bytes) (ws : Winners) (x : Applied)
      → lookup k (keep_newer xxh3 x.id ws (x.offset, x.rec)) ≡ (
          if bytes_beq x.rec.key k && is_newer x.rec.ts (lookup k ws)
          then some (winner_of x)
          else lookup k ws)
  unfolding keep_newer
  keep_newer-lookup k ws x = elim (Bool-cases (bytes_beq x.rec.key k)) [
    | inl same ↦
        let at_k : is_newer x.rec.ts (lookup x.rec.key ws) ≡ is_newer x.rec.ts (lookup k ws) =
          ap (λ j. is_newer x.rec.ts (lookup j ws)) ((bytes_beq_iff x.rec.key k).0 same) in
        elim (Bool-cases (is_newer x.rec.ts (lookup k ws))) [
          | inl new ↦
              rw (same, new, at_k ∙ new) (rw (lookup-insert x.rec.key k (winner_of x) ws, same))
          | inr old ↦ rw (same, old, at_k ∙ old)
        ]
    | inr other ↦ elim (Bool-cases (is_newer x.rec.ts (lookup x.rec.key ws))) [
      | inl new ↦ rw (other, new) (rw (lookup-insert x.rec.key k (winner_of x) ws, other))
      | inr old ↦ rw (other, old)
    ]
  ]

  keep_all-best :
      (k : Bytes) (ws : Winners) (xs : List Applied)
      → lookup k (keep_all ws xs) ≡ best k (lookup k ws) xs
  unfolding keep_all best
  keep_all-best k ws [] = refl
  keep_all-best k ws (x ∷ xs) =
      keep_all-best k (keep_newer xxh3 x.id ws (x.offset, x.rec)) xs
      ∙ ap (λ w. best k w xs) (keep_newer-lookup k ws x)

  keep_all-append :
      (ws : Winners) (xs ys : List Applied) → keep_all ws (xs ++ ys) ≡ keep_all (keep_all ws xs) ys
  unfolding keep_all
  keep_all-append ws [] ys = refl
  keep_all-append ws (x ∷ xs) ys = keep_all-append (keep_newer xxh3 x.id ws (x.offset, x.rec)) xs ys

  keep_all-tag :
      (id : ℕ) (ws : Winners) (rs : List (ℕ × Record))
      → foldl (keep_newer xxh3 id) ws rs ≡ keep_all ws (tag id rs)
  unfolding keep_all
  keep_all-tag id ws [] = refl
  keep_all-tag id ws ((o, r) ∷ rs) = keep_all-tag id (keep_newer xxh3 id ws (o, r)) rs

  scan_winners-keep_all :
      (ws : Winners) (segs : List Scanned) → scan_winners xxh3 ws segs ≡ keep_all ws (applied segs)
  unfolding scan_winners keep_all
  scan_winners-keep_all ws [] = refl
  scan_winners-keep_all ws (seg ∷ segs) =
      scan_winners-keep_all (foldl (keep_newer xxh3 seg.id) ws (feed_all fresh seg.records)) segs
      ∙ ap (λ w. keep_all w (applied segs)) (keep_all-tag seg.id ws (feed_all fresh seg.records))
      ∙ sym (keep_all-append ws (tag seg.id (feed_all fresh seg.records)) (applied segs))

  abbrev Covers : Option Winner → ℕ → Type 0
  Covers none t = ⊥
  Covers (some w) t = t ≤ w.ts

  -- One round of `best`: the winner does not get older, and covers the record if the key is its own.
  round-Covers :
      (k : Bytes) (w : Option Winner) (x : Applied) (t : ℕ)
      → Covers w t
      → Covers (if bytes_beq x.rec.key k && is_newer x.rec.ts w then some (winner_of x) else w) t
  round-Covers k none x t h = absurd h
  round-Covers k (some w) x t h = elim (Bool-cases (bytes_beq x.rec.key k)) [
    | inl same ↦ elim (Bool-cases (ltb w.ts x.rec.ts)) [
      | inl new ↦ rw (same, new) (omega (arith, ltb→lt w.ts x.rec.ts new))
      | inr old ↦ rw (same, old) h
    ]
    | inr other ↦ rw other h
  ]

  round-Covers_self :
      (k : Bytes) (w : Option Winner) (x : Applied)
      → bytes_beq x.rec.key k ≡ true
      → Covers
          (if bytes_beq x.rec.key k && is_newer x.rec.ts w then some (winner_of x) else w)
          x.rec.ts
  round-Covers_self k none x same = rw same (omega arith)
  round-Covers_self k (some w) x same = elim (Bool-cases (ltb w.ts x.rec.ts)) [
    | inl new ↦ rw (same, new) (omega arith)
    | inr old ↦ rw (same, old) (ltb→le w.ts x.rec.ts old)
  ]

  best-Covers_start :
      (k : Bytes) (w : Option Winner) (xs : List Applied) (t : ℕ)
      → Covers w t
      → Covers (best k w xs) t
  unfolding best
  best-Covers_start k w [] t h = h
  best-Covers_start k w (x ∷ xs) t h =
      best-Covers_start k (round k w x) xs t (round-Covers k w x t h)

  best-Covers :
      (k : Bytes) (w : Option Winner) (xs : List Applied)
      → All (λ (x : Applied). bytes_beq x.rec.key k ≡ true → Covers (best k w xs) x.rec.ts) xs
  unfolding best
  best-Covers k w [] = tt
  best-Covers k w (x ∷ xs) = (
    λ same. best-Covers_start k (round k w x) xs x.rec.ts (round-Covers_self k w x same),
    best-Covers k (round k w x) xs,
  )

  -- Where a winner comes from.
  abbrev pub Origin : Bytes → Winner → List Applied → Type 0
  Origin k b xs = (x : Applied) × Member x xs × (bytes_beq x.rec.key k ≡ true) × (b ≡ winner_of x)

  round-Origin :
      (k : Bytes) (w : Option Winner) (x : Applied) (xs : List Applied) (b : Winner)
      → round k w x ≡ some b
      → (w ≡ some b) ⊎ Origin k b (x ∷ xs)
  round-Origin k w x xs b h = elim (Bool-cases (bytes_beq x.rec.key k && is_newer x.rec.ts w)) [
    | inl new ↦
        let e : some (winner_of x) ≡ some b = rw new at h in inr (x, inl refl, ground arith, cc)
    | inr old ↦ inl (rw old at h)
  ]

  pub best-Origin :
      (k : Bytes) (w : Option Winner) (xs : List Applied) (b : Winner)
      → best k w xs ≡ some b
      → (w ≡ some b) ⊎ Origin k b xs
  unfolding best
  best-Origin k w [] b h = inl h
  best-Origin k w (x ∷ xs) b h = elim (best-Origin k (round k w x) xs b h) [
    | inl start ↦ round-Origin k w x xs b start
    | inr (y, member, key, e) ↦ inr (y, inr member, key, e)
  ]

  keep_newer-Unique :
      (id : ℕ) (ws : Winners) (p : ℕ × Record) → Unique ws → Unique (keep_newer xxh3 id ws p)
  unfolding keep_newer
  keep_newer-Unique id ws (o, r) u = elim (Bool-cases (is_newer r.ts (lookup r.key ws))) [
    | inl new ↦
        rw new (Unique-insert r.key (winner_of (record { id = id; offset = o; rec = r })) ws u)
    | inr old ↦ rw old u
  ]

  keep_all-Unique : (ws : Winners) (xs : List Applied) → Unique ws → Unique (keep_all ws xs)
  unfolding keep_all
  keep_all-Unique ws [] u = u
  keep_all-Unique ws (x ∷ xs) u =
      keep_all-Unique (keep_newer xxh3 x.id ws (x.offset, x.rec)) xs (keep_newer-Unique x.id ws _ u)

-- What the index keeps of a winner.
abbrev pub live : Option Winner → Option IndexEntry → Option IndexEntry
live none old = old
live (some w) old = if is_tombstone w.kind then old else some w.entry

index_winners-get :
    (k : Bytes) (index : Index) (ws : Winners)
    → Unique ws
    → Index.get (index_winners index ws) k ≡ live (lookup k ws) (Index.get index k)
unfolding index_winners
index_winners-get k index [] u = refl
index_winners-get k index ((j, w) ∷ ws) (fresh, u) = elim (Bool-cases (bytes_beq j k)) [
  | inl same ↦
      let gone : lookup k ws ≡ none = rw ((bytes_beq_iff j k).0 same) at fresh in
      elim (Bool-cases (is_tombstone w.kind)) [
        | inl dead ↦ rw (same, dead) (index_winners-get k index ws u ∙ rw gone)
        | inr data' ↦
            rw (same, data')
              (index_winners-get k (Index.set index j w.entry) ws u
                ∙ rw gone (rw (Index.get-set index j k w.entry, same)))
      ]
  | inr other ↦ elim (Bool-cases (is_tombstone w.kind)) [
    | inl dead ↦ rw (other, dead) (index_winners-get k index ws u)
    | inr data' ↦
        rw (other, data')
          (index_winners-get k (Index.set index j w.entry) ws u
            ∙ rw (Index.get-set index j k w.entry, other))
  ]
]

-- The record `x` decides for the key `k`: it is one of the records, and none of the key is newer.
pub record IsNewest (k : Bytes) (xs : List Applied) (x : Applied) : Type 0 where
  pub member : Member x xs
  pub key : x.rec.key ≡ k
  pub newest : All (λ (y : Applied). y.rec.key ≡ k → y.rec.ts ≤ x.rec.ts) xs

-- What a scan must give for a key: nothing if no record has the key, and otherwise what its newest
-- record says: nothing if that is a tombstone, and its place if it is data.
pub data Decides (xxh3 : Bytes → ℕ) (k : Bytes) (xs : List Applied)
    : Option IndexEntry → Type 0 where
  absent : All (λ (y : Applied). y.rec.key ≢ k) xs → Decides xxh3 k xs none
  deleted :
      (x : Applied) → IsNewest k xs x → is_tombstone x.rec.kind ≡ true → Decides xxh3 k xs none
  stored :
      (x : Applied)
      → IsNewest k xs x
      → is_tombstone x.rec.kind ≡ false
      → Decides xxh3 k xs (some (entry_of xxh3 x.id x.offset x.rec))

module _ (xxh3 : Bytes → ℕ) where
  winners : List Scanned → Winners
  winners segs = scan_winners xxh3 [] segs

  winners-best :
      (k : Bytes) (segs : List Scanned) → lookup k (winners segs) ≡ best xxh3 k none (applied segs)
  unfolding winners
  winners-best k segs =
      ap (lookup k) (scan_winners-keep_all xxh3 [] segs) ∙ keep_all-best xxh3 k [] (applied segs)

  pub full_scan-get :
      (k : Bytes) (segs : List Scanned)
      → Index.get (full_scan xxh3 segs) k ≡ live (best xxh3 k none (applied segs)) none
  unfolding full_scan winners
  full_scan-get k segs =
      index_winners-get k Index.new (scan_winners xxh3 [] segs)
        (rw (scan_winners-keep_all xxh3 [] segs) (keep_all-Unique xxh3 [] (applied segs) tt))
      ∙ ap₂ live (winners-best k segs) (unfold Index.get Index.new in refl)

  Decides-best :
      (k : Bytes) (xs : List Applied) (b : Option Winner)
      → best xxh3 k none xs ≡ b
      → Decides xxh3 k xs (live b none)
  Decides-best k xs none e = absent (
      All-map (λ y h key. rw e at (h ((bytes_beq_iff y.rec.key k).1 key))) xs
        (best-Covers xxh3 k none xs))
  Decides-best k xs (some b) e = elim (best-Origin xxh3 k none xs b e) [
    | inl start ↦ absurd (cc)
    | inr (x, member, key, eb) ↦
        let newest : IsNewest k xs x = record {
          member = member;
          key = (bytes_beq_iff x.rec.key k).0 key;
          newest =
              All-map
                (λ y h own.
                  omega (arith, rw (e ∙ ap some eb) at (h ((bytes_beq_iff y.rec.key k).1 own))))
                xs (best-Covers xxh3 k none xs);
        } in
        rw eb (elim (Bool-cases (is_tombstone x.rec.kind)) [
          | inl dead ↦ rw dead (deleted x newest dead)
          | inr data' ↦ rw data' (stored x newest data')
        ])
  ]

  -- The full scan decides every key by the record with the highest timestamp among all that the
  -- gates release, in whatever segment and at whatever place it stands.
  pub full_scan_newest :
      (segs : List Scanned) (k : Bytes)
      → Decides xxh3 k (applied segs) (Index.get (full_scan xxh3 segs) k)
  full_scan_newest segs k =
      rw (full_scan-get k segs)
        (Decides-best k (applied segs) (best xxh3 k none (applied segs)) refl)
