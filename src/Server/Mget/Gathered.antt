-- ===== src/Server/Mget/Gathered.antt =====
-- The values of an MGET stand in the order of its keys.
use skeg.Prelude.{
  ℕ, zero, suc, ◌+◌, ◌<◌, ◌⊎◌, ◌≡◌, refl, sym, ap, subst, ◌∙◌, arith, true, false, ◌||◌, Bytes,
  List, [], ◌∷◌, Option, none, some, map, All, All-append, replicate, length, length-replicate,
  ◌==◌, ==_iff, Bool-cases, inl, inr, of_some,
}
use skeg.Server.Mget.{
  shard_for, Got, found, values, serves, send_all, collect, mget_batch, Buckets, push_at, fill,
  set_at, write_values, ok, ask, gather, mget_scoped,
}
use skeg.Server.Mget.Places.{
  at, at-lt, at-map_ext, set_at-other, set_at_self, length-set_at, of_left, has, has_any,
  has_any-fill, length-write_values, gather-batch,
}

module _ (value : Bytes → Option Bytes) (all_keys : List Bytes) where
  -- An item that belongs to shard `s`.
  abbrev Sound : (Bytes → ℕ) → ℕ → ℕ → ℕ × Bytes → Type 0
  Sound xxh3_64 n s (i, key) = (at i all_keys ≡ some key) × (shard_for xxh3_64 key n ≡ s)

  abbrev SoundFrom : (Bytes → ℕ) → ℕ → ℕ → Buckets → Type 0
  SoundFrom xxh3_64 n s [] = Unit
  SoundFrom xxh3_64 n s (b ∷ bs) = All (Sound xxh3_64 n s) b × SoundFrom xxh3_64 n (suc s) bs

  SoundFrom-replicate : (xxh3_64 : Bytes → ℕ) (n s m : ℕ) → SoundFrom xxh3_64 n s (replicate m [])
  SoundFrom-replicate xxh3_64 n s zero = tt
  SoundFrom-replicate xxh3_64 n s (suc m) = (tt, SoundFrom-replicate xxh3_64 n (suc s) m)

  push_at-SoundFrom :
      (xxh3_64 : Bytes → ℕ) (n s k : ℕ) (item : ℕ × Bytes) (bs : Buckets)
      → SoundFrom xxh3_64 n s bs
      → Sound xxh3_64 n (s + k) item
      → SoundFrom xxh3_64 n s (push_at k item bs)
  unfolding push_at
  push_at-SoundFrom xxh3_64 n s k item [] h hi = tt
  push_at-SoundFrom xxh3_64 n s zero item (b ∷ bs) (hb, h) hi =
      let mine = subst (λ m. Sound xxh3_64 n m item) (omega arith) hi in
      (All-append (Sound xxh3_64 n s) b (item ∷ []) hb (mine, tt), h)
  push_at-SoundFrom xxh3_64 n s (suc k) item (b ∷ bs) (hb, h) hi = (
    hb,
    push_at-SoundFrom xxh3_64 n (suc s) k item bs h
        (subst (λ m. Sound xxh3_64 n m item) (omega arith) hi),
  )

  fill-SoundFrom :
      (xxh3_64 : Bytes → ℕ) (n i : ℕ) (keys : List Bytes) (bs : Buckets)
      → ((k : ℕ) (key : Bytes) → at k keys ≡ some key → at (i + k) all_keys ≡ some key)
      → SoundFrom xxh3_64 n 0 bs
      → SoundFrom xxh3_64 n 0 (fill xxh3_64 n i keys bs)
  unfolding fill
  fill-SoundFrom xxh3_64 n i [] bs places h = h
  fill-SoundFrom xxh3_64 n i (key ∷ keys) bs places h =
      let s = shard_for xxh3_64 key n in
      let here : at i all_keys ≡ some key =
        subst (λ m. at m all_keys ≡ some key) (omega arith) (places 0 key refl) in
      fill-SoundFrom xxh3_64 n (suc i) keys (push_at s (i, key) bs)
        (λ k key' e. subst (λ m. at m all_keys ≡ some key') (omega arith) (places (suc k) key' e))
        (push_at-SoundFrom xxh3_64 n 0 s (i, key) bs h (here, omega arith))

  module _ (xxh3_64 : Bytes → ℕ) (n : ℕ) (read : ℕ → Bytes → Got)
      (answers : (i : ℕ) (key : Bytes)
        → at i all_keys ≡ some key
        → read (shard_for xxh3_64 key n) key ≡ found (value key)) where
    abbrev valued : List (ℕ × Bytes) → List (ℕ × Option Bytes)
    valued b = map (λ p. (p.0, value p.1)) b

    mget_batch-valued :
        (s : ℕ) (b : List (ℕ × Bytes))
        → All (Sound xxh3_64 n s) b
        → mget_batch (read s) b ≡ values (valued b)
    unfolding mget_batch
    mget_batch-valued s [] h = refl
    mget_batch-valued s ((i, key) ∷ b) ((here, mine), h) =
        let got : read s key ≡ found (value key) =
          subst (λ m. read m key ≡ found (value key)) mine (answers i key here) in
        rw (got, mget_batch-valued s b h) refl

    ask-valued :
        (s : ℕ) (b : List (ℕ × Bytes))
        → All (Sound xxh3_64 n s) b
        → ask (serves (read s)) b ≡ some (values (valued b))
    unfolding ask
    ask-valued s b h = ap some (mget_batch-valued s b h)

    -- The place `j` has its value.
    abbrev Right : ℕ → List (Option Bytes) → Type 0
    Right j result = (key : Bytes) → at j all_keys ≡ some key → at j result ≡ some (value key)

    set_at-Right :
        (i j : ℕ) (key : Bytes) (result : List (Option Bytes))
        → at i all_keys ≡ some key
        → length result ≡ length all_keys
        → i ≡ j
        → Right j (set_at i (value key) result)
    set_at-Right i j key result here size same key' there =
        let one_key : some key ≡ some key' =
          sym here ∙ subst (λ m. at m all_keys ≡ some key') (sym same) there in
        let bound : i < length result = omega (arith, at-lt i key all_keys here, size) in
        subst (λ m. at m (set_at i (value key) result) ≡ some (value key')) same
          (set_at_self i (value key) result bound ∙ ap (λ k. some (value k)) (of_some one_key))

    kept_place :
        (i j : ℕ) (key : Bytes) (b : List (ℕ × Bytes)) (result : List (Option Bytes))
        → (i == j) ≡ false
        → Right j result ⊎ (has j ((i, key) ∷ b) ≡ true)
        → Right j (set_at i (value key) result) ⊎ (has j b ≡ true)
    kept_place i j key b result other (inl right) =
        inl (λ k e. set_at-other i j (value key) result other ∙ right k e)
    kept_place i j key b result other (inr e) = inr (ground (arith, other, e))

    write_values-Right :
        (s j : ℕ) (b : List (ℕ × Bytes)) (result : List (Option Bytes))
        → All (Sound xxh3_64 n s) b
        → length result ≡ length all_keys
        → Right j result ⊎ (has j b ≡ true)
        → Right j (write_values (valued b) result)
    unfolding write_values
    write_values-Right s j [] result h size (inl right) = right
    write_values-Right s j [] result h size (inr e) = absurd cc
    write_values-Right s j ((i, key) ∷ b) result ((here, mine), h) size right =
        let next = set_at i (value key) result in
        write_values-Right s j b next h (length-set_at i (value key) result ∙ size)
          (elim (Bool-cases (i == j)) [
            | inl same ↦ inl (set_at-Right i j key result here size ((==_iff i j).0 same))
            | inr other ↦ kept_place i j key b result other right
          ])

    after_batch :
        (s j : ℕ) (b : List (ℕ × Bytes)) (bs : Buckets) (result : List (Option Bytes))
        → All (Sound xxh3_64 n s) b
        → length result ≡ length all_keys
        → Right j result ⊎ ((has j b || has_any j bs) ≡ true)
        → Right j (write_values (valued b) result) ⊎ (has_any j bs ≡ true)
    after_batch s j b bs result h size (inl right) =
        inl (write_values-Right s j b result h size (inl right))
    after_batch s j b bs result h size (inr e) = elim (Bool-cases (has j b)) [
      | inl mine ↦ inl (write_values-Right s j b result h size (inr mine))
      | inr other ↦ inr (ground (arith, other, e))
    ]

    -- All buckets answered: each place that is right, or that a bucket has an item for, is right.
    gather-Right :
        (s : ℕ) (bs : Buckets) (result : List (Option Bytes))
        → SoundFrom xxh3_64 n s bs
        → length result ≡ length all_keys
        → ((j : ℕ) → j < length all_keys → Right j result ⊎ (has_any j bs ≡ true))
        → (final : List (Option Bytes)) × (gather (λ m. serves (read m)) s bs result ≡ ok final)
          × ((j : ℕ) → j < length all_keys → Right j final)
          × (length final ≡ length all_keys)
    unfolding gather send_all collect
    gather-Right s [] result h size right = (result, refl, λ j le. of_left (right j le), size)
    gather-Right s ([] ∷ bs) result (hb, h) size right = gather-Right (suc s) bs result h size right
    gather-Right s ((item ∷ b) ∷ bs) result (hb, h) size right =
        let batch = item ∷ b in
        let next = write_values (valued batch) result in
        let (final, run, done, len) =
          gather-Right (suc s) bs next h (length-write_values (valued batch) result ∙ size)
            (λ j le. after_batch s j batch bs result hb size (right j le)) in
        (
          final,
          gather-batch (λ m. serves (read m)) s item b bs result (valued batch)
                (ask-valued s batch hb)
              ∙ run,
          done,
          len,
        )

    -- The last step: a list that is right at each place is the values.
    every_place :
        (final : List (Option Bytes))
        → ((j : ℕ) → j < length all_keys → Right j final)
        → length final ≡ length all_keys
        → final ≡ map value all_keys
    every_place final right size = at-map_ext value all_keys final size right

-- When every shard answers for its keys, MGET gives the values of the keys in the order of the keys.
pub mget_scoped-values :
    (xxh3_64 : Bytes → ℕ) (n : ℕ) (read : ℕ → Bytes → Got) (value : Bytes → Option Bytes)
    (keys : List Bytes)
    → 0 < n
    → ((i : ℕ) (key : Bytes)
        → at i keys ≡ some key
        → read (shard_for xxh3_64 key n) key ≡ found (value key))
    → mget_scoped xxh3_64 (λ s. serves (read s)) n keys ≡ ok (map value keys)
unfolding mget_scoped
mget_scoped-values xxh3_64 n read value keys pos answers =
    let bs = fill xxh3_64 n 0 keys (replicate n []) in
    let sound =
      fill-SoundFrom value keys xxh3_64 n 0 keys (replicate n [])
        (λ k key e. subst (λ m. at m keys ≡ some key) (omega arith) e)
        (SoundFrom-replicate value keys xxh3_64 n 0 n) in
    let (final, run, right, size) =
      gather-Right value keys xxh3_64 n read answers 0 bs (replicate (length keys) none) sound
        (length-replicate (length keys) none)
        (λ j le. inr (
          has_any-fill xxh3_64 n 0 j keys (replicate n []) pos (length-replicate n [])
            (inr (omega arith, omega arith)))) in
    run ∙ ap ok (every_place value keys xxh3_64 n read answers final right size)
