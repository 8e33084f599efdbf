-- ===== src/Server/Mget/Places.antt =====
-- The places of lists, buckets and results.
use skeg.Prelude.{
  ℕ, zero, suc, ◌+◌, ◌<◌, ◌≤◌, ◌⊎◌, ◌≡◌, refl, ap₂, ◌∙◌, arith, Bool, true, false, ◌||◌, Bytes,
  List, [], ◌∷◌, ◌++◌, Option, none, some, map, length, ◌==◌, Bool-cases, inl, inr, of_some,
}
use native.Mathlib.Nat.{mod-lt}
use skeg.Server.Mget.{
  shard_for, values, Buckets, Shard, Reply, send_all, collect, collect_sent, pend, push_at, fill,
  set_at, write_values, ask, gather,
}

abbrev pub at {ℓ} : {A : Type ℓ} → ℕ → List A → Option A
at i [] = none
at zero (x ∷ xs) = some x
at (suc i) (x ∷ xs) = at i xs

pub at-lt : {A : Type 0} (i : ℕ) (x : A) (xs : List A) → at i xs ≡ some x → i < length xs
at-lt i x [] h = absurd cc
at-lt zero x (y ∷ ys) h = omega arith
at-lt (suc i) x (y ∷ ys) h = omega (arith, at-lt i x ys h)

-- A list as long as the keys that has at each place the key's value.
pub at-map_ext :
    {A B : Type 0} (f : A → B) (keys : List A) (final : List B)
    → length final ≡ length keys
    → ((j : ℕ) → j < length keys → (key : A) → at j keys ≡ some key → at j final ≡ some (f key))
    → final ≡ map f keys
at-map_ext f [] [] size h = refl
at-map_ext f [] (y ∷ ys) size h = absurd (omega arith)
at-map_ext f (x ∷ xs) [] size h = absurd (omega arith)
at-map_ext f (x ∷ xs) (y ∷ ys) size h =
    ap₂ (λ z zs. z ∷ zs) (of_some (h 0 (omega arith) x refl))
      (at-map_ext f xs ys (omega arith) (λ j le. h (suc j) (omega arith)))

-- Writing a value that belongs at its place brings no place away from its value.
pub set_at-other :
    (i j : ℕ) (v : Option Bytes) (xs : List (Option Bytes))
    → (i == j) ≡ false
    → at j (set_at i v xs) ≡ at j xs
unfolding set_at
set_at-other i j v [] h = refl
set_at-other zero zero v (x ∷ xs) h = cc
set_at-other zero (suc j) v (x ∷ xs) h = refl
set_at-other (suc i) zero v (x ∷ xs) h = refl
set_at-other (suc i) (suc j) v (x ∷ xs) h = set_at-other i j v xs (ground (arith, h))

pub set_at_self :
    (i : ℕ) (v : Option Bytes) (xs : List (Option Bytes))
    → i < length xs
    → at i (set_at i v xs) ≡ some v
unfolding set_at
set_at_self i v [] h = absurd (omega arith)
set_at_self zero v (x ∷ xs) h = refl
set_at_self (suc i) v (x ∷ xs) h = set_at_self i v xs (omega arith)

pub length-set_at :
    (i : ℕ) (v : Option Bytes) (xs : List (Option Bytes)) → length (set_at i v xs) ≡ length xs
unfolding set_at
length-set_at i v [] = refl
length-set_at zero v (x ∷ xs) = refl
length-set_at (suc i) v (x ∷ xs) = omega (arith, length-set_at i v xs)

pub of_left : {P : Type 0} → P ⊎ (false ≡ true) → P
of_left (inl p) = p
of_left (inr e) = absurd cc

-- Whether a bucket has an item for the place `j`.
abbrev pub has : ℕ → List (ℕ × Bytes) → Bool
has j [] = false
has j ((i, key) ∷ b) = (i == j) || has j b

abbrev pub has_any : ℕ → Buckets → Bool
has_any j [] = false
has_any j (b ∷ bs) = has j b || has_any j bs

pub has-append : (j : ℕ) (a b : List (ℕ × Bytes)) → has j (a ++ b) ≡ (has j a || has j b)
has-append j [] b = refl
has-append j ((i, key) ∷ a) b = ground (arith, has-append j a b)

pub has_any-push_at :
    (j k i : ℕ) (key : Bytes) (bs : Buckets)
    → k < length bs
    → has_any j (push_at k (i, key) bs) ≡ ((i == j) || has_any j bs)
unfolding push_at
has_any-push_at j k i key [] h = absurd (omega arith)
has_any-push_at j zero i key (b ∷ bs) h = ground (arith, has-append j b ((i, key) ∷ []))
has_any-push_at j (suc k) i key (b ∷ bs) h =
    ground (arith, has_any-push_at j k i key bs (omega arith))

pub length-push_at :
    (k : ℕ) (item : ℕ × Bytes) (bs : Buckets) → length (push_at k item bs) ≡ length bs
unfolding push_at
length-push_at k item [] = refl
length-push_at zero item (b ∷ bs) = refl
length-push_at (suc k) item (b ∷ bs) = omega (arith, length-push_at k item bs)

pub shard_for-lt : (xxh3_64 : Bytes → ℕ) (key : Bytes) (n : ℕ) → 0 < n → shard_for xxh3_64 key n < n
unfolding shard_for
shard_for-lt xxh3_64 key n h = mod-lt (xxh3_64 key) h

pub next_place :
    (i j n : ℕ) (before after : Bool)
    → after ≡ ((i == j) || before)
    → (before ≡ true) ⊎ ((i ≤ j) × (j < i + suc n))
    → (after ≡ true) ⊎ ((suc i ≤ j) × (j < suc i + n))
next_place i j n before after e (inl h) = inl (e ∙ ground (arith, h))
next_place i j n before after e (inr (le, lt)) = elim (Bool-cases (i == j)) [
  | inl same ↦ inl (e ∙ rw same refl)
  | inr other ↦ inr (ground (arith, other), omega arith)
]

-- Every place has an item.
pub has_any-fill :
    (xxh3_64 : Bytes → ℕ) (n i j : ℕ) (keys : List Bytes) (bs : Buckets)
    → 0 < n
    → length bs ≡ n
    → (has_any j bs ≡ true) ⊎ ((i ≤ j) × (j < i + length keys))
    → has_any j (fill xxh3_64 n i keys bs) ≡ true
unfolding fill
has_any-fill xxh3_64 n i j [] bs pos size (inl h) = h
has_any-fill xxh3_64 n i j [] bs pos size (inr (le, lt)) = absurd (omega arith)
has_any-fill xxh3_64 n i j (key ∷ keys) bs pos size h =
    let s = shard_for xxh3_64 key n in
    let bound : s < length bs = omega (arith, shard_for-lt xxh3_64 key n pos, size) in
    let pushed = has_any-push_at j s i key bs bound in
    has_any-fill xxh3_64 n (suc i) j keys (push_at s (i, key) bs) pos
      (length-push_at s (i, key) bs ∙ size)
      (next_place i j (length keys) (has_any j bs) (has_any j (push_at s (i, key) bs)) pushed h)

pub length-write_values :
    (items : List (ℕ × Option Bytes)) (result : List (Option Bytes))
    → length (write_values items result) ≡ length result
unfolding write_values
length-write_values [] result = refl
length-write_values ((i, v) ∷ items) result =
    length-write_values items (set_at i v result) ∙ length-set_at i v result

pub gather-batch :
    (shards : ℕ → Shard) (s : ℕ) (item : ℕ × Bytes) (b : List (ℕ × Bytes)) (bs : Buckets)
    (result : List (Option Bytes)) (items : List (ℕ × Option Bytes))
    → ask (shards s) (item ∷ b) ≡ some (values items)
    → gather shards s ((item ∷ b) ∷ bs) result
      ≡ gather shards (suc s) bs (write_values items result)
unfolding gather send_all
gather-batch shards s item b bs result items e = rw e (pended (send_all shards (suc s) bs))
  where
    pended :
        (later : Option (List Reply))
        → collect_sent (pend (some (values items)) later) result
          ≡ collect_sent later (write_values items result)
    pended none = refl
    pended (some rs) = unfold collect in refl
