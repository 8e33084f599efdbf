-- ===== src/Server/Payload/Filter/Sets.antt =====
-- crates/skeg-server/src/payload.rs: the running set of an `And` starts as what all sets hold, whatever
-- order their lengths put them in.
use skeg.Prelude.{ℕ, ◌≡◌, refl, arith, List, [], ◌∷◌, All, Bool, true, false, ◌&&◌}
use skeg.Server.Payload.Ids.{contains, intersect_sorted, IsSorted}
use skeg.Server.Payload.Ids.Sorted.{contains-intersect_sorted, intersect_sorted-IsSorted}
use skeg.Server.Payload.Index.{PayloadIndex, is_empty, all_ids}
use skeg.Server.Payload.Filter.{place_set, sort_by_len, intersect_all, start}

abbrev pub all_contain : ℕ → List (List ℕ) → Bool
all_contain i [] = true
all_contain i (s ∷ ss) = contains i s && all_contain i ss

module _ (P : List ℕ → Type 0) where
  place_set-All : (s : List ℕ) (ss : List (List ℕ)) → P s → All P ss → All P (place_set s ss)
  unfolding place_set
  place_set-All s [] h hs = (h, tt)
  place_set-All s (t ∷ ss) h (ht, hs) = ground (arith, place_set-All s ss h hs)

  pub sort_by_len-All : (ss : List (List ℕ)) → All P ss → All P (sort_by_len ss)
  unfolding sort_by_len
  sort_by_len-All [] hs = tt
  sort_by_len-All (s ∷ ss) (h, hs) = place_set-All s (sort_by_len ss) h (sort_by_len-All ss hs)

all_contain-place_set :
    (i : ℕ) (s : List ℕ) (ss : List (List ℕ))
    → all_contain i (place_set s ss) ≡ (contains i s && all_contain i ss)
unfolding place_set
all_contain-place_set i s [] = refl
all_contain-place_set i s (t ∷ ss) = ground (arith, all_contain-place_set i s ss)

pub all_contain-sort_by_len :
    (i : ℕ) (ss : List (List ℕ)) → all_contain i (sort_by_len ss) ≡ all_contain i ss
unfolding sort_by_len
all_contain-sort_by_len i [] = refl
all_contain-sort_by_len i (s ∷ ss) =
    ground (arith, all_contain-place_set i s (sort_by_len ss), all_contain-sort_by_len i ss)

pub is_empty-contains : (i : ℕ) (xs : List ℕ) → is_empty xs ≡ true → contains i xs ≡ false
is_empty-contains i [] h = refl
is_empty-contains i (x ∷ xs) h = absurd (cc)

pub intersect_all-IsSorted :
    (a : List ℕ) (ss : List (List ℕ)) → IsSorted a → IsSorted (intersect_all a ss)
unfolding intersect_all
intersect_all-IsSorted a [] s = s
intersect_all-IsSorted a (b ∷ ss) s =
    let next = intersect_sorted-IsSorted a b s in
    ground (arith, intersect_all-IsSorted (intersect_sorted a b) ss next)

pub contains-intersect_all :
    (i : ℕ) (a : List ℕ) (ss : List (List ℕ))
    → IsSorted a
    → All IsSorted ss
    → contains i (intersect_all a ss) ≡ (contains i a && all_contain i ss)
unfolding intersect_all
contains-intersect_all i a [] s hs = ground arith
contains-intersect_all i a (b ∷ ss) s (h, hs) =
    let next = intersect_sorted-IsSorted a b s in
    ground (
      arith,
      contains-intersect_all i (intersect_sorted a b) ss next hs,
      contains-intersect_sorted i a b s h,
      is_empty-contains i (intersect_sorted a b),
    )

start-IsSorted :
    (idx : PayloadIndex) (ss : List (List ℕ))
    → IsSorted (all_ids idx)
    → All IsSorted ss
    → IsSorted (start idx ss)
unfolding start
start-IsSorted idx [] u hs = u
start-IsSorted idx (a ∷ ss) u (h, hs) = intersect_all-IsSorted a ss h

contains-start :
    (i : ℕ) (idx : PayloadIndex) (ss : List (List ℕ))
    → All IsSorted ss
    → (contains i (all_ids idx) && contains i (start idx ss))
      ≡ (contains i (all_ids idx) && all_contain i ss)
unfolding start
contains-start i idx [] hs = ground arith
contains-start i idx (a ∷ ss) (h, hs) = ground (arith, contains-intersect_all i a ss h hs)

start-within :
    (i : ℕ) (idx : PayloadIndex) (ss : List (List ℕ))
    → All IsSorted ss
    → All (λ s. contains i s ≡ true → contains i (all_ids idx) ≡ true) ss
    → contains i (start idx ss) ≡ true
    → contains i (all_ids idx) ≡ true
unfolding start
start-within i idx [] hs w h = h
start-within i idx (a ∷ ss) (ha, hs) (wa, w) h =
    wa (ground (arith, contains-intersect_all i a ss ha hs))

-- What an `And` starts with, after the sets are sorted.
pub running-IsSorted :
    (idx : PayloadIndex) (sets : List (List ℕ))
    → IsSorted (all_ids idx)
    → All IsSorted sets
    → IsSorted (start idx (sort_by_len sets))
running-IsSorted idx sets u s =
    start-IsSorted idx (sort_by_len sets) u (sort_by_len-All IsSorted sets s)

pub contains-running :
    (i : ℕ) (idx : PayloadIndex) (sets : List (List ℕ))
    → All IsSorted sets
    → All (λ t. contains i t ≡ true → contains i (all_ids idx) ≡ true) sets
    → contains i (start idx (sort_by_len sets)) ≡ (contains i (all_ids idx) && all_contain i sets)
contains-running i idx sets s w =
    let sorted = sort_by_len-All IsSorted sets s in
    let inside =
      sort_by_len-All (λ t. contains i t ≡ true → contains i (all_ids idx) ≡ true) sets w in
    ground (
      arith,
      contains-start i idx (sort_by_len sets) sorted,
      start-within i idx (sort_by_len sets) sorted inside,
      all_contain-sort_by_len i sets,
    )
