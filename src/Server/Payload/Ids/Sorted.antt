-- ===== src/Server/Payload/Ids/Sorted.antt =====
-- crates/skeg-server/src/payload.rs: the routines on sorted id lists keep them sorted, and the
-- two-pointer intersection of sorted lists holds what both hold.
use skeg.Prelude.{
  ℕ, zero, suc, ◌+◌, ◌<◌, ◌≤◌, ◌≡◌, refl, arith, List, [], ◌∷◌, length, All, All-map, ◌&&◌,
}
use skeg.Server.Payload.Ids.{
  contains, insert_id, remove_id, retain_missing, place, sort, dedup, dedup_after, sort_dedup,
  intersect_loop, intersect_sorted, IsSorted, IsAscending, contains_below,
}

insert_id_above :
    (x i : ℕ) (xs : List ℕ) → x < i → All (λ y. x < y) xs → All (λ y. x < y) (insert_id i xs)
unfolding insert_id
insert_id_above x i [] lt h = ground arith
insert_id_above x i (y ∷ ys) lt (hy, h) = ground (arith, insert_id_above x i ys lt h)

pub above_trans : (x y : ℕ) (xs : List ℕ) → x < y → All (λ z. y < z) xs → All (λ z. x < z) xs
above_trans x y xs lt h = All-map (λ z k. omega arith) xs h

pub insert_id-IsSorted : (i : ℕ) (xs : List ℕ) → IsSorted xs → IsSorted (insert_id i xs)
unfolding insert_id
insert_id-IsSorted i [] h = ground arith
insert_id-IsSorted i (x ∷ xs) (above, h) =
    ground (arith, insert_id_above x i xs, insert_id-IsSorted i xs h, above_trans i x xs)

remove_id_above : (x i : ℕ) (xs : List ℕ) → All (λ y. x < y) xs → All (λ y. x < y) (remove_id i xs)
unfolding remove_id
remove_id_above x i [] h = tt
remove_id_above x i (y ∷ ys) (hy, h) = ground (arith, remove_id_above x i ys h)

pub remove_id-IsSorted : (i : ℕ) (xs : List ℕ) → IsSorted xs → IsSorted (remove_id i xs)
unfolding remove_id
remove_id-IsSorted i [] h = tt
remove_id-IsSorted i (x ∷ xs) (above, h) =
    ground (arith, remove_id_above x i xs above, remove_id-IsSorted i xs h)

retain_missing_above :
    (x : ℕ) (b xs : List ℕ) → All (λ y. x < y) xs → All (λ y. x < y) (retain_missing b xs)
unfolding retain_missing
retain_missing_above x b [] h = tt
retain_missing_above x b (y ∷ ys) (hy, h) = ground (arith, retain_missing_above x b ys h)

pub retain_missing-IsSorted : (b xs : List ℕ) → IsSorted xs → IsSorted (retain_missing b xs)
unfolding retain_missing
retain_missing-IsSorted b [] h = tt
retain_missing-IsSorted b (x ∷ xs) (above, h) =
    ground (arith, retain_missing_above x b xs above, retain_missing-IsSorted b xs h)

place_from : (x i : ℕ) (xs : List ℕ) → x ≤ i → All (λ y. x ≤ y) xs → All (λ y. x ≤ y) (place i xs)
unfolding place
place_from x i [] le h = ground arith
place_from x i (y ∷ ys) le (hy, h) = ground (arith, place_from x i ys le h)

from_trans : (x y : ℕ) (xs : List ℕ) → x ≤ y → All (λ z. y ≤ z) xs → All (λ z. x ≤ z) xs
from_trans x y xs le h = All-map (λ z k. omega arith) xs h

place-IsAscending : (i : ℕ) (xs : List ℕ) → IsAscending xs → IsAscending (place i xs)
unfolding place
place-IsAscending i [] h = ground arith
place-IsAscending i (x ∷ xs) (from, h) =
    ground (arith, place_from x i xs, place-IsAscending i xs h, from_trans i x xs)

sort-IsAscending : (xs : List ℕ) → IsAscending (sort xs)
unfolding sort
sort-IsAscending [] = tt
sort-IsAscending (x ∷ xs) = place-IsAscending x (sort xs) (sort-IsAscending xs)

dedup_after_above :
    (p x : ℕ) (xs : List ℕ)
    → p ≤ x
    → All (λ y. x ≤ y) xs
    → IsAscending xs
    → All (λ y. p ≤ y) (dedup_after x xs)
unfolding dedup_after
dedup_after_above p x [] le h s = tt
dedup_after_above p x (y ∷ ys) le (hy, h) (from, s) =
    ground (arith, dedup_after_above p y ys (omega arith) from s)

dedup_after_over :
    (x : ℕ) (xs : List ℕ)
    → All (λ y. x ≤ y) xs
    → IsAscending xs
    → All (λ y. x < y) (dedup_after x xs)
unfolding dedup_after
dedup_after_over x [] h s = tt
dedup_after_over x (y ∷ ys) (hy, h) (from, s) =
    let rest : All (λ z. y < z) (dedup_after y ys) = dedup_after_over y ys from s in
    ground (arith, above_trans x y (dedup_after y ys))

dedup_after-IsSorted : (x : ℕ) (xs : List ℕ) → IsAscending xs → IsSorted (dedup_after x xs)
unfolding dedup_after
dedup_after-IsSorted x [] s = tt
dedup_after-IsSorted x (y ∷ ys) (from, s) =
    ground (arith, dedup_after-IsSorted y ys s, dedup_after_over y ys from s)

dedup-IsSorted : (xs : List ℕ) → IsAscending xs → IsSorted (dedup xs)
unfolding dedup
dedup-IsSorted [] s = tt
dedup-IsSorted (x ∷ xs) (from, s) = (dedup_after_over x xs from s, dedup_after-IsSorted x xs s)

pub sort_dedup-IsSorted : (xs : List ℕ) → IsSorted (sort_dedup xs)
unfolding sort_dedup
sort_dedup-IsSorted xs = dedup-IsSorted (sort xs) (sort-IsAscending xs)

intersect_above :
    (x fuel : ℕ) (a b : List ℕ) → All (λ y. x < y) a → All (λ y. x < y) (intersect_loop fuel a b)
unfolding intersect_loop
intersect_above x zero a b h = tt
intersect_above x (suc fuel) [] b h = tt
intersect_above x (suc fuel) (y ∷ ys) [] h = tt
intersect_above x (suc fuel) (y ∷ ys) (z ∷ zs) (hy, h) = ground (
  arith,
  intersect_above x fuel ys (z ∷ zs) h,
  intersect_above x fuel (y ∷ ys) zs (hy, h),
  intersect_above x fuel ys zs h,
)

intersect_loop-IsSorted :
    (fuel : ℕ) (a b : List ℕ) → IsSorted a → IsSorted (intersect_loop fuel a b)
unfolding intersect_loop
intersect_loop-IsSorted zero a b s = tt
intersect_loop-IsSorted (suc fuel) [] b s = tt
intersect_loop-IsSorted (suc fuel) (y ∷ ys) [] s = tt
intersect_loop-IsSorted (suc fuel) (y ∷ ys) (z ∷ zs) (above, s) = ground (
  arith,
  intersect_loop-IsSorted fuel ys (z ∷ zs) s,
  intersect_loop-IsSorted fuel (y ∷ ys) zs (above, s),
  intersect_loop-IsSorted fuel ys zs s,
  intersect_above y fuel ys zs above,
)

pub intersect_sorted-IsSorted : (a b : List ℕ) → IsSorted a → IsSorted (intersect_sorted a b)
unfolding intersect_sorted
intersect_sorted-IsSorted a b s = intersect_loop-IsSorted (length a + length b) a b s

contains-intersect_loop :
    (i fuel : ℕ) (a b : List ℕ)
    → length a + length b ≤ fuel
    → IsSorted a
    → IsSorted b
    → contains i (intersect_loop fuel a b) ≡ (contains i a && contains i b)
unfolding intersect_loop
contains-intersect_loop i zero [] b le s t = refl
contains-intersect_loop i zero (x ∷ xs) b le s t = absurd (omega arith)
contains-intersect_loop i (suc fuel) [] b le s t = refl
contains-intersect_loop i (suc fuel) (x ∷ xs) [] le s t = ground arith
contains-intersect_loop i (suc fuel) (x ∷ xs) (y ∷ ys) le (ax, s) (ay, t) = ground (
  arith,
  contains-intersect_loop i fuel xs (y ∷ ys) (omega arith) s (ay, t),
  contains-intersect_loop i fuel (x ∷ xs) ys (omega arith) (ax, s) t,
  contains-intersect_loop i fuel xs ys (omega arith) s t,
  contains_below i x xs,
  contains_below i y ys,
)

pub contains-intersect_sorted :
    (i : ℕ) (a b : List ℕ)
    → IsSorted a
    → IsSorted b
    → contains i (intersect_sorted a b) ≡ (contains i a && contains i b)
unfolding intersect_sorted
contains-intersect_sorted i a b s t =
    contains-intersect_loop i (length a + length b) a b (omega arith) s t
