-- ===== src/Server/Payload/Ids.antt =====
-- crates/skeg-server/src/payload.rs: sets of vector ids as sorted lists, and the routines on them. A
-- `BTreeSet<u64>` is the list that its iterator gives, and `binary_search` on such a list is `contains`.
pub mod Sorted
use skeg.Prelude.{
  ℕ, zero, suc, ◌+◌, ◌<◌, ◌≤◌, ◌≡◌, refl, arith, List, [], ◌∷◌, ◌++◌, length, All, Bool, true,
  false, not, ◌&&◌, ◌||◌, ltb, leb, ◌==◌, if◌then◌else◌,
}

abbrev pub contains : ℕ → List ℕ → Bool
contains i [] = false
contains i (x ∷ xs) = (x == i) || contains i xs

-- `BTreeSet::insert`
unfoldable pub insert_id : ℕ → List ℕ → List ℕ
insert_id i [] = i ∷ []
insert_id i (x ∷ xs) =
    let rest = insert_id i xs in if ltb x i then x ∷ rest else if x == i then x ∷ xs else i ∷ x ∷ xs

-- `BTreeSet::remove`
unfoldable pub remove_id : ℕ → List ℕ → List ℕ
remove_id i [] = []
remove_id i (x ∷ xs) = let rest = remove_id i xs in if x == i then rest else x ∷ rest

-- `retain(|id| b.binary_search(id).is_err())`
unfoldable pub retain_missing : List ℕ → List ℕ → List ℕ
retain_missing b [] = []
retain_missing b (x ∷ xs) =
    let rest = retain_missing b xs in if contains x b then rest else x ∷ rest

-- Puts `x` in front of the first element that is not smaller.
unfoldable pub place : ℕ → List ℕ → List ℕ
place x [] = x ∷ []
place x (y ∷ ys) = let rest = place x ys in if leb x y then x ∷ y ∷ ys else y ∷ rest

-- `sort_unstable`: on numbers every sort has the same result.
unfoldable pub sort : List ℕ → List ℕ
unfolding place
sort [] = []
sort (x ∷ xs) = place x (sort xs)

-- `dedup`, behind an element `previous`
unfoldable pub dedup_after : ℕ → List ℕ → List ℕ
dedup_after previous [] = []
dedup_after previous (x ∷ xs) =
    let rest = dedup_after x xs in if x == previous then rest else x ∷ rest

unfoldable pub dedup : List ℕ → List ℕ
unfolding dedup_after
dedup [] = []
dedup (x ∷ xs) = x ∷ dedup_after x xs

unfoldable pub sort_dedup : List ℕ → List ℕ
unfolding sort dedup
sort_dedup v = dedup (sort v)

-- The two-pointer loop; the lists are what the pointers have still to read.
unfoldable pub intersect_loop : ℕ → List ℕ → List ℕ → List ℕ
intersect_loop zero a b = []
intersect_loop (suc fuel) [] b = []
intersect_loop (suc fuel) (x ∷ xs) [] = []
intersect_loop (suc fuel) (x ∷ xs) (y ∷ ys) =
    let less = intersect_loop fuel xs (y ∷ ys) in
    let greater = intersect_loop fuel (x ∷ xs) ys in
    let equal = intersect_loop fuel xs ys in
    if ltb x y then less else if ltb y x then greater else x ∷ equal

-- Each round takes an element off one of the lists.
unfoldable pub intersect_sorted : List ℕ → List ℕ → List ℕ
unfolding intersect_loop
intersect_sorted a b = intersect_loop (length a + length b) a b

abbrev pub IsSorted : List ℕ → Type 0
IsSorted [] = Unit
IsSorted (x ∷ xs) = All (λ y. x < y) xs × IsSorted xs

abbrev pub IsAscending : List ℕ → Type 0
IsAscending [] = Unit
IsAscending (x ∷ xs) = All (λ y. x ≤ y) xs × IsAscending xs

-- Membership.
pub contains-append :
    (i : ℕ) (xs ys : List ℕ) → contains i (xs ++ ys) ≡ (contains i xs || contains i ys)
contains-append i [] ys = refl
contains-append i (x ∷ xs) ys = ground (arith, contains-append i xs ys)

pub contains_below : (i x : ℕ) (xs : List ℕ) → i ≤ x → All (λ y. x < y) xs → contains i xs ≡ false
contains_below i x [] le h = refl
contains_below i x (y ∷ ys) le (hy, h) = ground (arith, contains_below i x ys le h)

pub contains-insert_id :
    (i j : ℕ) (xs : List ℕ) → contains i (insert_id j xs) ≡ ((j == i) || contains i xs)
unfolding insert_id
contains-insert_id i j [] = refl
contains-insert_id i j (x ∷ xs) = ground (arith, contains-insert_id i j xs)

pub contains-remove_id :
    (i j : ℕ) (xs : List ℕ) → contains i (remove_id j xs) ≡ (not (j == i) && contains i xs)
unfolding remove_id
contains-remove_id i j [] = ground arith
contains-remove_id i j (x ∷ xs) = ground (arith, contains-remove_id i j xs)

pub contains-retain_missing :
    (i : ℕ) (b xs : List ℕ)
    → contains i (retain_missing b xs) ≡ (contains i xs && not (contains i b))
unfolding retain_missing
contains-retain_missing i b [] = refl
contains-retain_missing i b (x ∷ xs) = ground (arith, contains-retain_missing i b xs)

contains-place : (i x : ℕ) (xs : List ℕ) → contains i (place x xs) ≡ ((x == i) || contains i xs)
unfolding place
contains-place i x [] = refl
contains-place i x (y ∷ ys) = ground (arith, contains-place i x ys)

contains-sort : (i : ℕ) (xs : List ℕ) → contains i (sort xs) ≡ contains i xs
unfolding sort
contains-sort i [] = refl
contains-sort i (x ∷ xs) = ground (arith, contains-place i x (sort xs), contains-sort i xs)

contains-dedup_after :
    (i p : ℕ) (xs : List ℕ)
    → ((p == i) || contains i (dedup_after p xs)) ≡ ((p == i) || contains i xs)
unfolding dedup_after
contains-dedup_after i p [] = refl
contains-dedup_after i p (x ∷ xs) = ground (arith, contains-dedup_after i x xs)

contains-dedup : (i : ℕ) (xs : List ℕ) → contains i (dedup xs) ≡ contains i xs
unfolding dedup
contains-dedup i [] = refl
contains-dedup i (x ∷ xs) = contains-dedup_after i x xs

pub contains-sort_dedup : (i : ℕ) (xs : List ℕ) → contains i (sort_dedup xs) ≡ contains i xs
unfolding sort_dedup
contains-sort_dedup i xs = ground (arith, contains-dedup i (sort xs), contains-sort i xs)
