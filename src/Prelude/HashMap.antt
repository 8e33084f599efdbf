-- ===== src/Prelude/HashMap.antt =====
-- Hash maps as association lists: the order of the entries is the hash's, and no result depends on it.
use Prim.Native.Nat.{ℕ, ◌+◌}
use mathlib.Core.Path.{◌≡◌, refl}
use mathlib.Core.Option.{Option, none, some}
use mathlib.Core.Logic.{inl, inr}
use mathlib.Core.List.{List, [], ◌∷◌}
use native.Mathlib.Omega.{arith}
use skeg.Prelude.Tests.{if◌then◌else◌, Bool-cases}
use skeg.Prelude.Keys.{Eq}

abbrev pub Assoc {ℓ κ} : Type ℓ → Type κ → Type (ℓ ⊔ κ)
Assoc K V = List (K × V)

module _ {K V : Type 0} ⦃e : Eq K⦄ where
  abbrev pub lookup : K → Assoc K V → Option V
  lookup k [] = none
  lookup k ((j, v) ∷ m) = if e.beq j k then some v else lookup k m

  abbrev pub remove : K → Assoc K V → Assoc K V
  remove k [] = []
  remove k ((j, v) ∷ m) = let rest = remove k m in if e.beq j k then rest else (j, v) ∷ rest

  abbrev pub insert : K → V → Assoc K V → Assoc K V
  insert k v m = (k, v) ∷ remove k m

  abbrev pub Unique : Assoc K V → Type 0
  Unique [] = Unit
  Unique ((k, v) ∷ m) = (lookup k m ≡ none) × Unique m

  -- The sum of a weight over all entries.
  abbrev pub total : (K → V → ℕ) → Assoc K V → ℕ
  total f [] = 0
  total f ((k, v) ∷ m) = f k v + total f m

  abbrev pub weight : (K → V → ℕ) → K → Option V → ℕ
  weight f k none = 0
  weight f k (some v) = f k v

  pub lookup-remove :
      (k j : K) (m : Assoc K V) → lookup j (remove k m) ≡ (if e.beq k j then none else lookup j m)
  lookup-remove k j [] = ground arith
  lookup-remove k j ((i, v) ∷ m) =
      ground (arith, lookup-remove k j m, e.beq_iff i k, e.beq_iff i j, e.beq_iff k j)

  pub lookup-insert :
      (k j : K) (v : V) (m : Assoc K V)
      → lookup j (insert k v m) ≡ (if e.beq k j then some v else lookup j m)
  lookup-insert k j v m = ground (arith, lookup-remove k j m)

  pub lookup-remove_self : (k : K) (m : Assoc K V) → lookup k (remove k m) ≡ none
  lookup-remove_self k m = ground (arith, lookup-remove k k m, e.beq_iff k k)

  pub lookup-insert_self : (k : K) (v : V) (m : Assoc K V) → lookup k (insert k v m) ≡ some v
  lookup-insert_self k v m = ground (arith, e.beq_iff k k)

  pub Unique-remove : (k : K) (m : Assoc K V) → Unique m → Unique (remove k m)
  Unique-remove k [] u = tt
  Unique-remove k ((j, v) ∷ m) (fresh, u) = ground (arith, lookup-remove k j m, Unique-remove k m u)

  pub Unique-insert : (k : K) (v : V) (m : Assoc K V) → Unique m → Unique (insert k v m)
  Unique-insert k v m u = (lookup-remove_self k m, Unique-remove k m u)

  remove_fresh :
      (f : K → V → ℕ) (k : K) (m : Assoc K V) → lookup k m ≡ none → total f (remove k m) ≡ total f m
  remove_fresh f k [] h = refl
  remove_fresh f k ((j, v) ∷ m) h = ground (arith, remove_fresh f k m)

  pub total-remove :
      (f : K → V → ℕ) (k : K) (m : Assoc K V)
      → Unique m
      → total f (remove k m) + weight f k (lookup k m) ≡ total f m
  total-remove f k [] u = omega arith
  total-remove f k ((j, v) ∷ m) (fresh, u) = elim (Bool-cases (e.beq j k)) [
    | inl same ↦
        let jk : j ≡ k = (e.beq_iff j k).0 same in
        rw same (rw jk (omega (arith, remove_fresh f k m (rw jk at fresh))))
    | inr other ↦ rw other (omega (arith, total-remove f k m u))
  ]

  pub total-insert :
      (f : K → V → ℕ) (k : K) (v : V) (m : Assoc K V)
      → Unique m
      → total f (insert k v m) + weight f k (lookup k m) ≡ total f m + f k v
  total-insert f k v m u = omega (arith, total-remove f k m u)
