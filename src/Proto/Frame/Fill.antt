-- ===== src/Proto/Frame/Fill.antt =====
-- Filling a buffer from an input that comes in parts.
use skeg.Prelude.{
  ℕ, ◌+◌, ◌-◌, ◌<◌, ◌≤◌, ◌≡◌, refl, ap, ap₂, sym, ◌∙◌, arith, min, Bytes, List, [], ◌∷◌, ◌++◌, zero,
  suc, take, drop, length, length-append, length-take, append_assoc, append-nil, take-append_length,
  drop-append_length,
}
use skeg.Proto.Frame.{fill}

take-append_less {ℓ} :
    {A : Type ℓ} (n : ℕ) (xs ys : List A) → n ≤ length xs → take n (xs ++ ys) ≡ take n xs
take-append_less zero xs ys h = refl
take-append_less (suc n) [] ys h = absurd (omega arith)
take-append_less (suc n) (x ∷ xs) ys h = ap (λ l. x ∷ l) (take-append_less n xs ys (omega arith))

drop-append_less {ℓ} :
    {A : Type ℓ} (n : ℕ) (xs ys : List A) → n ≤ length xs → drop n (xs ++ ys) ≡ drop n xs ++ ys
drop-append_less zero xs ys h = refl
drop-append_less (suc n) [] ys h = absurd (omega arith)
drop-append_less (suc n) (x ∷ xs) ys h = drop-append_less n xs ys (omega arith)

take-append_more {ℓ} :
    {A : Type ℓ} (n m : ℕ) (xs ys : List A)
    → n ≡ length xs + m
    → take n (xs ++ ys) ≡ xs ++ take m ys
take-append_more n m [] ys h = ap (λ k. take k ys) (omega arith)
take-append_more zero m (x ∷ xs) ys h = absurd (omega arith)
take-append_more (suc n) m (x ∷ xs) ys h =
    ap (λ l. x ∷ l) (take-append_more n m xs ys (omega arith))

drop-append_past {ℓ} :
    {A : Type ℓ} (n m : ℕ) (xs ys : List A) → n ≡ length xs + m → drop n (xs ++ ys) ≡ drop m ys
drop-append_past n m [] ys h = ap (λ k. drop k ys) (omega arith)
drop-append_past zero m (x ∷ xs) ys h = absurd (omega arith)
drop-append_past (suc n) m (x ∷ xs) ys h = drop-append_past n m xs ys (omega arith)

-- A part that completes the buffer exactly.
pub fill-exact :
    (cap : ℕ) (buf x y : Bytes)
    → length buf + length x ≡ cap
    → fill cap buf (x ++ y) ≡ (buf ++ x, y)
unfolding fill
fill-exact cap buf x y h =
    let n : length x ≡ min (length (x ++ y)) (cap - length buf) =
      omega (arith, length-append x y) in
    ap₂ (λ b r. (b, r))
      (ap (λ l. buf ++ l) (take-append_length (min (length (x ++ y)) (cap - length buf)) x y n))
      (drop-append_length (min (length (x ++ y)) (cap - length buf)) x y n)

-- A part that leaves the buffer short is taken whole.
pub fill-short :
    (cap : ℕ) (buf a : Bytes)
    → length (fill cap buf a).0 < cap
    → (fill cap buf a ≡ (buf ++ a, [])) × (length buf + length a < cap)
unfolding fill
fill-short cap buf a h =
    let n : ℕ = min (length a) (cap - length buf) in
    let whole : n ≡ length a = omega (arith, length-append buf (take n a), length-take n a) in
    (
      ap₂ (λ b r. (b, r))
          (ap (λ l. buf ++ l)
            (ap (take n) (sym (append-nil a)) ∙ take-append_length n a [] (sym whole)))
          (ap (drop n) (sym (append-nil a)) ∙ drop-append_length n a [] (sym whole)),
      omega (arith, length-append buf (take n a), length-take n a),
    )

-- What follows a part that was taken whole.
pub fill-more :
    (cap : ℕ) (buf a b : Bytes)
    → length buf + length a < cap
    → fill cap buf (a ++ b) ≡ fill cap (buf ++ a) b
unfolding fill
fill-more cap buf a b h =
    let n : ℕ = min (length (a ++ b)) (cap - length buf) in
    let m : ℕ = min (length b) (cap - length (buf ++ a)) in
    let split : n ≡ length a + m = omega (arith, length-append a b, length-append buf a) in
    ap₂ (λ x r. (x, r))
      (ap (λ l. buf ++ l) (take-append_more n m a b split) ∙ sym (append_assoc buf a (take m b)))
      (drop-append_past n m a b split)

-- A part that completes the buffer leaves the rest of the input as it is.
pub fill-full :
    (cap : ℕ) (buf a b : Bytes)
    → cap ≤ length (fill cap buf a).0
    → fill cap buf (a ++ b) ≡ ((fill cap buf a).0, (fill cap buf a).1 ++ b)
unfolding fill
fill-full cap buf a b h =
    let n : ℕ = min (length a) (cap - length buf) in
    let k : ℕ = min (length (a ++ b)) (cap - length buf) in
    let same : k ≡ n =
      omega (arith, length-append a b, length-append buf (take n a), length-take n a) in
    ap₂ (λ x r. (x, r))
      (ap (λ l. buf ++ l) (ap (λ j. take j (a ++ b)) same ∙ take-append_less n a b (omega arith)))
      (ap (λ j. drop j (a ++ b)) same ∙ drop-append_less n a b (omega arith))
