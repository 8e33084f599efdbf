-- ===== src/Prelude/Decimal.antt =====
-- Decimal numbers: i64 and its text.
use Prim.Native.Nat.{ℕ, zero, suc, ◌+◌, ◌-◌, ◌*◌, ◌/◌, ◌%◌, ◌^◌, ◌≤◌, ◌<◌}
use mathlib.Core.Path.{◌≡◌, refl, ap, ◌∙◌}
use mathlib.Core.Logic.{inl, inr}
use mathlib.Core.Bool.{◌&&◌}
use mathlib.Core.Option.{Option, none, some}
use mathlib.Core.List.{[], ◌∷◌}
use native.Mathlib.Omega.{arith}
use skeg.Prelude.Tests.{leb, ltb, ◌==◌, if◌then◌else◌, Bool-cases, ltb→lt, ltb→le}
use skeg.Prelude.Lists.{All, length}
use skeg.Prelude.Utf8.{Text}

pub data ℤ : Type 0 where
  pos : ℕ → ℤ
  negsuc : ℕ → ℤ

-- `tok.parse::<i64>()`: an optional sign, then digits; none where there is no digit or no i64 holds it.
unfoldable pub digits : ℕ → Text → Option ℕ
digits n [] = some n
digits n (c ∷ cs) =
    let rest = digits (n * 10 + (c - 48)) cs in if leb 48 c && leb c 57 then rest else none

abbrev pub at_least_one : Text → Option ℕ
at_least_one [] = none
at_least_one (c ∷ cs) = digits 0 (c ∷ cs)

abbrev pub positive : Option ℕ → Option ℤ
positive none = none
positive (some n) = if ltb n (2 ^ 63) then some (ℤ.pos n) else none

abbrev pub negative : Option ℕ → Option ℤ
negative none = none
negative (some n) =
    if n == 0 then some (ℤ.pos 0) else if leb n (2 ^ 63) then some (ℤ.negsuc (n - 1)) else none

unfoldable pub parse_i64 : Text → Option ℤ
unfolding digits
parse_i64 [] = none
parse_i64 (c ∷ cs) =
    if c == 43
    then positive (at_least_one cs)
    else if c == 45
    then negative (at_least_one cs)
    else positive (at_least_one (c ∷ cs))

abbrev pub below : ℕ → Option ℕ → Option ℕ
below limit none = none
below limit (some n) = if ltb n limit then some n else none

-- `parse` to an unsigned number below `limit`: an optional plus sign, then digits.
unfoldable pub parse_unsigned : ℕ → Text → Option ℕ
unfolding digits
parse_unsigned limit [] = none
parse_unsigned limit (c ∷ cs) =
    if c == 43 then below limit (at_least_one cs) else below limit (at_least_one (c ∷ cs))

-- `to_string` of a usize: the digits of `n`, in front of `s`; each round of fuel writes one.
unfoldable pub show_loop : ℕ → ℕ → Text → Text
show_loop zero n s = s
show_loop (suc fuel) n s =
    let rest = show_loop fuel (n / 10) ((48 + n % 10) ∷ s) in
    if ltb n 10 then (48 + n) ∷ s else rest

unfoldable pub show_nat : ℕ → Text
unfolding show_loop
show_nat n = show_loop (suc n) n []

-- `to_string` of an i64
unfoldable pub show_int : ℤ → Text
unfolding show_nat
show_int (ℤ.pos n) = show_nat n
show_int (ℤ.negsuc n) = 45 ∷ show_nat (suc n)

abbrev pub IsDigit : ℕ → Type 0
IsDigit c = (48 ≤ c) × (c ≤ 57)

-- The values of an i64.
abbrev pub IsI64 : ℤ → Type 0
IsI64 (ℤ.pos n) = n < 2 ^ 63
IsI64 (ℤ.negsuc n) = n < 2 ^ 63

show_loop-digits :
    (fuel n : ℕ) (s : Text) → n < fuel → All IsDigit s → All IsDigit (show_loop fuel n s)
unfolding show_loop
show_loop-digits zero n s h d = absurd (omega arith)
show_loop-digits (suc fuel) n s h d =
    ground (arith, show_loop-digits fuel (n / 10) ((48 + n % 10) ∷ s))

pub show_nat-digits : (n : ℕ) → All IsDigit (show_nat n)
unfolding show_nat
show_nat-digits n = show_loop-digits (suc n) n [] (omega arith) tt

digits-cons : (n c : ℕ) (s : Text) → IsDigit c → digits n (c ∷ s) ≡ digits (n * 10 + (c - 48)) s
unfolding digits
digits-cons n c s h = ground arith

digits-show_loop : (fuel n : ℕ) (s : Text) → n < fuel → digits 0 (show_loop fuel n s) ≡ digits n s
unfolding show_loop
digits-show_loop zero n s h = absurd (omega arith)
digits-show_loop (suc fuel) n s h = elim (Bool-cases (ltb n 10)) [
  | inl small ↦
      let below : n < 10 = ltb→lt n 10 small in
      rw small (digits-cons 0 (48 + n) s (omega arith) ∙ ap (λ m. digits m s) (omega arith))
  | inr large ↦
      let above : 10 ≤ n = ltb→le n 10 large in
      rw large (
        digits-show_loop fuel (n / 10) ((48 + n % 10) ∷ s) (omega arith)
        ∙ digits-cons (n / 10) (48 + n % 10) s (omega arith)
        ∙ ap (λ m. digits m s) (omega arith))
]

digits-show_nat : (n : ℕ) → digits 0 (show_nat n) ≡ some n
unfolding show_nat digits
digits-show_nat n = digits-show_loop (suc n) n [] (omega arith)

at_least_one-digits :
    (s : Text) (n : ℕ) → digits 0 s ≡ some n → 1 ≤ length s → at_least_one s ≡ some n
unfolding digits
at_least_one-digits [] n e h = absurd (omega arith)
at_least_one-digits (c ∷ s) n e h = e

-- Each round keeps what is behind, and the last one writes a digit.
length-show_loop : (fuel n : ℕ) (s : Text) → length s ≤ length (show_loop fuel n s)
unfolding show_loop
length-show_loop zero n s = omega arith
length-show_loop (suc fuel) n s = ground (arith, length-show_loop fuel (n / 10) ((48 + n % 10) ∷ s))

pub length-show_nat : (n : ℕ) → 1 ≤ length (show_nat n)
unfolding show_nat show_loop
length-show_nat n = ground (arith, length-show_loop n (n / 10) ((48 + n % 10) ∷ []))

positive-fits : (n : ℕ) → n < 2 ^ 63 → positive (some n) ≡ some (ℤ.pos n)
positive-fits n h = ground arith

negative-fits : (n : ℕ) → n < 2 ^ 63 → negative (some (suc n)) ≡ some (ℤ.negsuc n)
negative-fits n h = ground arith

parse_i64-unsigned :
    (s : Text) → 1 ≤ length s → All IsDigit s → parse_i64 s ≡ positive (at_least_one s)
unfolding parse_i64
parse_i64-unsigned [] h d = absurd (omega arith)
parse_i64-unsigned (c ∷ s) h (dc, d) = ground arith

parse_i64-minus : (s : Text) → parse_i64 (45 ∷ s) ≡ negative (at_least_one s)
unfolding parse_i64
parse_i64-minus s = refl

pub parse_i64-show_int : (i : ℤ) → IsI64 i → parse_i64 (show_int i) ≡ some i
unfolding show_int
parse_i64-show_int (ℤ.pos n) h =
    parse_i64-unsigned (show_nat n) (length-show_nat n) (show_nat-digits n)
    ∙ ap positive (at_least_one-digits (show_nat n) n (digits-show_nat n) (length-show_nat n))
    ∙ positive-fits n h
parse_i64-show_int (ℤ.negsuc n) h =
    let read =
      at_least_one-digits (show_nat (suc n)) (suc n) (digits-show_nat (suc n))
        (length-show_nat (suc n)) in
    parse_i64-minus (show_nat (suc n)) ∙ ap negative read ∙ negative-fits n h
