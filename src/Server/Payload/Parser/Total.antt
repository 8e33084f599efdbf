-- ===== src/Server/Payload/Parser/Total.antt =====
-- crates/skeg-server/src/payload.rs: four rounds of fuel for each token, and four more, are enough for the
-- parser of filters.
use skeg.Prelude.{
  ℕ, zero, suc, ◌+◌, ◌*◌, ◌≤◌, ◌≡◌, ◌≢◌, refl, arith, List, [], ◌∷◌, ◌++◌, length, Bool, true,
  false, if◌then◌else◌, inl, inr, Bool-cases, bytes_beq, Text,
}
use skeg.Server.Payload.Value.{Value, Bound, parse_value}
use skeg.Server.Payload.Tokens.{
  open_paren, close_paren, less, equal, greater, less_equal, greater_equal, kw_and, kw_or, kw_not,
  kw_in, kw_between, kw_exists, is_keyword, is_reserved, tokenize,
}
use skeg.Server.Payload.Filter.{Filter, Filters}
use skeg.Server.Payload.Predicate.{
  What, a_value, between_lower_bound, between_upper_bound, Result, ok, err, out_of_fuel, ◌>>=◌,
  next_is_keyword, next_is, skip, take_value, in_list, equals_value, from_bound, to_bound, parse_in,
  between_upper, parse_between, parse_operator, parse_predicate,
}
use skeg.Server.Payload.Parser.{
  one_or_any, one_or_all, close, parse_or, or_loop, parse_and, and_loop, parse_not, parse_atom,
  finish, parse_tokens, parse_filter,
}

-- A parse that ends, with at most `n` tokens left.
abbrev Ends : {A : Type 0} → Result A → ℕ → Type 0
Ends (ok a rest) n = length rest ≤ n
Ends (err e) n = Unit
Ends out_of_fuel n = 1 ≤ 0

Ends-bind :
    {A B : Type 0} (o : Result A) (k : A → List Text → Result B) (n m : ℕ)
    → Ends o n
    → ((a : A) (rest : List Text) → length rest ≤ n → Ends (k a rest) m)
    → Ends (o >>= k) m
Ends-bind (ok a rest) k n m h f = f a rest h
Ends-bind (err e) k n m h f = tt
Ends-bind out_of_fuel k n m h f = h

weaken : {A : Type 0} (o : Result A) (n m : ℕ) → n ≤ m → Ends o n → Ends o m
weaken (ok a rest) n m le h = omega arith
weaken (err e) n m le h = tt
weaken out_of_fuel n m le h = h

choose :
    {A : Type 0} (n : ℕ) (x y : Result A) (b : Bool)
    → Ends x n
    → Ends y n
    → Ends (if b then x else y) n
choose n x y true hx hy = hx
choose n x y false hx hy = hy

length-skip : (toks : List Text) → length (skip toks) ≤ length toks
length-skip [] = omega arith
length-skip (t ∷ toks) = omega arith

skip_keyword :
    (kw : Text) (toks : List Text)
    → next_is_keyword kw toks ≡ true
    → suc (length (skip toks)) ≡ length toks
unfolding next_is_keyword
skip_keyword kw [] h = absurd (cc)
skip_keyword kw (t ∷ toks) h = refl

skip_is :
    (s : Text) (toks : List Text) → next_is s toks ≡ true → suc (length (skip toks)) ≡ length toks
unfolding next_is
skip_is s [] h = absurd (cc)
skip_is s (t ∷ toks) h = refl

take_value-Ends : (w : What) (toks : List Text) → Ends (take_value w toks) (length toks)
unfolding take_value
take_value-Ends w [] = tt
take_value-Ends w (t ∷ toks) = ground arith

value-Ends :
    {B : Type 0} (w : What) (toks : List Text) (k : Value → List Text → Result B)
    → ((v : Value) (rest : List Text) → Ends (k v rest) (length rest))
    → Ends (take_value w toks >>= k) (length toks)
value-Ends w toks k f =
    Ends-bind (take_value w toks) k (length toks) (length toks) (take_value-Ends w toks)
      (λ v rest h. weaken (k v rest) (length rest) (length toks) h (f v rest))

in_list-Ends :
    (field : Text) (vals : List Value) (toks : List Text)
    → Ends (in_list field vals toks) (length toks)
unfolding in_list
in_list-Ends field vals [] = tt
in_list-Ends field vals (t ∷ []) = ground arith
in_list-Ends field vals (t ∷ sep ∷ toks) =
    let vals' = vals ++ parse_value t ∷ [] in
    let later =
      weaken (in_list field vals' toks) (length toks) (length (t ∷ sep ∷ toks)) (omega arith)
        (in_list-Ends field vals' toks) in
    ground arith

parse_in-Ends : (field : Text) (toks : List Text) → Ends (parse_in field toks) (length toks)
unfolding parse_in
parse_in-Ends field toks =
    let later =
      weaken (in_list field [] (skip toks)) (length (skip toks)) (length toks) (length-skip toks)
        (in_list-Ends field [] (skip toks)) in
    ground arith

between_upper-Ends :
    (field : Text) (lo : Value) (toks : List Text)
    → Ends (between_upper field lo toks) (length toks)
unfolding between_upper
between_upper-Ends field lo toks = elim (Bool-cases (next_is_keyword kw_and toks)) [
  | inl h ↦ rw h (
      weaken _ (length (skip toks)) (length toks) (length-skip toks)
        (value-Ends between_upper_bound (skip toks) _ (λ v rest. omega arith)))
  | inr h ↦ rw h tt
]

module _ (toks : List Text) where
  equals-Ends : (field : Text) → Ends (equals_value field toks) (length toks)
  equals-Ends field = value-Ends a_value toks _ (λ v rest. omega arith)

  from-Ends : (field : Text) (b : Value → Bound) → Ends (from_bound field b toks) (length toks)
  from-Ends field b = value-Ends a_value toks _ (λ v rest. omega arith)

  to-Ends : (field : Text) (b : Value → Bound) → Ends (to_bound field b toks) (length toks)
  to-Ends field b = value-Ends a_value toks _ (λ v rest. omega arith)

  between-Ends : (field : Text) → Ends (parse_between field toks) (length toks)
  unfolding parse_between
  between-Ends field =
      value-Ends between_lower_bound toks _ (λ v rest. between_upper-Ends field v rest)

  parse_operator-Ends : (field op : Text) → Ends (parse_operator field op toks) (length toks)
  unfolding parse_operator
  parse_operator-Ends field op = choose _ _ _ (bytes_beq op equal) (equals-Ends field) (
      choose _ _ _ (bytes_beq op greater_equal) (from-Ends field Bound.included) (
        choose _ _ _ (bytes_beq op greater) (from-Ends field Bound.excluded) (
          choose _ _ _ (bytes_beq op less_equal) (to-Ends field Bound.included) (
            choose _ _ _ (bytes_beq op less) (to-Ends field Bound.excluded) (
              choose _ _ _ (is_keyword op kw_exists) (omega arith) (
                choose _ _ _ (is_keyword op kw_in) (parse_in-Ends field toks)
                  (choose _ _ _ (is_keyword op kw_between) (between-Ends field) tt)))))))

pub parse_predicate-Ends : (toks : List Text) → Ends (parse_predicate toks) (length toks)
unfolding parse_predicate
parse_predicate-Ends [] = tt
parse_predicate-Ends (field ∷ []) = choose _ _ _ (is_reserved field) tt tt
parse_predicate-Ends (field ∷ op ∷ toks) = choose _ _ _ (is_reserved field) tt (
    weaken _ (length toks) (suc (suc (length toks))) (omega arith)
      (parse_operator-Ends toks field op))

close-Ends : (f : Filter) (toks : List Text) → Ends (close f toks) (length toks)
unfolding close
close-Ends f toks = choose _ _ _ (next_is close_paren toks) (length-skip toks) tt

-- Two parses, one behind the other.
then-Ends :
    {A B C : Type 0} (o : Result A) (k : List Text → Result B) (join : A → B → C) (n m : ℕ)
    → Ends o n
    → ((rest : List Text) → length rest ≤ n → Ends (k rest) n)
    → n ≤ m
    → Ends (o >>= λ a rest. k rest >>= λ b rest'. ok (join a b) rest') m
then-Ends o k join n m h f le =
    Ends-bind o _ n m h
      (λ a rest hr. Ends-bind (k rest) _ n m (f rest hr) (λ b rest' hb. omega arith))

mutual
  unfolding parse_or

  or-Ends :
      (fuel : ℕ) (toks : List Text)
      → 4 * length toks + 4 ≤ fuel
      → Ends (parse_or fuel toks) (length toks)
  or-Ends zero toks h = omega arith
  or-Ends (suc fuel) toks h =
      let n = length toks in
      then-Ends (parse_and fuel toks) (or_loop fuel) one_or_any n n
        (and-Ends fuel toks (omega arith))
        (λ rest hr.
          weaken (or_loop fuel rest) (length rest) n hr (or_loop-Ends fuel rest (omega arith)))
        (omega arith)

  or_loop-Ends :
      (fuel : ℕ) (toks : List Text)
      → 4 * length toks + 1 ≤ fuel
      → Ends (or_loop fuel toks) (length toks)
  or_loop-Ends zero toks h = omega arith
  or_loop-Ends (suc fuel) toks h = elim (Bool-cases (next_is_keyword kw_or toks)) [
    | inr stop ↦ rw (stop, or_loop) (omega arith)
    | inl go ↦
        let shorter = skip_keyword kw_or toks go in
        let n = length (skip toks) in
        rw (go, or_loop)
          (then-Ends (parse_and fuel (skip toks)) (or_loop fuel) Filters.more n (length toks)
            (and-Ends fuel (skip toks) (omega arith))
            (λ rest hr.
              weaken (or_loop fuel rest) (length rest) n hr (or_loop-Ends fuel rest (omega arith)))
            (omega arith))
  ]

  and-Ends :
      (fuel : ℕ) (toks : List Text)
      → 4 * length toks + 3 ≤ fuel
      → Ends (parse_and fuel toks) (length toks)
  and-Ends zero toks h = omega arith
  and-Ends (suc fuel) toks h =
      let n = length toks in
      then-Ends (parse_not fuel toks) (and_loop fuel) one_or_all n n
        (not-Ends fuel toks (omega arith))
        (λ rest hr.
          weaken (and_loop fuel rest) (length rest) n hr (and_loop-Ends fuel rest (omega arith)))
        (omega arith)

  and_loop-Ends :
      (fuel : ℕ) (toks : List Text)
      → 4 * length toks + 1 ≤ fuel
      → Ends (and_loop fuel toks) (length toks)
  and_loop-Ends zero toks h = omega arith
  and_loop-Ends (suc fuel) toks h = elim (Bool-cases (next_is_keyword kw_and toks)) [
    | inr stop ↦ rw (stop, and_loop) (omega arith)
    | inl go ↦
        let shorter = skip_keyword kw_and toks go in
        let n = length (skip toks) in
        rw (go, and_loop)
          (then-Ends (parse_not fuel (skip toks)) (and_loop fuel) Filters.more n (length toks)
            (not-Ends fuel (skip toks) (omega arith))
            (λ rest hr.
              weaken (and_loop fuel rest) (length rest) n hr
                (and_loop-Ends fuel rest (omega arith)))
            (omega arith))
  ]

  not-Ends :
      (fuel : ℕ) (toks : List Text)
      → 4 * length toks + 2 ≤ fuel
      → Ends (parse_not fuel toks) (length toks)
  not-Ends zero toks h = omega arith
  not-Ends (suc fuel) toks h = elim (Bool-cases (next_is_keyword kw_not toks)) [
    | inr stop ↦ rw (stop, parse_not) (atom-Ends fuel toks (omega arith))
    | inl go ↦
        let shorter = skip_keyword kw_not toks go in
        rw (go, parse_not)
          (Ends-bind (parse_not fuel (skip toks)) _ (length (skip toks)) (length toks)
            (not-Ends fuel (skip toks) (omega arith)) (λ f rest hr. omega arith))
  ]

  atom-Ends :
      (fuel : ℕ) (toks : List Text)
      → 4 * length toks + 1 ≤ fuel
      → Ends (parse_atom fuel toks) (length toks)
  atom-Ends zero toks h = omega arith
  atom-Ends (suc fuel) toks h = elim (Bool-cases (next_is open_paren toks)) [
    | inr stop ↦ rw (stop, parse_atom) (parse_predicate-Ends toks)
    | inl go ↦
        let shorter = skip_is open_paren toks go in
        rw (go, parse_atom)
          (Ends-bind (parse_or fuel (skip toks)) _ (length (skip toks)) (length toks)
            (or-Ends fuel (skip toks) (omega arith))
            (λ f rest hr.
              weaken (close f rest) (length rest) (length toks) (omega arith) (close-Ends f rest)))
  ]

finish-Ends : (o : Result Filter) (n : ℕ) → Ends o n → Ends (finish o) n
finish-Ends (ok f []) n h = h
finish-Ends (ok f (t ∷ toks)) n h = tt
finish-Ends (err e) n h = tt
finish-Ends out_of_fuel n h = h

tokens-Ends : (toks : List Text) → Ends (parse_tokens toks) (length toks)
unfolding parse_tokens
tokens-Ends [] = tt
tokens-Ends (t ∷ toks) =
    let n = length (t ∷ toks) in
    finish-Ends (parse_or (4 * n + 4) (t ∷ toks)) n (or-Ends (4 * n + 4) (t ∷ toks) (omega arith))

never : {A : Type 0} (o : Result A) (n : ℕ) → Ends o n → o ≢ out_of_fuel
never (ok a rest) n h e = cc
never (err m) n h e = cc
never out_of_fuel n h e = omega arith

-- On every string the fuel of the parser of filters is enough.
pub parse_filter-total : (s : Text) → parse_filter s ≢ out_of_fuel
unfolding parse_filter
parse_filter-total s =
    never (parse_tokens (tokenize s)) (length (tokenize s)) (tokens-Ends (tokenize s))
