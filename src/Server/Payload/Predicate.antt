-- ===== src/Server/Payload/Predicate.antt =====
-- crates/skeg-server/src/payload.rs: the parser of one predicate of a filter. The place `i` in the
-- tokens is the list of the tokens from there on.
use skeg.Prelude.{List, [], ◌∷◌, ◌++◌, Bool, false, if◌then◌else◌, bytes_beq, Text}
use skeg.Server.Payload.Value.{Value, Bound, parse_value}
use skeg.Server.Payload.Tokens.{
  open_paren, close_paren, comma, less, equal, greater, less_equal, greater_equal, kw_and, kw_in,
  kw_between, kw_exists, is_keyword, is_reserved,
}
use skeg.Server.Payload.Filter.{Filter}

pub data What : Type 0 where
  a_value between_lower_bound between_upper_bound value_in_list : What

-- The messages.
pub data FilterError : Type 0 where
  empty_filter : FilterError
  trailing_token : Text → FilterError
  expected_close : FilterError
  expected : What → FilterError
  expected_got : What → Text → FilterError
  expected_field : FilterError
  expected_field_got : Text → FilterError
  expected_operator : FilterError
  expected_operator_got : Text → FilterError
  expected_and_in_between : FilterError
  expected_open_after_in : FilterError
  expected_comma_or_close : FilterError

pub data Result (A : Type 0) : Type 0 where
  ok : A → List Text → Result A
  err : FilterError → Result A
  out_of_fuel : Result A

infixl 20 ◌>>=◌
abbrev pub ◌>>=◌ : {A B : Type 0} → Result A → (A → List Text → Result B) → Result B
ok a toks >>= k = k a toks
err e >>= k = err e
out_of_fuel >>= k = out_of_fuel

-- `toks.get(*i).is_some_and(|t| is_keyword(t, kw))`
unfoldable pub next_is_keyword : Text → List Text → Bool
unfolding is_keyword
next_is_keyword kw [] = false
next_is_keyword kw (t ∷ toks) = is_keyword t kw

-- `toks.get(*i) == Some(s)`
unfoldable pub next_is : Text → List Text → Bool
next_is s [] = false
next_is s (t ∷ toks) = bytes_beq t s

-- `*i += 1`
abbrev pub skip : List Text → List Text
skip [] = []
skip (t ∷ toks) = toks

unfoldable pub take_value : What → List Text → Result Value
unfolding is_reserved parse_value
take_value what [] = err (expected what)
take_value what (t ∷ toks) =
    if is_reserved t then err (expected_got what t) else ok (parse_value t) toks

abbrev pub from_bound : Text → (Value → Bound) → List Text → Result Filter
from_bound field bound toks =
    take_value a_value toks >>= λ v rest. ok (Filter.range field (bound v) Bound.unbounded) rest

abbrev pub to_bound : Text → (Value → Bound) → List Text → Result Filter
to_bound field bound toks =
    take_value a_value toks >>= λ v rest. ok (Filter.range field Bound.unbounded (bound v)) rest

-- The loop of `parse_in`.
unfoldable pub in_list : Text → List Value → List Text → Result Filter
unfolding is_reserved parse_value
in_list field vals [] = err (expected value_in_list)
in_list field vals (t ∷ []) =
    if is_reserved t then err (expected_got value_in_list t) else err expected_comma_or_close
in_list field vals (t ∷ sep ∷ toks) =
    let more_vals = vals ++ parse_value t ∷ [] in
    let rest = in_list field more_vals toks in
    if is_reserved t
    then err (expected_got value_in_list t)
    else if bytes_beq sep comma
    then rest
    else if bytes_beq sep close_paren
    then ok (Filter.one_of field more_vals) toks
    else err expected_comma_or_close

unfoldable pub parse_in : Text → List Text → Result Filter
unfolding next_is in_list
parse_in field toks =
    if next_is open_paren toks then in_list field [] (skip toks) else err expected_open_after_in

-- `BETWEEN` after its lower bound.
unfoldable pub between_upper : Text → Value → List Text → Result Filter
unfolding take_value next_is_keyword
between_upper field lo toks =
    if next_is_keyword kw_and toks
    then (take_value between_upper_bound (skip toks) >>= λ hi rest.
        ok (Filter.range field (Bound.included lo) (Bound.included hi)) rest)
    else err expected_and_in_between

unfoldable pub parse_between : Text → List Text → Result Filter
unfolding take_value between_upper
parse_between field toks =
    take_value between_lower_bound toks >>= λ lo rest. between_upper field lo rest

abbrev pub equals_value : Text → List Text → Result Filter
equals_value field toks = take_value a_value toks >>= λ v rest. ok (Filter.equals field v) rest

-- The match of `parse_predicate` on the operator.
unfoldable pub parse_operator : Text → Text → List Text → Result Filter
unfolding take_value is_keyword parse_in parse_between
parse_operator field op toks =
    if bytes_beq op equal
    then equals_value field toks
    else if bytes_beq op greater_equal
    then from_bound field Bound.included toks
    else if bytes_beq op greater
    then from_bound field Bound.excluded toks
    else if bytes_beq op less_equal
    then to_bound field Bound.included toks
    else if bytes_beq op less
    then to_bound field Bound.excluded toks
    else if is_keyword op kw_exists
    then ok (Filter.exists field) toks
    else if is_keyword op kw_in
    then parse_in field toks
    else if is_keyword op kw_between
    then parse_between field toks
    else err (expected_operator_got op)

unfoldable pub parse_predicate : List Text → Result Filter
unfolding is_reserved parse_operator
parse_predicate [] = err expected_field
parse_predicate (field ∷ []) =
    if is_reserved field then err (expected_field_got field) else err expected_operator
parse_predicate (field ∷ op ∷ toks) =
    if is_reserved field then err (expected_field_got field) else parse_operator field op toks
