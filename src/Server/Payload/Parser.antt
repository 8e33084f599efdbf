-- ===== src/Server/Payload/Parser.antt =====
-- crates/skeg-server/src/payload.rs: the parser of filters. The place `i` in the tokens is the list of
-- the tokens from there on; every call and every round of a loop takes one of the fuel, which so bounds
-- the depth of the calls. The source has no such bound, and its stack is not modelled.
pub mod Total
pub mod Depth
pub mod Query
pub mod Reads
pub mod Levels
pub mod RoundTrip
pub mod Spaced
use skeg.Prelude.{ℕ, zero, suc, ◌+◌, ◌*◌, List, [], ◌∷◌, length, true, false, if◌then◌else◌, Text}
use skeg.Server.Payload.Tokens.{open_paren, close_paren, kw_and, kw_or, kw_not, tokenize}
use skeg.Server.Payload.Filter.{Filter, Filters}
use skeg.Server.Payload.Predicate.{
  FilterError, empty_filter, trailing_token, expected_close, Result, ok, err, out_of_fuel, ◌>>=◌,
  next_is_keyword, next_is, skip, parse_predicate,
}

-- `if parts.len() == 1 { parts.pop() } else { Filter::Or(parts) }`
abbrev pub one_or_any : Filter → Filters → Filter
one_or_any f Filters.no_filters = f
one_or_any f (Filters.more g gs) = Filter.any_of (Filters.more f (Filters.more g gs))

abbrev pub one_or_all : Filter → Filters → Filter
one_or_all f Filters.no_filters = f
one_or_all f (Filters.more g gs) = Filter.all_of (Filters.more f (Filters.more g gs))

-- The closing parenthesis of an atom.
unfoldable pub close : Filter → List Text → Result Filter
unfolding next_is
close f toks = if next_is close_paren toks then ok f (skip toks) else err expected_close

unfoldable mutual
  unfolding next_is_keyword next_is parse_predicate close

  pub parse_or : ℕ → List Text → Result Filter
  parse_or zero toks = out_of_fuel
  parse_or (suc fuel) toks =
      parse_and fuel toks >>= λ f rest. or_loop fuel rest >>= λ fs rest'. ok (one_or_any f fs) rest'

  -- The parts that the loop of `parse_or` pushes.
  pub or_loop : ℕ → List Text → Result Filters
  or_loop zero toks = out_of_fuel
  or_loop (suc fuel) toks = elim (next_is_keyword kw_or toks) [
    | true ↦ parse_and fuel (skip toks) >>= λ f rest.
        or_loop fuel rest >>= λ fs rest'. ok (Filters.more f fs) rest'
    | false ↦ ok Filters.no_filters toks
  ]

  pub parse_and : ℕ → List Text → Result Filter
  parse_and zero toks = out_of_fuel
  parse_and (suc fuel) toks = parse_not fuel toks >>= λ f rest.
      and_loop fuel rest >>= λ fs rest'. ok (one_or_all f fs) rest'

  pub and_loop : ℕ → List Text → Result Filters
  and_loop zero toks = out_of_fuel
  and_loop (suc fuel) toks = elim (next_is_keyword kw_and toks) [
    | true ↦ parse_not fuel (skip toks) >>= λ f rest.
        and_loop fuel rest >>= λ fs rest'. ok (Filters.more f fs) rest'
    | false ↦ ok Filters.no_filters toks
  ]

  pub parse_not : ℕ → List Text → Result Filter
  parse_not zero toks = out_of_fuel
  parse_not (suc fuel) toks = elim (next_is_keyword kw_not toks) [
    | true ↦ parse_not fuel (skip toks) >>= λ f rest. ok (Filter.negation f) rest
    | false ↦ parse_atom fuel toks
  ]

  pub parse_atom : ℕ → List Text → Result Filter
  parse_atom zero toks = out_of_fuel
  parse_atom (suc fuel) toks = elim (next_is open_paren toks) [
    | true ↦ parse_or fuel (skip toks) >>= λ f rest. close f rest
    | false ↦ parse_predicate toks
  ]

abbrev pub finish : Result Filter → Result Filter
finish (ok f []) = ok f []
finish (ok f (t ∷ toks)) = err (trailing_token t)
finish (err e) = err e
finish out_of_fuel = out_of_fuel

-- `parse_filter` after `tokenize`.
unfoldable pub parse_tokens : List Text → Result Filter
unfolding parse_or
parse_tokens [] = err empty_filter
parse_tokens (t ∷ toks) = finish (parse_or (4 * length (t ∷ toks) + 4) (t ∷ toks))

unfoldable pub parse_filter : Text → Result Filter
unfolding tokenize parse_tokens
parse_filter s = parse_tokens (tokenize s)
