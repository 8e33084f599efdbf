-- ===== src/Tests/Payloads.antt =====
-- Payload indexes, filters and their parser on concrete values.
use skeg.Prelude.{
  ℕ, ◌≡◌, refl, arith, List, [], ◌∷◌, none, some, not, ◌&&◌, inl, inr, Text, digits, parse_i64, ℤ,
}
use skeg.Server.Payload.Ids.{contains, IsSorted}
use skeg.Server.Payload.Value.{
  Value, keyword, int, included, unbounded, range_panics, value_compare, parse_value,
}
use skeg.Server.Payload.Index.{is_empty}
use skeg.Server.Payload.Tokens.{
  is_reserved, is_keyword, to_ascii_lowercase, arm, is_whitespace, tokenize, tokenize_from,
}
use skeg.Server.Payload.Filter.{Filter, Filters, evaluate}
use skeg.Server.Payload.Filter.Matches.{matches, IsOrdered}
use skeg.Server.Payload.Filter.Refines.{
  Call, put, delete, run, contents, evaluate-run, evaluate-range_panics,
}
use skeg.Server.Payload.Predicate.{ok}
use skeg.Server.Payload.Parser.{parse_filter}
use skeg.Server.Payload.Parser.Query.{
  Query, compared, both, opposite, no_queries, is, at_least, or_level, write, meaning, HasWords,
}
use skeg.Server.Payload.Parser.Spaced.{
  spaced, last, before, equal_sign, greater_equal_sign, parse_filter-spaced,
}
use skeg.Server.Payload.Fields.{parse_fields}
use skeg.Server.Payload.Fields.Written.{
  Pair, write_fields, typed_fields, IsPair, parse_fields-write_fields,
}

abbrev user : Text
user = 117 ∷ []

abbrev age : Text
age = 103 ∷ []

abbrev years : ℕ → Value
years n = int (ℤ.pos n)

-- Two ids with an age; the second is put again with another one, and a third is deleted.
abbrev calls : List Call
calls =
    delete 3
    ∷ put 2 ((age, years 40) ∷ [])
    ∷ put 3 ((age, years 60) ∷ [])
    ∷ put 2 ((age, years 10) ∷ [])
    ∷ put 1 ((user, keyword user) ∷ (age, years 20) ∷ [])
    ∷ []

-- `g >= 30 AND NOT u = u`
abbrev old_strangers : Filter
old_strangers = Filter.all_of (
    Filters.more (Filter.range age (included (years 30)) unbounded)
      (Filters.more (Filter.negation (Filter.equals user (keyword user))) Filters.no_filters))

evaluate-run_example :
    (out : List ℕ) × (evaluate old_strangers (run calls) ≡ some out)
    × IsSorted out
    × ((i : ℕ)
        → contains i out
          ≡ (not (is_empty (contents calls i)) && matches old_strangers (contents calls i)))
unfolding IsOrdered range_panics
evaluate-run_example = evaluate-run calls old_strangers (refl, (tt, tt))

-- `g BETWEEN 50 AND 5`
evaluate-range_panics_example :
    evaluate (Filter.range age (included (years 50)) (included (years 5))) (run calls) ≡ none
unfolding range_panics value_compare contents
evaluate-range_panics_example =
    evaluate-range_panics calls age (included (years 50)) (included (years 5)) 2 refl refl

abbrev seven : Text
seven = 55 ∷ []

-- `NOT u = 7 AND g >= 7`
abbrev query : Query
query = both (opposite (compared user is seven)) (compared age at_least seven) no_queries

query-HasWords : HasWords query
unfolding HasWords is_reserved is_keyword to_ascii_lowercase
query-HasWords = ((refl, refl), (refl, refl), tt)

parse_filter-spaced_example :
    parse_filter (spaced (write query or_level [])) ≡ ok (meaning query) []
unfolding write arm is_whitespace
parse_filter-spaced_example = parse_filter-spaced query query-HasWords (
  inr (before 78 _ refl (before 79 _ refl (last 84 refl))),
  (
    inr (last 117 refl),
    (
      inl equal_sign,
      (
        inr (last 55 refl),
        (
          inr (before 65 _ refl (before 78 _ refl (last 68 refl))),
          (inr (last 103 refl), (inl greater_equal_sign, (inr (last 55 refl), tt))),
        ),
      ),
    ),
  ),
)

-- `u=7 g=u`
abbrev pairs : List Pair
pairs = (117, [], seven) ∷ (103, [], user) ∷ []

pairs-chars : IsPair (117, [], seven) × IsPair (103, [], user)
unfolding is_whitespace
pairs-chars = (
  (
    (record { value_char = record { ascii = omega arith; no_space = refl }; no_equal = refl }, tt),
    (record { ascii = omega arith; no_space = refl }, tt),
  ),
  (
    (record { value_char = record { ascii = omega arith; no_space = refl }; no_equal = refl }, tt),
    (record { ascii = omega arith; no_space = refl }, tt),
  ),
)

parse_fields-write_fields_example : parse_fields (write_fields pairs) ≡ typed_fields pairs
parse_fields-write_fields_example =
    parse_fields-write_fields pairs (pairs-chars.0, (pairs-chars.1, tt))

-- Values that look like numbers, and some that do not.
minus_forty : parse_value (45 ∷ 52 ∷ 48 ∷ []) ≡ int (ℤ.negsuc 39)
unfolding parse_value parse_i64 digits
minus_forty = refl

only_sign : parse_value (45 ∷ []) ≡ keyword (45 ∷ [])
unfolding parse_value parse_i64
only_sign = refl

-- `u>=7,(`
tight :
    tokenize (117 ∷ 62 ∷ 61 ∷ 55 ∷ 44 ∷ 40 ∷ [])
    ≡ user ∷ (62 ∷ 61 ∷ []) ∷ seven ∷ (44 ∷ []) ∷ (40 ∷ []) ∷ []
unfolding tokenize tokenize_from arm is_whitespace
tight = refl
