-- ===== src/Server/Payload/Parser/Query.antt =====
-- crates/skeg-server/src/payload.rs: queries as a client means them, how they are written with as few
-- parentheses as the precedence allows (`OR`, then `AND`, then `NOT`), and what the server makes of them.
use skeg.Prelude.{
  ◌<◌, ◌≤◌, ◌≡◌, arith, List, [], ◌∷◌, length, All, Bool, true, false, if◌then◌else◌, Text,
}
use skeg.Server.Payload.Value.{Value, Bound, parse_value}
use skeg.Server.Payload.Tokens.{
  open_paren, close_paren, comma, less, equal, greater, less_equal, greater_equal, kw_and, kw_or,
  kw_not, kw_in, kw_between, kw_exists, is_reserved,
}
use skeg.Server.Payload.Filter.{Filter, Filters}

pub data Comparison : Type 0 where
  is at_least above at_most below : Comparison

-- `AND` and `OR` have two parts or more.
mutual
  pub data Query : Type 0 where
    compared : Text → Comparison → Text → Query
    between : Text → Text → Text → Query
    among : Text → Text → List Text → Query
    present : Text → Query
    both : Query → Query → Queries → Query
    either : Query → Query → Queries → Query
    opposite : Query → Query

  pub data Queries : Type 0 where
    no_queries : Queries
    more : Query → Queries → Queries

pub data Level : Type 0 where
  or_level and_level not_level : Level

abbrev pub spelling : Comparison → Text
spelling is = equal
spelling at_least = greater_equal
spelling above = greater
spelling at_most = less_equal
spelling below = less

abbrev pub compared_filter : Text → Comparison → Value → Filter
compared_filter f is v = Filter.equals f v
compared_filter f at_least v = Filter.range f (Bound.included v) Bound.unbounded
compared_filter f above v = Filter.range f (Bound.excluded v) Bound.unbounded
compared_filter f at_most v = Filter.range f Bound.unbounded (Bound.included v)
compared_filter f below v = Filter.range f Bound.unbounded (Bound.excluded v)

abbrev pub parse_values : List Text → List Value
parse_values [] = []
parse_values (t ∷ ts) = parse_value t ∷ parse_values ts

unfoldable mutual
  pub meaning : Query → Filter
  meaning (compared f c t) = compared_filter f c (parse_value t)
  meaning (between f a b) =
      Filter.range f (Bound.included (parse_value a)) (Bound.included (parse_value b))
  meaning (among f t ts) = Filter.one_of f (parse_values (t ∷ ts))
  meaning (present f) = Filter.exists f
  meaning (both p q qs) =
      Filter.all_of (Filters.more (meaning p) (Filters.more (meaning q) (meanings qs)))
  meaning (either p q qs) =
      Filter.any_of (Filters.more (meaning p) (Filters.more (meaning q) (meanings qs)))
  meaning (opposite q) = Filter.negation (meaning q)

  pub meanings : Queries → Filters
  meanings no_queries = Filters.no_filters
  meanings (more q qs) = Filters.more (meaning q) (meanings qs)

abbrev pub write_values : List Text → List Text → List Text
write_values [] rest = rest
write_values (t ∷ ts) rest = comma ∷ t ∷ write_values ts rest

abbrev pub enclose : Bool → (List Text → List Text) → List Text → List Text
enclose true w rest = open_paren ∷ w (close_paren ∷ rest)
enclose false w rest = w rest

abbrev pub is_or : Level → Bool
is_or or_level = true
is_or _ = false

abbrev pub is_not : Level → Bool
is_not not_level = true
is_not _ = false

-- The tokens of a query at a level of precedence, in front of `rest`.
unfoldable mutual
  pub write : Query → Level → List Text → List Text
  write (compared f c t) l rest = f ∷ spelling c ∷ t ∷ rest
  write (between f a b) l rest = f ∷ kw_between ∷ a ∷ kw_and ∷ b ∷ rest
  write (among f t ts) l rest = f ∷ kw_in ∷ open_paren ∷ t ∷ write_values ts (close_paren ∷ rest)
  write (present f) l rest = f ∷ kw_exists ∷ rest
  write (both p q qs) l rest =
      enclose (is_not l) (λ r. write p not_level (kw_and ∷ write q not_level (write_all qs r))) rest
  write (either p q qs) l rest =
      enclose (if is_or l then false else true)
        (λ r. write p and_level (kw_or ∷ write q and_level (write_any qs r))) rest
  write (opposite q) l rest = kw_not ∷ write q not_level rest

  pub write_all : Queries → List Text → List Text
  write_all no_queries rest = rest
  write_all (more q qs) rest = kw_and ∷ write q not_level (write_all qs rest)

  pub write_any : Queries → List Text → List Text
  write_any no_queries rest = rest
  write_any (more q qs) rest = kw_or ∷ write q and_level (write_any qs rest)

-- A field's name or a value: no keyword, no sign.
abbrev pub IsWord : Text → Type 0
IsWord t = is_reserved t ≡ false

unfoldable mutual
  pub HasWords : Query → Type 0
  HasWords (compared f c t) = IsWord f × IsWord t
  HasWords (between f a b) = IsWord f × IsWord a × IsWord b
  HasWords (among f t ts) = IsWord f × All IsWord (t ∷ ts)
  HasWords (present f) = IsWord f
  HasWords (both p q qs) = HasWords p × HasWords q × AllHaveWords qs
  HasWords (either p q qs) = HasWords p × HasWords q × AllHaveWords qs
  HasWords (opposite q) = HasWords q

  pub AllHaveWords : Queries → Type 0
  AllHaveWords no_queries = Unit
  AllHaveWords (more q qs) = HasWords q × AllHaveWords qs

length-write_values : (ts rest : List Text) → length rest ≤ length (write_values ts rest)
length-write_values [] rest = omega arith
length-write_values (t ∷ ts) rest = omega (arith, length-write_values ts rest)

length-enclose :
    (b : Bool) (w : List Text → List Text) (rest : List Text)
    → ((r : List Text) → length r < length (w r))
    → length rest < length (enclose b w rest)
length-enclose true w rest h = omega (arith, h (close_paren ∷ rest))
length-enclose false w rest h = h rest

mutual
  unfolding write

  pub length-write :
      (q : Query) (l : Level) (rest : List Text) → length rest < length (write q l rest)
  length-write (compared f c t) l rest = omega arith
  length-write (between f a b) l rest = omega arith
  length-write (among f t ts) l rest = omega (arith, length-write_values ts (close_paren ∷ rest))
  length-write (present f) l rest = omega arith
  length-write (both p q qs) l rest = length-enclose (is_not l) _ rest (λ r. omega (
    arith,
    length-write p not_level (kw_and ∷ write q not_level (write_all qs r)),
    length-write q not_level (write_all qs r),
    length-write_all qs r,
  ))
  length-write (either p q qs) l rest =
      length-enclose (if is_or l then false else true) _ rest (λ r. omega (
        arith,
        length-write p and_level (kw_or ∷ write q and_level (write_any qs r)),
        length-write q and_level (write_any qs r),
        length-write_any qs r,
      ))
  length-write (opposite q) l rest = omega (arith, length-write q not_level rest)

  pub length-write_all :
      (qs : Queries) (rest : List Text) → length rest ≤ length (write_all qs rest)
  length-write_all no_queries rest = omega arith
  length-write_all (more q qs) rest =
      omega (arith, length-write q not_level (write_all qs rest), length-write_all qs rest)

  pub length-write_any :
      (qs : Queries) (rest : List Text) → length rest ≤ length (write_any qs rest)
  length-write_any no_queries rest = omega arith
  length-write_any (more q qs) rest =
      omega (arith, length-write q and_level (write_any qs rest), length-write_any qs rest)
