-- ===== src/Server/Payload/Parser/Levels.antt =====
-- crates/skeg-server/src/payload.rs: how the levels of the parser read queries, given that they read the
-- parts.
use skeg.Prelude.{
  ℕ, zero, suc, ◌+◌, ◌*◌, ◌≤◌, ◌≡◌, ◌∙◌, refl, ap, arith, List, ◌∷◌, length, false, Text,
}
use skeg.Server.Payload.Tokens.{
  open_paren, close_paren, kw_and, kw_or, kw_not, is_keyword, to_ascii_lowercase,
}
use skeg.Server.Payload.Filter.{Filter, Filters}
use skeg.Server.Payload.Predicate.{Result, ok, ◌>>=◌, next_is_keyword, next_is, parse_predicate}
use skeg.Server.Payload.Parser.{
  one_or_any, one_or_all, close, parse_or, or_loop, parse_and, and_loop, parse_not, parse_atom,
}
use skeg.Server.Payload.Parser.Query.{
  Query, Queries, or_level, and_level, not_level, meaning, meanings, write, write_all, write_any,
  IsWord, length-write,
}
use skeg.Server.Payload.Parser.Reads.{word-not_keyword}

-- What the parser of a level does with a query written at that level, in front of any tokens that do not
-- go on with it.
abbrev pub NotReads : Query → Type 0
NotReads q =
    (fuel : ℕ) (rest : List Text)
    → 4 * length (write q not_level rest) + 2 ≤ fuel
    → parse_not fuel (write q not_level rest) ≡ ok (meaning q) rest

abbrev pub AndReads : Query → Type 0
AndReads q =
    (fuel : ℕ) (rest : List Text)
    → next_is_keyword kw_and rest ≡ false
    → 4 * length (write q and_level rest) + 3 ≤ fuel
    → parse_and fuel (write q and_level rest) ≡ ok (meaning q) rest

abbrev pub OrReads : Query → Type 0
OrReads q =
    (fuel : ℕ) (rest : List Text)
    → next_is_keyword kw_and rest ≡ false
    → next_is_keyword kw_or rest ≡ false
    → 4 * length (write q or_level rest) + 4 ≤ fuel
    → parse_or fuel (write q or_level rest) ≡ ok (meaning q) rest

abbrev pub AndLoopReads : Queries → Type 0
AndLoopReads qs =
    (fuel : ℕ) (rest : List Text)
    → next_is_keyword kw_and rest ≡ false
    → 4 * length (write_all qs rest) + 1 ≤ fuel
    → and_loop fuel (write_all qs rest) ≡ ok (meanings qs) rest

abbrev pub OrLoopReads : Queries → Type 0
OrLoopReads qs =
    (fuel : ℕ) (rest : List Text)
    → next_is_keyword kw_and rest ≡ false
    → next_is_keyword kw_or rest ≡ false
    → 4 * length (write_any qs rest) + 1 ≤ fuel
    → or_loop fuel (write_any qs rest) ≡ ok (meanings qs) rest

-- A predicate begins with a word.
parse_not-atom :
    (fuel : ℕ) (toks : List Text)
    → next_is_keyword kw_not toks ≡ false
    → parse_not (suc fuel) toks ≡ parse_atom fuel toks
unfolding parse_not
parse_not-atom fuel toks h = rw (h, parse_not) refl

parse_atom-predicate :
    (fuel : ℕ) (toks : List Text)
    → next_is open_paren toks ≡ false
    → parse_atom (suc fuel) toks ≡ parse_predicate toks
unfolding parse_atom
parse_atom-predicate fuel toks h = rw (h, parse_atom) refl

pub predicate-reads :
    (fuel : ℕ) (t : Text) (toks rest : List Text) (f : Filter)
    → IsWord t
    → parse_predicate (t ∷ toks) ≡ ok f rest
    → 2 ≤ fuel
    → parse_not fuel (t ∷ toks) ≡ ok f rest
unfolding next_is_keyword next_is
predicate-reads zero t toks rest f w e le = absurd (omega arith)
predicate-reads (suc zero) t toks rest f w e le = absurd (omega arith)
predicate-reads (suc (suc fuel)) t toks rest f w e le =
    let (not_kw, not_open) = word-not_keyword t w in
    parse_not-atom (suc fuel) (t ∷ toks) not_kw ∙ parse_atom-predicate fuel (t ∷ toks) not_open ∙ e

pub enclosed-reads :
    (fuel : ℕ) (inner rest : List Text) (f : Filter)
    → parse_or fuel inner ≡ ok f (close_paren ∷ rest)
    → parse_not (suc (suc fuel)) (open_paren ∷ inner) ≡ ok f rest
unfolding parse_not next_is_keyword next_is close is_keyword to_ascii_lowercase
enclosed-reads fuel inner rest f e = rw (e, parse_or) refl

-- Two parses, one behind the other.
then-reads :
    {A B C : Type 0} (o : Result A) (k : List Text → Result B) (join : A → B → C) (a : A) (b : B)
    (rest rest' : List Text)
    → o ≡ ok a rest
    → k rest ≡ ok b rest'
    → (o >>= λ x r. k r >>= λ y r'. ok (join x y) r') ≡ ok (join a b) rest'
then-reads o k join a b rest rest' eo ek =
    ap (λ p. p >>= λ x r. k r >>= λ y r'. ok (join x y) r') eo
    ∙ ap (λ p. p >>= λ y r'. ok (join a y) r') ek

pub and_loop-stops :
    (fuel : ℕ) (rest : List Text)
    → next_is_keyword kw_and rest ≡ false
    → 1 ≤ fuel
    → and_loop fuel rest ≡ ok Filters.no_filters rest
unfolding parse_and
and_loop-stops zero rest stop le = absurd (omega arith)
and_loop-stops (suc fuel) rest stop le = rw (stop, and_loop) refl

pub or_loop-stops :
    (fuel : ℕ) (rest : List Text)
    → next_is_keyword kw_or rest ≡ false
    → 1 ≤ fuel
    → or_loop fuel rest ≡ ok Filters.no_filters rest
unfolding parse_or
or_loop-stops zero rest stop le = absurd (omega arith)
or_loop-stops (suc fuel) rest stop le = rw (stop, or_loop) refl

-- A query that is no `AND` is read by the level below, and one that is no `OR` too.
pub and_from_not :
    (fuel : ℕ) (toks rest : List Text) (f : Filter)
    → next_is_keyword kw_and rest ≡ false
    → parse_not fuel toks ≡ ok f rest
    → 1 ≤ fuel
    → parse_and (suc fuel) toks ≡ ok f rest
unfolding parse_and
and_from_not fuel toks rest f stop e le =
    then-reads (parse_not fuel toks) (and_loop fuel) one_or_all f Filters.no_filters rest rest e
      (and_loop-stops fuel rest stop le)

pub or_from_and :
    (fuel : ℕ) (toks rest : List Text) (f : Filter)
    → next_is_keyword kw_or rest ≡ false
    → parse_and fuel toks ≡ ok f rest
    → 1 ≤ fuel
    → parse_or (suc fuel) toks ≡ ok f rest
unfolding parse_or
or_from_and fuel toks rest f stop e le =
    then-reads (parse_and fuel toks) (or_loop fuel) one_or_any f Filters.no_filters rest rest e
      (or_loop-stops fuel rest stop le)

-- A round of a loop.
pub and_loop-more :
    (fuel : ℕ) (toks rest rest' : List Text) (f : Filter) (fs : Filters)
    → parse_not fuel toks ≡ ok f rest
    → and_loop fuel rest ≡ ok fs rest'
    → and_loop (suc fuel) (kw_and ∷ toks) ≡ ok (Filters.more f fs) rest'
unfolding parse_and next_is_keyword is_keyword to_ascii_lowercase
and_loop-more fuel toks rest rest' f fs e el =
    then-reads (parse_not fuel toks) (and_loop fuel) Filters.more f fs rest rest' e el

pub or_loop-more :
    (fuel : ℕ) (toks rest rest' : List Text) (f : Filter) (fs : Filters)
    → parse_and fuel toks ≡ ok f rest
    → or_loop fuel rest ≡ ok fs rest'
    → or_loop (suc fuel) (kw_or ∷ toks) ≡ ok (Filters.more f fs) rest'
unfolding parse_or next_is_keyword is_keyword to_ascii_lowercase
or_loop-more fuel toks rest rest' f fs e el =
    then-reads (parse_and fuel toks) (or_loop fuel) Filters.more f fs rest rest' e el

-- An `AND` and an `OR` of two parts or more.
and-reads :
    (fuel : ℕ) (toks second third rest : List Text) (f g : Filter) (gs : Filters)
    → parse_not (suc fuel) toks ≡ ok f (kw_and ∷ second)
    → parse_not fuel second ≡ ok g third
    → and_loop fuel third ≡ ok gs rest
    → parse_and (suc (suc fuel)) toks ≡ ok (Filter.all_of (Filters.more f (Filters.more g gs))) rest
unfolding parse_and
and-reads fuel toks second third rest f g gs ef eg egs =
    then-reads (parse_not (suc fuel) toks) (and_loop (suc fuel)) one_or_all f (Filters.more g gs)
      (kw_and ∷ second) rest ef (and_loop-more fuel second third rest g gs eg egs)

or-reads :
    (fuel : ℕ) (toks second third rest : List Text) (f g : Filter) (gs : Filters)
    → parse_and (suc fuel) toks ≡ ok f (kw_or ∷ second)
    → parse_and fuel second ≡ ok g third
    → or_loop fuel third ≡ ok gs rest
    → parse_or (suc (suc fuel)) toks ≡ ok (Filter.any_of (Filters.more f (Filters.more g gs))) rest
unfolding parse_or
or-reads fuel toks second third rest f g gs ef eg egs =
    then-reads (parse_and (suc fuel) toks) (or_loop (suc fuel)) one_or_any f (Filters.more g gs)
      (kw_or ∷ second) rest ef (or_loop-more fuel second third rest g gs eg egs)

pub all-reads :
    (p q : Query) (qs : Queries) (fuel : ℕ) (rest : List Text)
    → NotReads p
    → NotReads q
    → AndLoopReads qs
    → next_is_keyword kw_and rest ≡ false
    → 4 * length (write p not_level (kw_and ∷ write q not_level (write_all qs rest))) + 3 ≤ fuel
    → parse_and fuel (write p not_level (kw_and ∷ write q not_level (write_all qs rest)))
      ≡ ok (meaning (Query.both p q qs)) rest
unfolding meaning
all-reads p q qs zero rest hp hq hqs stop le = absurd (omega arith)
all-reads p q qs (suc zero) rest hp hq hqs stop le = absurd (omega arith)
all-reads p q qs (suc (suc fuel)) rest hp hq hqs stop le =
    let second = write q not_level (write_all qs rest) in
    let less_p = length-write p not_level (kw_and ∷ second) in
    let less_q = length-write q not_level (write_all qs rest) in
    and-reads fuel (write p not_level (kw_and ∷ second)) second (write_all qs rest) rest (meaning p)
      (meaning q) (meanings qs) (hp (suc fuel) (kw_and ∷ second) (omega arith))
      (hq fuel (write_all qs rest) (omega arith)) (hqs fuel rest stop (omega arith))

pub write_any-stops :
    (qs : Queries) (rest : List Text)
    → next_is_keyword kw_and rest ≡ false
    → next_is_keyword kw_and (write_any qs rest) ≡ false
unfolding write next_is_keyword is_keyword to_ascii_lowercase
write_any-stops Queries.no_queries rest stop = stop
write_any-stops (Queries.more q qs) rest stop = refl

pub any-reads :
    (p q : Query) (qs : Queries) (fuel : ℕ) (rest : List Text)
    → AndReads p
    → AndReads q
    → OrLoopReads qs
    → next_is_keyword kw_and rest ≡ false
    → next_is_keyword kw_or rest ≡ false
    → 4 * length (write p and_level (kw_or ∷ write q and_level (write_any qs rest))) + 4 ≤ fuel
    → parse_or fuel (write p and_level (kw_or ∷ write q and_level (write_any qs rest)))
      ≡ ok (meaning (Query.either p q qs)) rest
unfolding meaning next_is_keyword is_keyword to_ascii_lowercase
any-reads p q qs zero rest hp hq hqs stop stop' le = absurd (omega arith)
any-reads p q qs (suc zero) rest hp hq hqs stop stop' le = absurd (omega arith)
any-reads p q qs (suc (suc fuel)) rest hp hq hqs stop stop' le =
    let second = write q and_level (write_any qs rest) in
    let less_p = length-write p and_level (kw_or ∷ second) in
    let less_q = length-write q and_level (write_any qs rest) in
    or-reads fuel (write p and_level (kw_or ∷ second)) second (write_any qs rest) rest (meaning p)
      (meaning q) (meanings qs) (hp (suc fuel) (kw_or ∷ second) refl (omega arith))
      (hq fuel (write_any qs rest) (write_any-stops qs rest stop) (omega arith))
      (hqs fuel rest stop stop' (omega arith))
