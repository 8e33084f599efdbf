-- ===== src/Server/Payload/Parser/RoundTrip.antt =====
-- crates/skeg-server/src/payload.rs: the parser reads back what a query is written as.
use skeg.Prelude.{
  zero, suc, ◌+◌, ◌*◌, ◌≤◌, ◌≡◌, refl, ap, subst, arith, List, [], ◌∷◌, length, Text,
}
use skeg.Server.Payload.Tokens.{
  open_paren, close_paren, kw_and, kw_in, kw_between, kw_exists, is_keyword, to_ascii_lowercase,
}
use skeg.Server.Payload.Filter.{Filter}
use skeg.Server.Payload.Predicate.{ok, ◌>>=◌, next_is_keyword}
use skeg.Server.Payload.Parser.{parse_or, parse_and, parse_not, finish, parse_tokens}
use skeg.Server.Payload.Parser.Query.{
  Query, Queries, or_level, and_level, not_level, spelling, meaning, meanings, write_values, write,
  write_all, write_any, HasWords, AllHaveWords, length-write,
}
use skeg.Server.Payload.Parser.Reads.{compared-reads, between-reads, among-reads, present-reads}
use skeg.Server.Payload.Parser.Levels.{
  NotReads, AndReads, OrReads, AndLoopReads, OrLoopReads, predicate-reads, enclosed-reads,
  and_from_not, or_from_and, and_loop-stops, or_loop-stops, and_loop-more, or_loop-more, all-reads,
  any-reads, write_any-stops,
}

-- From one level to the next, where the query is written alike.
AndReads-lift :
    (q : Query)
    → ((rest : List Text) → write q not_level rest ≡ write q and_level rest)
    → NotReads q
    → AndReads q
AndReads-lift q same h zero rest stop le = absurd (omega arith)
AndReads-lift q same h (suc fuel) rest stop le =
    let as_not : length (write q not_level rest) ≡ length (write q and_level rest) =
      ap length (same rest) in
    and_from_not fuel (write q and_level rest) rest (meaning q) stop
      (subst (λ toks. parse_not fuel toks ≡ ok (meaning q) rest) (same rest)
        (h fuel rest (omega arith)))
      (omega arith)

OrReads-lift :
    (q : Query)
    → ((rest : List Text) → write q and_level rest ≡ write q or_level rest)
    → AndReads q
    → OrReads q
OrReads-lift q same h zero rest stop stop' le = absurd (omega arith)
OrReads-lift q same h (suc fuel) rest stop stop' le =
    let as_and : length (write q and_level rest) ≡ length (write q or_level rest) =
      ap length (same rest) in
    or_from_and fuel (write q or_level rest) rest (meaning q) stop'
      (subst (λ toks. parse_and fuel toks ≡ ok (meaning q) rest) (same rest)
        (h fuel rest stop (omega arith)))
      (omega arith)

-- In parentheses.
NotReads-lift :
    (q : Query)
    → ((rest : List Text)
        → open_paren ∷ write q or_level (close_paren ∷ rest) ≡ write q not_level rest)
    → OrReads q
    → NotReads q
unfolding next_is_keyword is_keyword to_ascii_lowercase
NotReads-lift q same h zero rest le = absurd (omega arith)
NotReads-lift q same h (suc zero) rest le =
    absurd (omega (arith, ap length (same rest), length-write q or_level (close_paren ∷ rest)))
NotReads-lift q same h (suc (suc fuel)) rest le =
    let inner = write q or_level (close_paren ∷ rest) in
    let enough : 4 * length inner + 4 ≤ fuel = omega (arith, ap length (same rest)) in
    subst (λ toks. parse_not (suc (suc fuel)) toks ≡ ok (meaning q) rest) (same rest)
      (enclosed-reads fuel inner rest (meaning q) (h fuel (close_paren ∷ rest) refl refl enough))

abbrev Reads : Query → Type 0
Reads q = NotReads q × AndReads q × OrReads q

abbrev LoopsRead : Queries → Type 0
LoopsRead qs = AndLoopReads qs × OrLoopReads qs

-- A query that no level encloses.
from_not :
    (q : Query)
    → ((rest : List Text) → write q not_level rest ≡ write q and_level rest)
    → ((rest : List Text) → write q and_level rest ≡ write q or_level rest)
    → NotReads q
    → Reads q
from_not q same same' h =
    let reads_and = AndReads-lift q same h in (h, reads_and, OrReads-lift q same' reads_and)

opposite-reads : (q : Query) → NotReads q → NotReads (Query.opposite q)
unfolding write meaning parse_not next_is_keyword is_keyword to_ascii_lowercase
opposite-reads q h zero rest le = absurd (omega arith)
opposite-reads q h (suc fuel) rest le =
    ap (λ o. o >>= λ f r. ok (Filter.negation f) r) (h fuel rest (omega arith))

and_loop-reads :
    (q : Query) (qs : Queries) → NotReads q → AndLoopReads qs → AndLoopReads (Queries.more q qs)
unfolding write meaning
and_loop-reads q qs h hs zero rest stop le = absurd (omega arith)
and_loop-reads q qs h hs (suc fuel) rest stop le =
    let toks = write_all qs rest in
    let shorter = length-write q not_level toks in
    and_loop-more fuel (write q not_level toks) toks rest (meaning q) (meanings qs)
      (h fuel toks (omega arith)) (hs fuel rest stop (omega arith))

or_loop-reads :
    (q : Query) (qs : Queries) → AndReads q → OrLoopReads qs → OrLoopReads (Queries.more q qs)
unfolding write meaning
or_loop-reads q qs h hs zero rest stop stop' le = absurd (omega arith)
or_loop-reads q qs h hs (suc fuel) rest stop stop' le =
    let toks = write_any qs rest in
    let shorter = length-write q and_level toks in
    or_loop-more fuel (write q and_level toks) toks rest (meaning q) (meanings qs)
      (h fuel toks (write_any-stops qs rest stop) (omega arith))
      (hs fuel rest stop stop' (omega arith))

both-Reads :
    (p q : Query) (qs : Queries) → Reads p → Reads q → LoopsRead qs → Reads (Query.both p q qs)
unfolding write
both-Reads p q qs hp hq hqs =
    let reads_and : AndReads (Query.both p q qs) =
      λ fuel rest stop le. all-reads p q qs fuel rest hp.0 hq.0 hqs.0 stop le in
    let reads_or = OrReads-lift (Query.both p q qs) (λ rest. refl) reads_and in
    (NotReads-lift (Query.both p q qs) (λ rest. refl) reads_or, reads_and, reads_or)

either-Reads :
    (p q : Query) (qs : Queries) → Reads p → Reads q → LoopsRead qs → Reads (Query.either p q qs)
unfolding write
either-Reads p q qs hp hq hqs =
    let reads_or : OrReads (Query.either p q qs) =
      λ fuel rest stop stop' le. any-reads p q qs fuel rest hp.1 hq.1 hqs.1 stop stop' le in
    let reads_not = NotReads-lift (Query.either p q qs) (λ rest. refl) reads_or in
    (reads_not, AndReads-lift (Query.either p q qs) (λ rest. refl) reads_not, reads_or)

mutual
  unfolding HasWords write meaning

  query-Reads : (q : Query) → HasWords q → Reads q
  query-Reads (Query.compared f c t) (wf, wt) =
      from_not (Query.compared f c t) (λ rest. refl) (λ rest. refl)
        (λ fuel rest le.
          predicate-reads fuel f (spelling c ∷ t ∷ rest) rest (meaning (Query.compared f c t)) wf
            (compared-reads f c t rest wf wt) (omega arith))
  query-Reads (Query.between f a b) (wf, wa, wb) =
      from_not (Query.between f a b) (λ rest. refl) (λ rest. refl)
        (λ fuel rest le.
          predicate-reads fuel f (kw_between ∷ a ∷ kw_and ∷ b ∷ rest) rest
            (meaning (Query.between f a b)) wf (between-reads f a b rest wf wa wb) (omega arith))
  query-Reads (Query.among f t ts) (wf, words) =
      from_not (Query.among f t ts) (λ rest. refl) (λ rest. refl)
        (λ fuel rest le.
          predicate-reads fuel f (kw_in ∷ open_paren ∷ t ∷ write_values ts (close_paren ∷ rest))
            rest (meaning (Query.among f t ts)) wf (among-reads f t ts rest wf words.0 words.1)
            (omega arith))
  query-Reads (Query.present f) wf =
      from_not (Query.present f) (λ rest. refl) (λ rest. refl)
        (λ fuel rest le.
          predicate-reads fuel f (kw_exists ∷ rest) rest (meaning (Query.present f)) wf
            (present-reads f rest wf) (omega arith))
  query-Reads (Query.both p q qs) (wp, wq, ws) =
      both-Reads p q qs (query-Reads p wp) (query-Reads q wq) (loops-read qs ws)
  query-Reads (Query.either p q qs) (wp, wq, ws) =
      either-Reads p q qs (query-Reads p wp) (query-Reads q wq) (loops-read qs ws)
  query-Reads (Query.opposite q) w =
      from_not (Query.opposite q) (λ rest. refl) (λ rest. refl)
        (opposite-reads q (query-Reads q w).0)

  loops-read : (qs : Queries) → AllHaveWords qs → LoopsRead qs
  loops-read Queries.no_queries w = (
    λ fuel rest stop le. and_loop-stops fuel rest stop (omega arith),
    λ fuel rest stop stop' le. or_loop-stops fuel rest stop' (omega arith),
  )
  loops-read (Queries.more q qs) (wq, w) =
      let (reads_not, reads_and, reads_or) = query-Reads q wq in
      let (and_loops, or_loops) = loops-read qs w in
      (and_loop-reads q qs reads_not and_loops, or_loop-reads q qs reads_and or_loops)

parse_tokens-nonempty :
    (toks : List Text) (f : Filter)
    → 1 ≤ length toks
    → parse_or (4 * length toks + 4) toks ≡ ok f []
    → parse_tokens toks ≡ ok f []
unfolding parse_tokens
parse_tokens-nonempty [] f le e = absurd (omega arith)
parse_tokens-nonempty (t ∷ toks) f le e = ap finish e

-- A query whose fields and values are words is read back as what it means, from the tokens it is written
-- as with no more parentheses than `OR`, `AND` and `NOT`, in this order of precedence, need.
pub parse_tokens-write :
    (q : Query) → HasWords q → parse_tokens (write q or_level []) ≡ ok (meaning q) []
unfolding next_is_keyword
parse_tokens-write q w =
    let toks = write q or_level [] in
    parse_tokens-nonempty toks (meaning q) (omega (arith, length-write q or_level []))
      ((query-Reads q w).2 (4 * length toks + 4) [] refl refl (omega arith))
