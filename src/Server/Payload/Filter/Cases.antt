-- ===== src/Server/Payload/Filter/Cases.antt =====
-- crates/skeg-server/src/payload.rs: the evaluation of each kind of filter, given its parts' answers.
use skeg.Prelude.{
  ℕ, ◌≡◌, ◌∙◌, refl, arith, List, [], ◌∷◌, All, Option, some, Bool, true, false, not, ◌&&◌, ◌||◌,
  inl, inr, Bool-cases, Text,
}
use skeg.Server.Payload.Ids.{
  contains, retain_missing, contains-retain_missing, sort_dedup, contains-sort_dedup, IsSorted,
}
use skeg.Server.Payload.Ids.Sorted.{sort_dedup-IsSorted, retain_missing-IsSorted}
use skeg.Server.Payload.Value.{Value, Bound, within, range_panics}
use skeg.Server.Payload.Index.{
  Field, Postings, PayloadIndex, is_empty, values_of, gather, range_of, range_ids, all_ids,
  fields_of,
}
use skeg.Server.Payload.Index.Posted.{has}
use skeg.Server.Payload.Index.Consistent.{IsConsistent, contains-all_ids}
use skeg.Server.Payload.Filter.{
  Filter, Filters, is_negation, sort_by_len, start, evaluate, evaluate_positives, subtract_negated,
}
use skeg.Server.Payload.Filter.Matches.{has_where, has_one_of, matches, all_match}
use skeg.Server.Payload.Filter.Gather.{contains-gather}
use skeg.Server.Payload.Filter.Sets.{all_contain, running-IsSorted, contains-running}

-- An evaluation that does not panic, and gives the wanted ids in their order.
abbrev pub Answered : Option (List ℕ) → (ℕ → Bool) → Type 0
Answered o want =
    (out : List ℕ) × (o ≡ some out) × IsSorted out × ((i : ℕ) → contains i out ≡ want i)

-- What the answer to a filter is: the ids with fields that it matches.
abbrev pub wanted : PayloadIndex → Filter → ℕ → Bool
wanted idx f i = not (is_empty (fields_of i idx)) && matches f (fields_of i idx)

pub has_known :
    (f : Text) (v : Value) (fields : List Field)
    → has f v fields ≡ (not (is_empty fields) && has f v fields)
has_known f v [] = refl
has_known f v (x ∷ fields) = refl

pub has_where_known :
    (f : Text) (p : Value → Bool) (fields : List Field)
    → has_where f p fields ≡ (not (is_empty fields) && has_where f p fields)
has_where_known f p [] = refl
has_where_known f p (x ∷ fields) = refl

pub has_one_of_known :
    (f : Text) (vs : List Value) (fields : List Field)
    → has_one_of f vs fields ≡ (not (is_empty fields) && has_one_of f vs fields)
has_one_of_known f [] fields = ground arith
has_one_of_known f (v ∷ vs) [] = has_one_of_known f vs []
has_one_of_known f (v ∷ vs) (x ∷ fields) = refl

range_of-Answered :
    (lo hi : Bound) (m : Postings)
    → range_panics lo hi ≡ false
    → Answered (range_of lo hi m) (λ i. contains i (gather (within lo hi) m))
unfolding range_of gather
range_of-Answered lo hi [] h = ([], refl, tt, λ i. refl)
range_of-Answered lo hi (x ∷ m) h =
    let found = gather (within lo hi) (x ∷ m) in
    (sort_dedup found, ground arith, sort_dedup-IsSorted found, λ i. contains-sort_dedup i found)

pub range-Answered :
    (idx : PayloadIndex) (f : Text) (lo hi : Bound)
    → IsConsistent idx
    → range_panics lo hi ≡ false
    → Answered (evaluate (Filter.range f lo hi) idx) (wanted idx (Filter.range f lo hi))
unfolding evaluate range_ids matches
range-Answered idx f lo hi c h =
    let (out, e, s, m) = range_of-Answered lo hi (values_of f idx.by_field) h in
    (
      out,
      e,
      s,
      λ i.
          m i
          ∙ contains-gather f (within lo hi) i idx c
          ∙ has_where_known f (within lo hi) (fields_of i idx),
    )

pub sorted-Answered :
    (idx : PayloadIndex) (ids : List ℕ) (want : ℕ → Bool)
    → ((i : ℕ) → contains i ids ≡ want i)
    → Answered (some (sort_dedup ids)) want
sorted-Answered idx ids want m =
    (sort_dedup ids, refl, sort_dedup-IsSorted ids, λ i. contains-sort_dedup i ids ∙ m i)

pub negation-Answered :
    (idx : PayloadIndex) (f : Filter)
    → IsConsistent idx
    → Answered (evaluate f idx) (wanted idx f)
    → Answered (evaluate (Filter.negation f) idx) (wanted idx (Filter.negation f))
unfolding evaluate matches
negation-Answered idx f c (out, e, s, m) = (
  retain_missing out (all_ids idx),
  rw (e, evaluate),
  retain_missing-IsSorted out (all_ids idx) (c.ids),
  λ i. ground (arith, contains-retain_missing i out (all_ids idx), contains-all_ids idx i c, m i),
)

-- What an `And` takes from its parts: the positive ones, and the negated ones.
abbrev pub positives_match : Filters → List Field → Bool
positives_match Filters.no_filters fields = true
positives_match (Filters.more p ps) fields =
    (is_negation p || matches p fields) && positives_match ps fields

abbrev pub negatives_match : Filters → List Field → Bool
negatives_match Filters.no_filters fields = true
negatives_match (Filters.more p ps) fields =
    (not (is_negation p) || matches p fields) && negatives_match ps fields

pub all_match-split :
    (ps : Filters) (fields : List Field)
    → all_match ps fields ≡ (positives_match ps fields && negatives_match ps fields)
unfolding matches
all_match-split Filters.no_filters fields = refl
all_match-split (Filters.more p ps) fields = ground (arith, all_match-split ps fields)

-- Steps on tests alone.
pub and_left : (a b c : Bool) → a ≡ (b && c) → a ≡ true → b ≡ true
and_left a b c e h = ground arith

skip_chain : (u a q n w : Bool) → n ≡ true → (u && a) ≡ (u && q) → (u && a) ≡ (u && ((n || w) && q))
skip_chain u a q n w en e = ground arith

keep_chain :
    (u a q n w o k : Bool)
    → u ≡ k
    → o ≡ (k && w)
    → n ≡ false
    → (u && a) ≡ (u && q)
    → (u && (o && a)) ≡ (u && ((n || w) && q))
keep_chain u a q n w o k ek eo en e = ground arith

and_chain :
    (o acc u a p n k w : Bool)
    → o ≡ (acc && n)
    → acc ≡ (u && a)
    → (u && a) ≡ (u && p)
    → w ≡ (p && n)
    → u ≡ k
    → o ≡ (k && w)
and_chain o acc u a p n k w eo ea em ew ek = ground arith

-- The sets of the positive parts.
abbrev pub Collected : Option (List (List ℕ)) → PayloadIndex → Filters → Type 0
Collected o idx ps =
    (sets : List (List ℕ)) × (o ≡ some sets)
    × All IsSorted sets
    × ((i : ℕ) → All (λ t. contains i t ≡ true → contains i (all_ids idx) ≡ true) sets)
    × ((i : ℕ)
        → (contains i (all_ids idx) && all_contain i sets)
          ≡ (contains i (all_ids idx) && positives_match ps (fields_of i idx)))

pub positives-Collected :
    (idx : PayloadIndex) (p : Filter) (ps : Filters)
    → IsConsistent idx
    → Answered (evaluate p idx) (wanted idx p)
    → Collected (evaluate_positives ps idx) idx ps
    → Collected (evaluate_positives (Filters.more p ps) idx) idx (Filters.more p ps)
unfolding evaluate
positives-Collected idx p ps c (out, e, s, m) (sets, es, ss, within_all, ms) =
    elim (Bool-cases (is_negation p)) [
      | inl negated ↦ (
        sets,
        rw (negated, evaluate) es,
        ss,
        within_all,
        λ i.
            skip_chain (contains i (all_ids idx)) (all_contain i sets)
              (positives_match ps (fields_of i idx)) (is_negation p) (matches p (fields_of i idx))
              negated (ms i),
      )
      | inr other ↦ (
        out ∷ sets,
        rw (other, e, es, evaluate),
        (s, ss),
        λ i. (
          λ h.
              contains-all_ids idx i c
              ∙ and_left (contains i out) (not (is_empty (fields_of i idx)))
                  (matches p (fields_of i idx)) (m i) h,
          within_all i,
        ),
        λ i. ground (arith, ms i, m i, contains-all_ids idx i c),
      )
    ]

pub all_of-Answered :
    (idx : PayloadIndex) (ps : Filters)
    → IsConsistent idx
    → Collected (evaluate_positives ps idx) idx ps
    → ((acc : List ℕ)
        → IsSorted acc
        → ((i : ℕ) → contains i acc ≡ true → contains i (all_ids idx) ≡ true)
        → Answered
            (subtract_negated ps idx acc)
            (λ i. contains i acc && negatives_match ps (fields_of i idx)))
    → Answered (evaluate (Filter.all_of ps) idx) (wanted idx (Filter.all_of ps))
unfolding evaluate matches
all_of-Answered idx ps c (sets, e, s, w, m) subtract =
    let acc = start idx (sort_by_len sets) in
    let from : (i : ℕ) → contains i acc ≡ (contains i (all_ids idx) && all_contain i sets) =
      λ i. contains-running i idx sets s (w i) in
    let (out, eo, so, mo) = subtract acc (running-IsSorted idx sets c.ids s) (λ i h.
      and_left (contains i acc) (contains i (all_ids idx)) (all_contain i sets) (from i) h) in
    (
      out,
      rw (e, evaluate) eo,
      so,
      λ i.
          and_chain (contains i out) (contains i acc) (contains i (all_ids idx))
            (all_contain i sets) (positives_match ps (fields_of i idx))
            (negatives_match ps (fields_of i idx)) (not (is_empty (fields_of i idx)))
            (all_match ps (fields_of i idx)) (mo i) (from i) (m i)
            (all_match-split ps (fields_of i idx)) (contains-all_ids idx i c),
    )
