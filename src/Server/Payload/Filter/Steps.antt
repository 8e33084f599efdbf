-- ===== src/Server/Payload/Filter/Steps.antt =====
-- crates/skeg-server/src/payload.rs: one more part of an `And` or an `Or`, given the answers so far.
use skeg.Prelude.{
  ℕ, ◌≡◌, ◌∙◌, sym, refl, arith, List, ◌++◌, Option, some, Bool, true, false, not, ◌&&◌, ◌||◌, inl,
  inr, Bool-cases,
}
use skeg.Server.Payload.Ids.{
  contains, contains-append, retain_missing, contains-retain_missing, IsSorted,
}
use skeg.Server.Payload.Ids.Sorted.{retain_missing-IsSorted}
use skeg.Server.Payload.Index.{PayloadIndex, is_empty, all_ids, fields_of}
use skeg.Server.Payload.Index.Consistent.{IsConsistent, contains-all_ids}
use skeg.Server.Payload.Filter.{
  Filter, Filters, is_negation, evaluate, subtract_negated, evaluate_negated, evaluate_any,
}
use skeg.Server.Payload.Filter.Matches.{matches, any_match}
use skeg.Server.Payload.Filter.Sets.{is_empty-contains}
use skeg.Server.Payload.Filter.Cases.{Answered, wanted, sorted-Answered, negatives_match, and_left}

-- The answers of `Or`'s parts, before they are sorted.
abbrev pub Joined : Option (List ℕ) → PayloadIndex → Filters → Type 0
Joined o idx ps =
    (ids : List ℕ) × (o ≡ some ids)
    × ((i : ℕ)
        → contains i ids ≡ (not (is_empty (fields_of i idx)) && any_match ps (fields_of i idx)))

pub any_of-Answered :
    (idx : PayloadIndex) (ps : Filters)
    → Joined (evaluate_any ps idx) idx ps
    → Answered (evaluate (Filter.any_of ps) idx) (wanted idx (Filter.any_of ps))
unfolding evaluate matches
any_of-Answered idx ps (ids, e, m) =
    let (out, eo, s, mo) = sorted-Answered idx ids (wanted idx (Filter.any_of ps)) m in
    (out, rw (e, evaluate) eo, s, mo)

pub any-Joined :
    (idx : PayloadIndex) (p : Filter) (ps : Filters)
    → Answered (evaluate p idx) (wanted idx p)
    → Joined (evaluate_any ps idx) idx ps
    → Joined (evaluate_any (Filters.more p ps) idx) idx (Filters.more p ps)
unfolding evaluate matches
any-Joined idx p ps (a, ea, s, ma) (b, eb, mb) =
    (a ++ b, rw (ea, eb, evaluate), λ i. ground (arith, contains-append i a b, ma i, mb i))

-- What is inside a negated part answers with the ids that the part does not match.
abbrev pub Negated : Filter → PayloadIndex → Type 0
Negated p idx =
    is_negation p ≡ true
    → Answered (evaluate_negated p idx)
        (λ i. not (is_empty (fields_of i idx)) && not (matches p (fields_of i idx)))

not-not : (b : Bool) → not (not b) ≡ b
not-not true = refl
not-not false = refl

pub negation-Negated :
    (idx : PayloadIndex) (f : Filter)
    → Answered (evaluate f idx) (wanted idx f)
    → Negated (Filter.negation f) idx
unfolding evaluate matches
negation-Negated idx f (out, e, s, m) h =
    (out, e, s, λ i. ground (arith, m i, not-not (matches f (fields_of i idx))))

-- Steps on tests alone.
positive_chain : (o a w n g : Bool) → g ≡ false → o ≡ (a && n) → o ≡ (a && ((not g || w) && n))
positive_chain o a w n g eg e = ground arith

gone_chain : (a w n g : Bool) → a ≡ false → a ≡ (a && ((not g || w) && n))
gone_chain a w n g e = ground arith

subtract_chain :
    (o l a b k w n g : Bool)
    → o ≡ (l && n)
    → l ≡ (a && not b)
    → b ≡ (k && not w)
    → g ≡ true
    → (a ≡ true → k ≡ true)
    → o ≡ (a && ((not g || w) && n))
subtract_chain o l a b k w n g eo el eb eg ak = ground arith

pub subtract-Answered :
    (idx : PayloadIndex) (p : Filter) (ps : Filters) (acc : List ℕ)
    → IsConsistent idx
    → IsSorted acc
    → ((i : ℕ) → contains i acc ≡ true → contains i (all_ids idx) ≡ true)
    → Negated p idx
    → ((left : List ℕ)
        → IsSorted left
        → ((i : ℕ) → contains i left ≡ true → contains i (all_ids idx) ≡ true)
        → Answered
            (subtract_negated ps idx left)
            (λ i. contains i left && negatives_match ps (fields_of i idx)))
    → Answered
        (subtract_negated (Filters.more p ps) idx acc)
        (λ i. contains i acc && negatives_match (Filters.more p ps) (fields_of i idx))
unfolding evaluate
subtract-Answered idx p ps acc c s u negated later = elim (Bool-cases (is_negation p)) [
  | inr positive ↦
      let (out, e, so, m) = later acc s u in
      (
        out,
        rw (positive, evaluate) e,
        so,
        λ i.
            positive_chain (contains i out) (contains i acc) (matches p (fields_of i idx))
              (negatives_match ps (fields_of i idx)) (is_negation p) positive (m i),
      )
  | inl negative ↦ elim (Bool-cases (is_empty acc)) [
    | inl gone ↦ (
      acc,
      rw (negative, gone, evaluate),
      s,
      λ i.
          gone_chain (contains i acc) (matches p (fields_of i idx))
            (negatives_match ps (fields_of i idx)) (is_negation p) (is_empty-contains i acc gone),
    )
    | inr some_left ↦
        let (b, eb, sb, mb) = negated negative in
        let left = retain_missing b acc in
        let (out, e, so, m) = later left (retain_missing-IsSorted b acc s) (λ i h. u i (
          and_left (contains i left) (contains i acc) (not (contains i b))
            (contains-retain_missing i b acc) h)) in
        (
          out,
          rw (negative, some_left, eb, evaluate) e,
          so,
          λ i.
              subtract_chain (contains i out) (contains i left) (contains i acc) (contains i b)
                (not (is_empty (fields_of i idx))) (matches p (fields_of i idx))
                (negatives_match ps (fields_of i idx)) (is_negation p) (m i)
                (contains-retain_missing i b acc) (mb i) negative
                (λ h. sym (contains-all_ids idx i c) ∙ u i h),
        )
  ]
]
