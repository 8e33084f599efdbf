-- ===== src/Server/Payload/Filter/Answers.antt =====
-- crates/skeg-server/src/payload.rs: a filter's evaluation against the index answers with the ids whose
-- fields the filter matches, and the index refines a map from ids to fields.
use skeg.Prelude.{ℕ, ◌≡◌, ◌∙◌, refl, arith, List, [], true, ◌&&◌}
use skeg.Server.Payload.Ids.{contains, IsSorted}
use skeg.Server.Payload.Index.{
  PayloadIndex, values_of, postings, gather, field_ids, all_ids, fields_of,
}
use skeg.Server.Payload.Index.Consistent.{IsConsistent}
use skeg.Server.Payload.Filter.{
  Filter, Filters, extend_postings, evaluate, evaluate_positives, subtract_negated, evaluate_any,
}
use skeg.Server.Payload.Filter.Matches.{matches, IsOrdered, AreOrdered}
use skeg.Server.Payload.Filter.Gather.{contains-gather, contains-extend_postings}
use skeg.Server.Payload.Filter.Cases.{
  Answered, wanted, has_known, has_where_known, has_one_of_known, range-Answered, sorted-Answered,
  negation-Answered, negatives_match, Collected, positives-Collected, all_of-Answered,
}
use skeg.Server.Payload.Filter.Steps.{
  Joined, Negated, any_of-Answered, any-Joined, negation-Negated, subtract-Answered,
}

equals-Answered :
    (idx : PayloadIndex) (f : _) (v : _)
    → IsConsistent idx
    → Answered (evaluate (Filter.equals f v) idx) (wanted idx (Filter.equals f v))
unfolding evaluate matches
equals-Answered idx f v c = (
  postings f v idx.by_field,
  refl,
  c.tidy.sorted f v,
  λ i. c.posted i f v ∙ has_known f v (fields_of i idx),
)

one_of-Answered :
    (idx : PayloadIndex) (f : _) (vs : _)
    → IsConsistent idx
    → Answered (evaluate (Filter.one_of f vs) idx) (wanted idx (Filter.one_of f vs))
unfolding evaluate matches
one_of-Answered idx f vs c =
    sorted-Answered idx (extend_postings f vs idx.by_field) (wanted idx (Filter.one_of f vs))
      (λ i. contains-extend_postings f vs i idx c ∙ has_one_of_known f vs (fields_of i idx))

exists-Answered :
    (idx : PayloadIndex) (f : _)
    → IsConsistent idx
    → Answered (evaluate (Filter.exists f) idx) (wanted idx (Filter.exists f))
unfolding evaluate matches field_ids
exists-Answered idx f c =
    sorted-Answered idx (gather (λ v. true) (values_of f idx.by_field))
      (wanted idx (Filter.exists f))
      (λ i. contains-gather f (λ v. true) i idx c ∙ has_where_known f (λ v. true) (fields_of i idx))

mutual
  unfolding evaluate matches IsOrdered

  pub answers :
      (f : Filter) (idx : PayloadIndex)
      → IsConsistent idx
      → IsOrdered f
      → Answered (evaluate f idx) (wanted idx f)
  answers (Filter.equals f v) idx c o = equals-Answered idx f v c
  answers (Filter.one_of f vs) idx c o = one_of-Answered idx f vs c
  answers (Filter.range f lo hi) idx c o = range-Answered idx f lo hi c o
  answers (Filter.exists f) idx c o = exists-Answered idx f c
  answers (Filter.all_of ps) idx c o =
      all_of-Answered idx ps c (collected ps idx c o) (λ acc s u. subtracted ps idx c o acc s u)
  answers (Filter.any_of ps) idx c o = any_of-Answered idx ps (joined ps idx c o)
  answers (Filter.negation f) idx c o = negation-Answered idx f c (answers f idx c o)

  collected :
      (ps : Filters) (idx : PayloadIndex)
      → IsConsistent idx
      → AreOrdered ps
      → Collected (evaluate_positives ps idx) idx ps
  collected Filters.no_filters idx c o = ([], refl, tt, λ i. tt, λ i. refl)
  collected (Filters.more p ps) idx c (op, o) =
      positives-Collected idx p ps c (answers p idx c op) (collected ps idx c o)

  joined :
      (ps : Filters) (idx : PayloadIndex)
      → IsConsistent idx
      → AreOrdered ps
      → Joined (evaluate_any ps idx) idx ps
  joined Filters.no_filters idx c o = ([], refl, λ i. ground arith)
  joined (Filters.more p ps) idx c (op, o) =
      any-Joined idx p ps (answers p idx c op) (joined ps idx c o)

  subtracted :
      (ps : Filters) (idx : PayloadIndex)
      → IsConsistent idx
      → AreOrdered ps
      → (acc : List ℕ) → IsSorted acc
      → ((i : ℕ) → contains i acc ≡ true → contains i (all_ids idx) ≡ true)
      → Answered
          (subtract_negated ps idx acc)
          (λ i. contains i acc && negatives_match ps (fields_of i idx))
  subtracted Filters.no_filters idx c o acc s u = (acc, refl, s, λ i. ground arith)
  subtracted (Filters.more p ps) idx c (op, o) acc s u =
      subtract-Answered idx p ps acc c s u (inside p idx c op)
        (λ left sl ul. subtracted ps idx c o left sl ul)

  inside : (p : Filter) (idx : PayloadIndex) → IsConsistent idx → IsOrdered p → Negated p idx
  inside (Filter.equals f v) idx c o h = absurd (cc)
  inside (Filter.one_of f vs) idx c o h = absurd (cc)
  inside (Filter.range f lo hi) idx c o h = absurd (cc)
  inside (Filter.exists f) idx c o h = absurd (cc)
  inside (Filter.all_of ps) idx c o h = absurd (cc)
  inside (Filter.any_of ps) idx c o h = absurd (cc)
  inside (Filter.negation f) idx c o h = negation-Negated idx f (answers f idx c o) h
