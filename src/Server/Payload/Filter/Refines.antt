-- ===== src/Server/Payload/Filter/Refines.antt =====
-- crates/skeg-server/src/payload.rs: the index and its filters refine a function from ids to fields.
use skeg.Prelude.{
  ℕ, ◌≡◌, ◌∙◌, refl, ap, arith, List, [], ◌∷◌, none, some, true, not, ◌&&◌, ◌==◌, if◌then◌else◌,
  Text,
}
use skeg.Server.Payload.Ids.{contains, IsSorted}
use skeg.Server.Payload.Value.{Bound, range_panics}
use skeg.Server.Payload.Index.{
  Field, Postings, PayloadIndex, empty_index, is_empty, values_of, gather, range_of, range_ids,
  fields_of, upsert, remove_id_fields,
}
use skeg.Server.Payload.Index.Consistent.{
  IsConsistent, empty_index-IsConsistent, upsert-IsConsistent, remove_id_fields-IsConsistent,
  fields_of-upsert, fields_of-remove_id_fields,
}
use skeg.Server.Payload.Filter.{Filter, evaluate}
use skeg.Server.Payload.Filter.Matches.{matches, has_where, IsOrdered}
use skeg.Server.Payload.Filter.Gather.{contains-gather}
use skeg.Server.Payload.Filter.Answers.{answers}

-- What the shard asks of a vindex's index.
pub data Call : Type 0 where
  put : ℕ → List Field → Call
  delete : ℕ → Call

unfoldable pub apply : Call → PayloadIndex → PayloadIndex
apply (put id fields) idx = upsert id fields idx
apply (delete id) idx = remove_id_fields id idx

-- The last call stands first.
unfoldable pub run : List Call → PayloadIndex
unfolding apply
run [] = empty_index
run (call ∷ earlier) = apply call (run earlier)

-- The specification: what was put last under an id, and no fields where it was deleted.
unfoldable pub contents : List Call → ℕ → List Field
contents [] i = []
contents (put id fields ∷ earlier) i = if id == i then fields else contents earlier i
contents (delete id ∷ earlier) i = if id == i then [] else contents earlier i

-- After any calls, each posting of the index is sorted and holds just the ids whose fields have that
-- value, each value of a field has one posting, and the ids of the index are sorted and have fields.
pub run-IsConsistent : (calls : List Call) → IsConsistent (run calls)
unfolding run apply
run-IsConsistent [] = empty_index-IsConsistent
run-IsConsistent (put id fields ∷ earlier) =
    upsert-IsConsistent id fields (run earlier) (run-IsConsistent earlier)
run-IsConsistent (delete id ∷ earlier) =
    remove_id_fields-IsConsistent id (run earlier) (run-IsConsistent earlier)

pub fields_of-run : (calls : List Call) (i : ℕ) → fields_of i (run calls) ≡ contents calls i
unfolding run apply contents
fields_of-run [] i = refl
fields_of-run (put id fields ∷ earlier) i =
    ground (arith, fields_of-upsert id i fields (run earlier), fields_of-run earlier i)
fields_of-run (delete id ∷ earlier) i =
    ground (arith, fields_of-remove_id_fields id i (run earlier), fields_of-run earlier i)

-- After any calls, a filter without a reversed range evaluates without a panic, to the ids in ascending
-- order that have fields, and whose fields, as last put, the filter matches.
pub evaluate-run :
    (calls : List Call) (f : Filter)
    → IsOrdered f
    → (out : List ℕ) × (evaluate f (run calls) ≡ some out)
      × IsSorted out
      × ((i : ℕ)
          → contains i out ≡ (not (is_empty (contents calls i)) && matches f (contents calls i)))
evaluate-run calls f o =
    let (out, e, s, m) = answers f (run calls) (run-IsConsistent calls) o in
    (
      out,
      e,
      s,
      λ i. m i ∙ ap (λ fields. not (is_empty fields) && matches f fields) (fields_of-run calls i),
    )

range_of-panics :
    (lo hi : Bound) (i : ℕ) (m : Postings)
    → range_panics lo hi ≡ true
    → contains i (gather (λ v. true) m) ≡ true
    → range_of lo hi m ≡ none
unfolding range_of gather
range_of-panics lo hi i [] h g = absurd (cc)
range_of-panics lo hi i (x ∷ m) h g = rw h refl

-- After any calls, a range whose start is above its end panics as soon as one id has the field.
pub evaluate-range_panics :
    (calls : List Call) (f : Text) (lo hi : Bound) (i : ℕ)
    → range_panics lo hi ≡ true
    → has_where f (λ v. true) (contents calls i) ≡ true
    → evaluate (Filter.range f lo hi) (run calls) ≡ none
unfolding evaluate range_ids
evaluate-range_panics calls f lo hi i h some_id =
    range_of-panics lo hi i (values_of f (run calls).by_field) h (
      contains-gather f (λ v. true) i (run calls) (run-IsConsistent calls)
      ∙ ap (has_where f (λ v. true)) (fields_of-run calls i)
      ∙ some_id)
