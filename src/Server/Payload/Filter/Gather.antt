-- ===== src/Server/Payload/Filter/Gather.antt =====
-- crates/skeg-server/src/payload.rs: the ids that the index gathers for the values that pass a test are
-- those with such a value among their fields.
use skeg.Prelude.{
  ℕ, ◌≡◌, refl, arith, List, [], ◌∷◌, Bool, true, false, ◌&&◌, inl, inr, Bool-cases, lookup, Unique,
  bytes_key, bytes_beq, Text,
}
use skeg.Server.Payload.Ids.{contains, contains-append}
use skeg.Server.Payload.Value.{Value, value_beq_iff, value_key}
use skeg.Server.Payload.Index.{
  Field, Postings, PayloadIndex, or_nil, values_of, postings, gather, fields_of,
}
use skeg.Server.Payload.Index.Posted.{has}
use skeg.Server.Payload.Index.Consistent.{IsConsistent}
use skeg.Server.Payload.Filter.{extend_postings}
use skeg.Server.Payload.Filter.Matches.{has_where, has_one_of}

-- Two tests that imply each other are equal.
pub Bool-ext : (a b : Bool) → (a ≡ true → b ≡ true) → (b ≡ true → a ≡ true) → a ≡ b
Bool-ext true b f g = ground arith
Bool-ext false true f g = g refl
Bool-ext false false f g = refl

gather_complete :
    (p : Value → Bool) (i : ℕ) (v : Value) (m : Postings)
    → p v ≡ true
    → contains i (or_nil (lookup v m)) ≡ true
    → contains i (gather p m) ≡ true
unfolding gather
gather_complete p i v [] pv h = h
gather_complete p i v ((w, ids) ∷ m) pv h =
    ground
      (arith, gather_complete p i v m pv, value_beq_iff w v, contains-append i ids (gather p m))

gather_sound :
    (p : Value → Bool) (i : ℕ) (m : Postings)
    → Unique m
    → contains i (gather p m) ≡ true
    → (v : Value) × (p v ≡ true) × (contains i (or_nil (lookup v m)) ≡ true)
unfolding gather
gather_sound p i [] u h = absurd (cc)
gather_sound p i ((w, ids) ∷ m) (fresh, u) h = elim (Bool-cases (p w && contains i ids)) [
  | inl here ↦ (w, ground arith, ground (arith, value_beq_iff w w))
  | inr not_here ↦
      let found = gather_sound p i m u (ground (arith, contains-append i ids (gather p m))) in
      (found.0, found.1, ground (arith, value_beq_iff w found.0))
]

has_where_sound :
    (f : Text) (p : Value → Bool) (fields : List Field)
    → has_where f p fields ≡ true
    → (v : Value) × (p v ≡ true) × (has f v fields ≡ true)
has_where_sound f p [] h = absurd (cc)
has_where_sound f p ((g, w) ∷ fields) h = elim (Bool-cases (bytes_beq g f && p w)) [
  | inl here ↦ (w, ground arith, ground (arith, value_beq_iff w w))
  | inr not_here ↦
      let found = has_where_sound f p fields (ground arith) in (found.0, found.1, ground arith)
]

has_where_complete :
    (f : Text) (p : Value → Bool) (v : Value) (fields : List Field)
    → p v ≡ true
    → has f v fields ≡ true
    → has_where f p fields ≡ true
has_where_complete f p v [] pv h = h
has_where_complete f p v ((g, w) ∷ fields) pv h =
    ground (arith, has_where_complete f p v fields pv, value_beq_iff w v)

pub contains-gather :
    (f : Text) (p : Value → Bool) (i : ℕ) (idx : PayloadIndex)
    → IsConsistent idx
    → contains i (gather p (values_of f idx.by_field)) ≡ has_where f p (fields_of i idx)
unfolding postings
contains-gather f p i idx c =
    Bool-ext (contains i (gather p (values_of f idx.by_field))) (has_where f p (fields_of i idx))
      (λ h.
        let found = gather_sound p i (values_of f idx.by_field) (c.tidy.unique f) h in
        has_where_complete f p found.0 (fields_of i idx) found.1
          (ground (arith, c.posted i f found.0)))
      (λ h.
        let found = has_where_sound f p (fields_of i idx) h in
        gather_complete p i found.0 (values_of f idx.by_field) found.1
          (ground (arith, c.posted i f found.0)))

pub contains-extend_postings :
    (f : Text) (vs : List Value) (i : ℕ) (idx : PayloadIndex)
    → IsConsistent idx
    → contains i (extend_postings f vs idx.by_field) ≡ has_one_of f vs (fields_of i idx)
unfolding extend_postings
contains-extend_postings f [] i idx c = refl
contains-extend_postings f (v ∷ vs) i idx c = ground (
  arith,
  contains-append i (postings f v idx.by_field) (extend_postings f vs idx.by_field),
  contains-extend_postings f vs i idx c,
  c.posted i f v,
)
