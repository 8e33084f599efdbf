-- ===== src/Server/Payload/Index/Consistent.antt =====
-- crates/skeg-server/src/payload.rs: what every index that the operations build holds: an id is in a
-- posting just if its fields have that value, and the ids with fields are the universe.
use skeg.Prelude.{
  ℕ, ◌≡◌, ◌≢◌, refl, arith, List, [], ◌∷◌, Option, none, some, not, ◌==◌, if◌then◌else◌, inl, inr,
  Option-cases, Assoc, lookup, nat_key, lookup-remove, Text,
}
use skeg.Server.Payload.Ids.{contains, IsSorted}
use skeg.Server.Payload.Value.{Value}
use skeg.Server.Payload.Index.{
  Field, PayloadIndex, empty_index, or_nil, is_empty, insert_sorted, add_postings, remove_fields,
  remove_id_fields, upsert, postings, keys, fields_of, all_ids,
}
use skeg.Server.Payload.Index.Posted.{
  has, IsTidy, contains-add_postings, contains-drop_postings, add_postings-IsTidy,
  drop_postings-IsTidy, lookup-insert_sorted, keys-insert_sorted, keys-remove,
}

pub record IsConsistent (idx : PayloadIndex) : Type 0 where
  pub posted :
      (i : ℕ) (f : Text) (v : Value)
      → contains i (postings f v idx.by_field) ≡ has f v (fields_of i idx)
  pub tidy : IsTidy idx.by_field
  pub ids : IsSorted (keys idx.by_id)
  pub universe : (i : ℕ) → lookup i idx.by_id ≢ some []

contains-keys :
    (i : ℕ) (m : Assoc ℕ (List Field))
    → lookup i m ≢ some []
    → contains i (keys m) ≡ not (is_empty (or_nil (lookup i m)))
contains-keys i [] h = refl
contains-keys i ((j, []) ∷ m) h = ground (arith, contains-keys i m)
contains-keys i ((j, x ∷ v) ∷ m) h = ground (arith, contains-keys i m)

pub contains-all_ids :
    (idx : PayloadIndex) (i : ℕ)
    → IsConsistent idx
    → contains i (all_ids idx) ≡ not (is_empty (fields_of i idx))
unfolding all_ids
contains-all_ids idx i c = contains-keys i idx.by_id (c.universe i)

pub empty_index-IsConsistent : IsConsistent empty_index
unfolding postings
empty_index-IsConsistent = record {
  posted = λ i f v. refl;
  tidy = record { sorted = λ f v. tt; unique = λ f. tt };
  ids = tt;
  universe = λ i h. cc;
}

fields_of-remove :
    (id i : ℕ) (idx : PayloadIndex)
    → fields_of i (remove_id_fields id idx) ≡ (if id == i then [] else fields_of i idx)
unfolding remove_id_fields remove_fields
fields_of-remove id i idx = elim (Option-cases (lookup id idx.by_id)) [
  | inl missing ↦ ground (arith, missing)
  | inr (fields, found) ↦ ground (arith, found, lookup-remove id i idx.by_id)
]

remove_fields-IsConsistent :
    (id : ℕ) (o : Option (List Field)) (idx : PayloadIndex)
    → lookup id idx.by_id ≡ o
    → IsConsistent idx
    → IsConsistent (remove_fields id o idx)
unfolding remove_fields
remove_fields-IsConsistent id none idx e c = c
remove_fields-IsConsistent id (some fields) idx e c = record {
  posted = λ i f v. ground (
    arith,
    c.posted i f v,
    contains-drop_postings i id f v fields idx.by_field,
    lookup-remove id i idx.by_id,
  );
  tidy = drop_postings-IsTidy id fields idx.by_field c.tidy;
  ids = keys-remove id idx.by_id c.ids;
  universe = λ i h. ground (arith, c.universe i, lookup-remove id i idx.by_id);
}

pub remove_id_fields-IsConsistent :
    (id : ℕ) (idx : PayloadIndex) → IsConsistent idx → IsConsistent (remove_id_fields id idx)
unfolding remove_id_fields
remove_id_fields-IsConsistent id idx c =
    remove_fields-IsConsistent id (lookup id idx.by_id) idx refl c

pub fields_of-remove_id_fields :
    (id i : ℕ) (idx : PayloadIndex)
    → fields_of i (remove_id_fields id idx) ≡ (if id == i then [] else fields_of i idx)
fields_of-remove_id_fields id i idx = fields_of-remove id i idx

pub fields_of-upsert :
    (id i : ℕ) (fields : List Field) (idx : PayloadIndex)
    → fields_of i (upsert id fields idx) ≡ (if id == i then fields else fields_of i idx)
unfolding upsert
fields_of-upsert id i [] idx = fields_of-remove id i idx
fields_of-upsert id i (x ∷ fields) idx = ground (
  arith,
  fields_of-remove id i idx,
  lookup-insert_sorted id i (x ∷ fields) (remove_id_fields id idx).by_id,
)

add_fields-IsConsistent :
    (id : ℕ) (x : Field) (fields : List Field) (idx : PayloadIndex)
    → fields_of id idx ≡ []
    → IsConsistent idx
    → IsConsistent (record {
      by_field = add_postings id (x ∷ fields) idx.by_field;
      by_id = insert_sorted id (x ∷ fields) idx.by_id;
    })
add_fields-IsConsistent id x fields idx fresh c = record {
  posted = λ i f v. ground (
    arith,
    c.posted i f v,
    contains-add_postings i id f v (x ∷ fields) idx.by_field,
    lookup-insert_sorted id i (x ∷ fields) idx.by_id,
  );
  tidy = add_postings-IsTidy id (x ∷ fields) idx.by_field c.tidy;
  ids = keys-insert_sorted id (x ∷ fields) idx.by_id c.ids;
  universe = λ i h. ground (arith, c.universe i, lookup-insert_sorted id i (x ∷ fields) idx.by_id);
}

pub upsert-IsConsistent :
    (id : ℕ) (fields : List Field) (idx : PayloadIndex)
    → IsConsistent idx
    → IsConsistent (upsert id fields idx)
unfolding upsert add_postings
upsert-IsConsistent id [] idx c = remove_id_fields-IsConsistent id idx c
upsert-IsConsistent id (x ∷ fields) idx c =
    add_fields-IsConsistent id x fields (remove_id_fields id idx)
      (ground (arith, fields_of-remove id id idx)) (remove_id_fields-IsConsistent id idx c)
