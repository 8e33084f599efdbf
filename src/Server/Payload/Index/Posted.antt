-- ===== src/Server/Payload/Index/Posted.antt =====
-- crates/skeg-server/src/payload.rs: what a round of the index's loops does to each posting, and to the
-- order of the ids.
use skeg.Prelude.{
  ℕ, ◌<◌, ◌≡◌, refl, arith, List, [], ◌∷◌, All, Option, none, some, Bool, false, not, ◌&&◌, ◌||◌,
  ◌==◌, if◌then◌else◌, inl, inr, Bool-cases, Assoc, lookup, insert, remove, Unique, Unique-insert,
  Unique-remove, lookup-insert, lookup-remove, nat_key, bytes_key, bytes_beq, bytes_beq_iff, Text,
}
use skeg.Server.Payload.Ids.{
  contains, insert_id, remove_id, contains-insert_id, contains-remove_id, IsSorted,
}
use skeg.Server.Payload.Ids.Sorted.{above_trans, insert_id-IsSorted, remove_id-IsSorted}
use skeg.Server.Payload.Value.{Value, value_beq, value_beq_iff, value_key}
use skeg.Server.Payload.Index.{
  Field, Postings, FieldMap, or_nil, insert_sorted, add_posting, add_postings, drop_id, drop_value,
  drop_posting, drop_postings, values_of, postings, keys,
}

-- The fields have this value under this name.
abbrev pub has : Text → Value → List Field → Bool
has f v [] = false
has f v ((g, w) ∷ fields) = (bytes_beq g f && value_beq w v) || has f v fields

postings-add_posting :
    (id : ℕ) (g : Text) (w : Value) (f : Text) (v : Value) (m : FieldMap)
    → postings f v (add_posting id (g, w) m)
      ≡ (if bytes_beq g f && value_beq w v then insert_id id (postings f v m) else postings f v m)
unfolding postings add_posting
postings-add_posting id g w f v m = ground (
  arith,
  lookup-insert g f (insert w (insert_id id (or_nil (lookup w (values_of g m)))) (values_of g m)) m,
  lookup-insert w v (insert_id id (or_nil (lookup w (values_of g m)))) (values_of g m),
  bytes_beq_iff g f,
  value_beq_iff w v,
)

drop_id-none : (id : ℕ) (w : Value) (values : Postings) → drop_id id w none values ≡ values
unfolding drop_id
drop_id-none id w values = refl

lookup-drop_id :
    (id : ℕ) (w v : Value) (o : Option (List ℕ)) (values : Postings)
    → lookup w values ≡ o
    → or_nil (lookup v (drop_id id w o values)) ≡ (
        if value_beq w v then remove_id id (or_nil (lookup v values)) else or_nil (lookup v values))
unfolding drop_id remove_id
lookup-drop_id id w v none values e = ground (arith, value_beq_iff w v)
lookup-drop_id id w v (some ids) values e = elim (Bool-cases (value_beq w v)) [
  | inl same ↦
      let wv : w ≡ v = (value_beq_iff w v).0 same in
      ground (arith, lookup-insert w v (remove_id id ids) values, lookup-remove w v values)
  | inr other ↦
      ground (arith, lookup-insert w v (remove_id id ids) values, lookup-remove w v values)
]

postings-drop_value :
    (id : ℕ) (g : Text) (w : Value) (f : Text) (v : Value) (o : Option Postings) (m : FieldMap)
    → lookup g m ≡ o
    → postings f v (drop_value id (g, w) o m)
      ≡ (if bytes_beq g f && value_beq w v then remove_id id (postings f v m) else postings f v m)
unfolding postings drop_value remove_id
postings-drop_value id g w f v none m e = ground (arith, bytes_beq_iff g f)
postings-drop_value id g w f v (some values) m e = ground (
  arith,
  lookup-insert g f (drop_id id w (lookup w values) values) m,
  lookup-remove g f m,
  lookup-drop_id id w v (lookup w values) values refl,
  bytes_beq_iff g f,
)

pub contains-add_postings :
    (i id : ℕ) (f : Text) (v : Value) (fields : List Field) (m : FieldMap)
    → contains i (postings f v (add_postings id fields m))
      ≡ (((id == i) && has f v fields) || contains i (postings f v m))
unfolding add_postings insert_id
contains-add_postings i id f v [] m = ground arith
contains-add_postings i id f v ((g, w) ∷ fields) m = ground (
  arith,
  contains-add_postings i id f v fields (add_posting id (g, w) m),
  postings-add_posting id g w f v m,
  contains-insert_id i id (postings f v m),
)

pub contains-drop_postings :
    (i id : ℕ) (f : Text) (v : Value) (fields : List Field) (m : FieldMap)
    → contains i (postings f v (drop_postings id fields m))
      ≡ (contains i (postings f v m) && not ((id == i) && has f v fields))
unfolding drop_postings drop_posting remove_id
contains-drop_postings i id f v [] m = ground arith
contains-drop_postings i id f v ((g, w) ∷ fields) m = ground (
  arith,
  contains-drop_postings i id f v fields (drop_posting id (g, w) m),
  postings-drop_value id g w f v (lookup g m) m refl,
  contains-remove_id i id (postings f v m),
)

-- Every posting is sorted, and no value of a field has two.
pub record IsTidy (m : FieldMap) : Type 0 where
  pub sorted : (f : Text) (v : Value) → IsSorted (postings f v m)
  pub unique : (f : Text) → Unique (values_of f m)

values_of-insert :
    (g f : Text) (values : Postings) (m : FieldMap)
    → values_of f (insert g values m) ≡ (if bytes_beq g f then values else values_of f m)
values_of-insert g f values m = ground (arith, lookup-insert g f values m)

values_of-remove :
    (g f : Text) (m : FieldMap)
    → values_of f (remove g m) ≡ (if bytes_beq g f then [] else values_of f m)
values_of-remove g f m = ground (arith, lookup-remove g f m)

add_posting-IsTidy :
    (id : ℕ) (g : Text) (w : Value) (m : FieldMap) → IsTidy m → IsTidy (add_posting id (g, w) m)
unfolding add_posting insert_id
add_posting-IsTidy id g w m t = record {
  sorted = λ f v. ground (
    arith,
    postings-add_posting id g w f v m,
    t.sorted f v,
    insert_id-IsSorted id (postings f v m),
  );
  unique = λ f. ground (
    arith,
    t.unique f,
    t.unique g,
    values_of-insert g f (insert w (insert_id id (postings g w m)) (values_of g m)) m,
    Unique-insert w (insert_id id (postings g w m)) (values_of g m),
  );
}

drop_id-Unique :
    (id : ℕ) (w : Value) (o : Option (List ℕ)) (values : Postings)
    → Unique values
    → Unique (drop_id id w o values)
unfolding drop_id remove_id
drop_id-Unique id w none values u = u
drop_id-Unique id w (some ids) values u =
    ground (arith, Unique-remove w values u, Unique-insert w (remove_id id ids) values u)

drop_value-IsTidy :
    (id : ℕ) (g : Text) (w : Value) (o : Option Postings) (m : FieldMap)
    → lookup g m ≡ o
    → IsTidy m
    → IsTidy (drop_value id (g, w) o m)
unfolding drop_value drop_id remove_id
drop_value-IsTidy id g w none m e t = t
drop_value-IsTidy id g w (some values) m e t = record {
  sorted = λ f v. ground (
    arith,
    postings-drop_value id g w f v (some values) m e,
    t.sorted f v,
    remove_id-IsSorted id (postings f v m),
  );
  unique = λ f. ground (
    arith,
    t.unique f,
    t.unique g,
    values_of-remove g f m,
    values_of-insert g f (drop_id id w (lookup w values) values) m,
    drop_id-Unique id w (lookup w values) values,
  );
}

pub add_postings-IsTidy :
    (id : ℕ) (fields : List Field) (m : FieldMap) → IsTidy m → IsTidy (add_postings id fields m)
unfolding add_postings
add_postings-IsTidy id [] m t = t
add_postings-IsTidy id ((g, w) ∷ fields) m t =
    add_postings-IsTidy id fields (add_posting id (g, w) m) (add_posting-IsTidy id g w m t)

pub drop_postings-IsTidy :
    (id : ℕ) (fields : List Field) (m : FieldMap) → IsTidy m → IsTidy (drop_postings id fields m)
unfolding drop_postings drop_posting
drop_postings-IsTidy id [] m t = t
drop_postings-IsTidy id ((g, w) ∷ fields) m t =
    drop_postings-IsTidy id fields (drop_posting id (g, w) m)
      (drop_value-IsTidy id g w (lookup g m) m refl t)

pub lookup-insert_sorted :
    (id j : ℕ) (fields : List Field) (m : Assoc ℕ (List Field))
    → lookup j (insert_sorted id fields m) ≡ (if id == j then some fields else lookup j m)
unfolding insert_sorted
lookup-insert_sorted id j fields [] = refl
lookup-insert_sorted id j fields ((k, v) ∷ m) = ground (arith, lookup-insert_sorted id j fields m)

keys_above-insert_sorted :
    (x id : ℕ) (fields : List Field) (m : Assoc ℕ (List Field))
    → x < id
    → All (λ y. x < y) (keys m)
    → All (λ y. x < y) (keys (insert_sorted id fields m))
unfolding insert_sorted
keys_above-insert_sorted x id fields [] lt h = ground arith
keys_above-insert_sorted x id fields ((k, v) ∷ m) lt (hk, h) =
    ground (arith, keys_above-insert_sorted x id fields m lt h)

pub keys-insert_sorted :
    (id : ℕ) (fields : List Field) (m : Assoc ℕ (List Field))
    → IsSorted (keys m)
    → IsSorted (keys (insert_sorted id fields m))
unfolding insert_sorted
keys-insert_sorted id fields [] s = ground arith
keys-insert_sorted id fields ((k, v) ∷ m) (above, s) = ground (
  arith,
  keys_above-insert_sorted k id fields m,
  keys-insert_sorted id fields m s,
  above_trans id k (keys m),
)

keys_above-remove :
    (x id : ℕ) (m : Assoc ℕ (List Field))
    → All (λ y. x < y) (keys m)
    → All (λ y. x < y) (keys (remove id m))
keys_above-remove x id [] h = tt
keys_above-remove x id ((k, v) ∷ m) (hk, h) = ground (arith, keys_above-remove x id m h)

pub keys-remove :
    (id : ℕ) (m : Assoc ℕ (List Field)) → IsSorted (keys m) → IsSorted (keys (remove id m))
keys-remove id [] s = tt
keys-remove id ((k, v) ∷ m) (above, s) =
    ground (arith, keys_above-remove k id m above, keys-remove id m s)
