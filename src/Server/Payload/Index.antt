-- ===== src/Server/Payload/Index.antt =====
-- crates/skeg-server/src/payload.rs: `PayloadIndex`. The order of the maps' entries matters to no result
-- but that of `all_ids`: what `values` and `range` give is sorted by the callers. So `by_field` and its
-- maps are association lists, and `by_id` is one in the order of the ids.
pub mod Posted
pub mod Consistent
use skeg.Prelude.{
  ℕ, ◌≡◌, List, [], ◌∷◌, ◌++◌, map, Option, none, some, Bool, true, false, ◌&&◌, ◌||◌, ltb, ◌==◌,
  if◌then◌else◌, Assoc, lookup, insert, remove, Eq, nat_key, bytes_key, bytes_beq, Text,
}
use skeg.Server.Payload.Ids.{insert_id, remove_id, sort_dedup}
use skeg.Server.Payload.Value.{Value, Bound, value_beq, value_key, within, range_panics}

abbrev pub Field : Type 0
Field = Text × Value

abbrev pub Postings : Type 0
Postings = Assoc Value (List ℕ)

abbrev pub FieldMap : Type 0
FieldMap = Assoc Text Postings

pub record PayloadIndex : Type 0 where
  pub by_field : FieldMap
  pub by_id : Assoc ℕ (List Field)

abbrev pub empty_index : PayloadIndex
empty_index = record { by_field = []; by_id = [] }

-- `or_default` and `unwrap_or_default`
abbrev pub or_nil {ℓ} : {A : Type ℓ} → Option (List A) → List A
or_nil none = []
or_nil (some xs) = xs

abbrev pub is_empty {ℓ} : {A : Type ℓ} → List A → Bool
is_empty [] = true
is_empty (x ∷ xs) = false

-- `BTreeMap::insert` on `by_id`
unfoldable pub insert_sorted : ℕ → List Field → Assoc ℕ (List Field) → Assoc ℕ (List Field)
insert_sorted id fields [] = (id, fields) ∷ []
insert_sorted id fields ((j, v) ∷ m) =
    let rest = insert_sorted id fields m in
    if ltb j id
    then (j, v) ∷ rest
    else if j == id
    then (id, fields) ∷ m
    else (id, fields) ∷ (j, v) ∷ m

-- A round of `upsert`'s loop.
unfoldable pub add_posting : ℕ → Field → FieldMap → FieldMap
unfolding insert_id
add_posting id (f, v) by_field =
    let values = or_nil (lookup f by_field) in
    insert f (insert v (insert_id id (or_nil (lookup v values))) values) by_field

unfoldable pub add_postings : ℕ → List Field → FieldMap → FieldMap
unfolding add_posting
add_postings id [] by_field = by_field
add_postings id (x ∷ fields) by_field = add_postings id fields (add_posting id x by_field)

-- A round of `remove`'s loop: an empty set of ids goes, and then an empty map of values.
unfoldable pub drop_id : ℕ → Value → Option (List ℕ) → Postings → Postings
unfolding remove_id
drop_id id v none values = values
drop_id id v (some ids) values =
    let left = remove_id id ids in if is_empty left then remove v values else insert v left values

unfoldable pub drop_value : ℕ → Field → Option Postings → FieldMap → FieldMap
unfolding drop_id
drop_value id x none by_field = by_field
drop_value id (f, v) (some values) by_field =
    let left = drop_id id v (lookup v values) values in
    if is_empty left then remove f by_field else insert f left by_field

unfoldable pub drop_posting : ℕ → Field → FieldMap → FieldMap
unfolding drop_value
drop_posting id (f, v) by_field = drop_value id (f, v) (lookup f by_field) by_field

unfoldable pub drop_postings : ℕ → List Field → FieldMap → FieldMap
unfolding drop_posting
drop_postings id [] by_field = by_field
drop_postings id (x ∷ fields) by_field = drop_postings id fields (drop_posting id x by_field)

unfoldable pub remove_fields : ℕ → Option (List Field) → PayloadIndex → PayloadIndex
unfolding drop_postings
remove_fields id none idx = idx
remove_fields id (some fields) idx = record {
  by_field = drop_postings id fields idx.by_field;
  by_id = remove id idx.by_id;
}

-- `PayloadIndex::remove`
unfoldable pub remove_id_fields : ℕ → PayloadIndex → PayloadIndex
unfolding remove_fields
remove_id_fields id idx = remove_fields id (lookup id idx.by_id) idx

-- `PayloadIndex::upsert`
unfoldable pub upsert : ℕ → List Field → PayloadIndex → PayloadIndex
unfolding remove_id_fields add_postings insert_sorted
upsert id fields idx =
    let removed = remove_id_fields id idx in
    record {
      by_field = add_postings id fields removed.by_field;
      by_id = if is_empty fields then removed.by_id else insert_sorted id fields removed.by_id;
    }

-- `by_field.get(field)`, with no values where there is none
abbrev pub values_of : Text → FieldMap → Postings
values_of f by_field = or_nil (lookup f by_field)

-- `postings`, with `unwrap_or_default`
unfoldable pub postings : Text → Value → FieldMap → List ℕ
postings f v by_field = or_nil (lookup v (values_of f by_field))

-- The ids under the values that pass a test, value by value.
unfoldable pub gather : (Value → Bool) → Postings → List ℕ
gather p [] = []
gather p ((v, ids) ∷ m) = let rest = gather p m in if p v then ids ++ rest else rest

unfoldable pub field_ids : Text → FieldMap → List ℕ
unfolding gather sort_dedup
field_ids f by_field = sort_dedup (gather (λ v. true) (values_of f by_field))

-- `vs.range(..)`: no range of an empty map panics. None is the panic.
unfoldable pub range_of : Bound → Bound → Postings → Option (List ℕ)
unfolding gather within range_panics sort_dedup
range_of lo hi [] = some []
range_of lo hi (x ∷ m) =
    if range_panics lo hi then none else some (sort_dedup (gather (within lo hi) (x ∷ m)))

unfoldable pub range_ids : Text → Bound → Bound → FieldMap → Option (List ℕ)
unfolding range_of
range_ids f lo hi by_field = range_of lo hi (values_of f by_field)

abbrev pub keys : Assoc ℕ (List Field) → List ℕ
keys [] = []
keys ((id, fields) ∷ m) = id ∷ keys m

unfoldable pub all_ids : PayloadIndex → List ℕ
all_ids idx = keys idx.by_id

-- The fields that the index holds for an id.
abbrev pub fields_of : ℕ → PayloadIndex → List Field
fields_of id idx = or_nil (lookup id idx.by_id)
