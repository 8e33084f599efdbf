-- ===== src/Server/Payload/Filter/Matches.antt =====
-- crates/skeg-server/src/payload.rs: what a filter says of the fields of one id, without an index.
use skeg.Prelude.{◌≡◌, List, [], ◌∷◌, Bool, true, false, not, ◌&&◌, ◌||◌, bytes_beq, Text}
use skeg.Server.Payload.Value.{Value, within, range_panics}
use skeg.Server.Payload.Index.{Field}
use skeg.Server.Payload.Index.Posted.{has}
use skeg.Server.Payload.Filter.{Filter, Filters}

abbrev pub has_where : Text → (Value → Bool) → List Field → Bool
has_where f p [] = false
has_where f p ((g, w) ∷ fields) = (bytes_beq g f && p w) || has_where f p fields

abbrev pub has_one_of : Text → List Value → List Field → Bool
has_one_of f [] fields = false
has_one_of f (v ∷ vs) fields = has f v fields || has_one_of f vs fields

unfoldable mutual
  unfolding within

  pub matches : Filter → List Field → Bool
  matches (Filter.equals f v) fields = has f v fields
  matches (Filter.one_of f vs) fields = has_one_of f vs fields
  matches (Filter.range f lo hi) fields = has_where f (within lo hi) fields
  matches (Filter.exists f) fields = has_where f (λ v. true) fields
  matches (Filter.all_of parts) fields = all_match parts fields
  matches (Filter.any_of parts) fields = any_match parts fields
  matches (Filter.negation inner) fields = not (matches inner fields)

  pub all_match : Filters → List Field → Bool
  all_match Filters.no_filters fields = true
  all_match (Filters.more p ps) fields = matches p fields && all_match ps fields

  pub any_match : Filters → List Field → Bool
  any_match Filters.no_filters fields = false
  any_match (Filters.more p ps) fields = matches p fields || any_match ps fields

-- No range of the filter makes `BTreeMap::range` panic.
unfoldable mutual
  unfolding range_panics

  pub IsOrdered : Filter → Type 0
  IsOrdered (Filter.equals f v) = Unit
  IsOrdered (Filter.one_of f vs) = Unit
  IsOrdered (Filter.range f lo hi) = range_panics lo hi ≡ false
  IsOrdered (Filter.exists f) = Unit
  IsOrdered (Filter.all_of parts) = AreOrdered parts
  IsOrdered (Filter.any_of parts) = AreOrdered parts
  IsOrdered (Filter.negation inner) = IsOrdered inner

  pub AreOrdered : Filters → Type 0
  AreOrdered Filters.no_filters = Unit
  AreOrdered (Filters.more p ps) = IsOrdered p × AreOrdered ps
