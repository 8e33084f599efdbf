-- ===== src/Server/Payload/Filter.antt =====
-- crates/skeg-server/src/payload.rs: `Filter` and its evaluation against the index. None is the panic of
-- `BTreeMap::range`.
pub mod Matches
pub mod Gather
pub mod Sets
pub mod Cases
pub mod Steps
pub mod Answers
pub mod Refines
use skeg.Prelude.{
  ℕ, ◌≡◌, List, [], ◌∷◌, ◌++◌, length, Option, none, some, Bool, true, false, not, ◌&&◌, leb,
  if◌then◌else◌, Assoc, lookup, Eq, Text,
}
use skeg.Server.Payload.Ids.{intersect_sorted, retain_missing, sort_dedup}
use skeg.Server.Payload.Value.{Value, Bound, value_beq}
use skeg.Server.Payload.Index.{
  PayloadIndex, FieldMap, postings, field_ids, range_ids, all_ids, is_empty,
}

mutual
  pub data Filter : Type 0 where
    equals : Text → Value → Filter
    one_of : Text → List Value → Filter
    range : Text → Bound → Bound → Filter
    exists : Text → Filter
    all_of : Filters → Filter
    any_of : Filters → Filter
    negation : Filter → Filter

  pub data Filters : Type 0 where
    no_filters : Filters
    more : Filter → Filters → Filters

infixl 20 ◌>>=◌
abbrev pub ◌>>=◌ {ℓ} : {A B : Type ℓ} → Option A → (A → Option B) → Option B
none >>= k = none
some a >>= k = k a

abbrev pub is_negation : Filter → Bool
is_negation (negation b) = true
is_negation _ = false

-- The loop of `IN` over the values.
unfoldable pub extend_postings : Text → List Value → FieldMap → List ℕ
unfolding postings
extend_postings f [] m = []
extend_postings f (v ∷ vs) m = postings f v m ++ extend_postings f vs m

-- `sort_by_key(Vec::len)`, which is stable.
unfoldable pub place_set : List ℕ → List (List ℕ) → List (List ℕ)
place_set s [] = s ∷ []
place_set s (t ∷ ts) =
    let rest = place_set s ts in if leb (length s) (length t) then s ∷ t ∷ ts else t ∷ rest

unfoldable pub sort_by_len : List (List ℕ) → List (List ℕ)
unfolding place_set
sort_by_len [] = []
sort_by_len (s ∷ ss) = place_set s (sort_by_len ss)

-- The loop that intersects, until nothing is left.
unfoldable pub intersect_all : List ℕ → List (List ℕ) → List ℕ
unfolding intersect_sorted
intersect_all a [] = a
intersect_all a (s ∷ ss) =
    let next = intersect_sorted a s in
    let rest = intersect_all next ss in if is_empty next then next else rest

-- Where `And`'s running set starts: the universe when every part is negated.
unfoldable pub start : PayloadIndex → List (List ℕ) → List ℕ
unfolding all_ids intersect_all
start idx [] = all_ids idx
start idx (a ∷ ss) = intersect_all a ss

unfoldable mutual
  unfolding postings extend_postings range_ids field_ids all_ids sort_by_len start retain_missing
      sort_dedup

  pub evaluate : Filter → PayloadIndex → Option (List ℕ)
  evaluate (equals f v) idx = some (postings f v idx.by_field)
  evaluate (one_of f vs) idx = some (sort_dedup (extend_postings f vs idx.by_field))
  evaluate (range f lo hi) idx = range_ids f lo hi idx.by_field
  evaluate (exists f) idx = some (field_ids f idx.by_field)
  evaluate (all_of parts) idx = evaluate_positives parts idx >>= λ sets.
      subtract_negated parts idx (start idx (sort_by_len sets))
  evaluate (any_of parts) idx = evaluate_any parts idx >>= λ ids. some (sort_dedup ids)
  evaluate (negation inner) idx =
      evaluate inner idx >>= λ excluded. some (retain_missing excluded (all_ids idx))

  -- The sets of the parts that are not negated.
  pub evaluate_positives : Filters → PayloadIndex → Option (List (List ℕ))
  evaluate_positives no_filters idx = some []
  evaluate_positives (more p ps) idx =
      let rest = evaluate_positives ps idx in
      if is_negation p then rest else evaluate p idx >>= λ s. rest >>= λ ss. some (s ∷ ss)

  -- The loop that subtracts the negated parts, until nothing is left.
  pub subtract_negated : Filters → PayloadIndex → List ℕ → Option (List ℕ)
  subtract_negated no_filters idx acc = some acc
  subtract_negated (more p ps) idx acc =
      let rest = subtract_negated ps idx acc in
      let next = evaluate_negated p idx >>= λ b. subtract_negated ps idx (retain_missing b acc) in
      if is_negation p then if is_empty acc then some acc else next else rest

  -- What is inside a negated part.
  pub evaluate_negated : Filter → PayloadIndex → Option (List ℕ)
  evaluate_negated (negation b) idx = evaluate b idx
  evaluate_negated _ idx = some []

  -- The answers of all parts, one behind the other.
  pub evaluate_any : Filters → PayloadIndex → Option (List ℕ)
  evaluate_any no_filters idx = some []
  evaluate_any (more p ps) idx = evaluate p idx >>= λ a. evaluate_any ps idx >>= λ b. some (a ++ b)
