-- ===== src/Server/Payload/Value.antt =====
-- crates/skeg-server/src/payload.rs: the values of payload fields, their order, and bounds on them.
use Prim.Native.Nat.{compare, Ordering}
use skeg.Prelude.{
  ◌≡◌, ◌↔◌, ap, arith, [], ◌∷◌, Bool, true, false, ◌&&◌, Option, none, some, ◌==◌, if◌then◌else◌,
  bytes_beq, bytes_beq_iff, Eq, bytes_key, Text, parse_i64, ℤ,
}

pub data Value : Type 0 where
  keyword : Text → Value
  int : ℤ → Value

pub data Bound : Type 0 where
  included : Value → Bound
  excluded : Value → Bound
  unbounded : Bound

abbrev pub int_beq : ℤ → ℤ → Bool
int_beq (ℤ.pos a) (ℤ.pos b) = a == b
int_beq (ℤ.negsuc a) (ℤ.negsuc b) = a == b
int_beq _ _ = false

abbrev pub value_beq : Value → Value → Bool
value_beq (keyword a) (keyword b) = bytes_beq a b
value_beq (int a) (int b) = int_beq a b
value_beq _ _ = false

int_beq_iff : (a b : ℤ) → (int_beq a b ≡ true) ↔ (a ≡ b)
int_beq_iff (ℤ.pos a) (ℤ.pos b) = ground arith
int_beq_iff (ℤ.pos a) (ℤ.negsuc b) = ground arith
int_beq_iff (ℤ.negsuc a) (ℤ.pos b) = ground arith
int_beq_iff (ℤ.negsuc a) (ℤ.negsuc b) = ground arith

pub value_beq_iff : (a b : Value) → (value_beq a b ≡ true) ↔ (a ≡ b)
value_beq_iff (keyword a) (keyword b) =
    (λ h. ap keyword ((bytes_beq_iff a b).0 h), λ h. (bytes_beq_iff a b).1 (cc))
value_beq_iff (keyword a) (int b) = ground arith
value_beq_iff (int a) (keyword b) = ground arith
value_beq_iff (int a) (int b) = (λ h. ap int ((int_beq_iff a b).0 h), λ h. (int_beq_iff a b).1 (cc))

instance abbrev pub value_key : Eq Value
value_key = record { beq = value_beq; beq_iff = value_beq_iff }

-- The derived order: by the variant, then by what it holds.
abbrev text_compare : Text → Text → Ordering
text_compare [] [] = Ordering.eq
text_compare [] (b ∷ bs) = Ordering.lt
text_compare (a ∷ as') [] = Ordering.gt
text_compare (a ∷ as') (b ∷ bs) =
    let rest = text_compare as' bs in
    elim (compare a b) [
      | Ordering.lt ↦ Ordering.lt
      | Ordering.eq ↦ rest
      | Ordering.gt ↦ Ordering.gt
    ]

abbrev int_compare : ℤ → ℤ → Ordering
int_compare (ℤ.pos a) (ℤ.pos b) = compare a b
int_compare (ℤ.pos a) (ℤ.negsuc b) = Ordering.gt
int_compare (ℤ.negsuc a) (ℤ.pos b) = Ordering.lt
int_compare (ℤ.negsuc a) (ℤ.negsuc b) = compare b a

unfoldable pub value_compare : Value → Value → Ordering
value_compare (keyword a) (keyword b) = text_compare a b
value_compare (keyword a) (int b) = Ordering.lt
value_compare (int a) (keyword b) = Ordering.gt
value_compare (int a) (int b) = int_compare a b

abbrev is_lt : Ordering → Bool
is_lt Ordering.lt = true
is_lt _ = false

abbrev is_eq : Ordering → Bool
is_eq Ordering.eq = true
is_eq _ = false

abbrev is_gt : Ordering → Bool
is_gt Ordering.gt = true
is_gt _ = false

abbrev not_below : Bound → Value → Bool
not_below (included lo) v = if is_gt (value_compare lo v) then false else true
not_below (excluded lo) v = is_lt (value_compare lo v)
not_below unbounded v = true

abbrev not_above : Bound → Value → Bool
not_above (included hi) v = if is_gt (value_compare v hi) then false else true
not_above (excluded hi) v = is_lt (value_compare v hi)
not_above unbounded v = true

-- A key that `BTreeMap::range` visits.
unfoldable pub within : Bound → Bound → Value → Bool
unfolding value_compare
within lo hi v = not_below lo v && not_above hi v

-- `BTreeMap::range` panics where the start is above the end, and where both are excluded and equal.
unfoldable pub range_panics : Bound → Bound → Bool
unfolding value_compare
range_panics (excluded lo) (excluded hi) = if is_lt (value_compare lo hi) then false else true
range_panics (included lo) (included hi) = is_gt (value_compare lo hi)
range_panics (included lo) (excluded hi) = is_gt (value_compare lo hi)
range_panics (excluded lo) (included hi) = is_gt (value_compare lo hi)
range_panics unbounded _ = false
range_panics _ unbounded = false

abbrev typed : Text → Option ℤ → Value
typed tok none = keyword tok
typed tok (some n) = int n

-- `Value::parse`
unfoldable pub parse_value : Text → Value
unfolding parse_i64
parse_value tok = typed tok (parse_i64 tok)
