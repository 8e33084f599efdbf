-- ===== src/Server/Scope/RoundTrip.antt =====
-- What the server scopes, it unscopes.
use skeg.Prelude.{
  ℕ, ◌/◌, ◌%◌, ◌*◌, ◌<◌, ◌≡◌, refl, ap, sym, ◌∙◌, arith, Bool, true, false, Bytes, [], ◌∷◌, ◌++◌,
  Option, none, some, to_le, from_le, to_le-from_le, length, All, IsByte, inl, inr, Bool-cases,
  ==_iff, of_some, not, if◌then◌else◌, bytes_beq_iff, leb, ◌&&◌, ◌==◌,
}
use skeg.Tenant.Namespace.{zero_id, is_zero, hex_digit, display, scoped_vindex_name}
use skeg.Server.Scope.{
  cons_front, split_scope, is_split, scope_vindex_or_reject, tenant_u128, scope_key, hex_value,
  hex_byte, hex, cuts, from_hex, unscoped, unscope_key, name_ok,
}

hex_value-hex_digit : (n : ℕ) → n < 16 → hex_value (hex_digit n) ≡ some n
unfolding hex_digit
hex_value-hex_digit n h = ground arith

-- A digit is no colon, no plus sign, and no byte that continues a character.
hex_digit-range :
    (n : ℕ)
    → n < 16
    → ((hex_digit n == 58) ≡ false) × ((hex_digit n == 43) ≡ false) × (hex_digit n < 128)
unfolding hex_digit
hex_digit-range n h = (ground arith, ground arith, ground arith)

hex_byte-hex_digit : (b : ℕ) → b < 256 → hex_byte (hex_digit (b / 16)) (hex_digit (b % 16)) ≡ some b
unfolding hex_byte
hex_byte-hex_digit b h =
    let high = hex_digit-range (b / 16) (omega arith) in
    rw
      (
        high.1,
        hex_value-hex_digit (b / 16) (omega arith),
        hex_value-hex_digit (b % 16) (omega arith),
      )
      (ap some (omega arith))

split_scope-skip :
    (c : ℕ) (s : Bytes) → (c == 58) ≡ false → split_scope (c ∷ s) ≡ cons_front c (split_scope s)
unfolding split_scope
split_scope-skip c [] h = refl
split_scope-skip c (b ∷ s) h = rw h refl

split_scope-display :
    (t index : Bytes)
    → All IsByte t
    → split_scope (display t ++ (58 ∷ (58 ∷ index))) ≡ some (display t, index)
unfolding split_scope display
split_scope-display [] index h = refl
split_scope-display (b ∷ t) index (hb, h) =
    let high = hex_digit-range (b / 16) (omega arith) in
    let low = hex_digit-range (b % 16) (omega arith) in
    let rest = display t ++ (58 ∷ (58 ∷ index)) in
    split_scope-skip (hex_digit (b / 16)) (hex_digit (b % 16) ∷ rest) high.0
    ∙ ap (cons_front (hex_digit (b / 16))) (
        split_scope-skip (hex_digit (b % 16)) rest low.0
        ∙ ap (cons_front (hex_digit (b % 16))) (split_scope-display t index h))

small→cuts : (c : ℕ) → c < 128 → (leb 128 c && leb c 191) ≡ false
small→cuts c h = ground arith

cuts-display : (t : Bytes) → All IsByte t → cuts (display t) ≡ false
unfolding display
cuts-display [] h = refl
cuts-display (b ∷ t) (hb, h) =
    let high = hex_digit-range (b / 16) (omega arith) in small→cuts (hex_digit (b / 16)) high.2

from_hex-display : (t : Bytes) → All IsByte t → from_hex (display t) ≡ hex t
unfolding from_hex display
from_hex-display [] h = refl
from_hex-display (b ∷ t) (hb, h) =
    rw (cuts-display t h, hex_byte-hex_digit b hb, from_hex-display t h) refl

length-display : (t : Bytes) → length (display t) ≡ 2 * length t
unfolding display
length-display [] = refl
length-display (b ∷ t) = omega (arith, length-display t)

-- A name of a tenant's scope unscopes.
unscope_key-display :
    (t index : Bytes)
    → length t ≡ 16
    → All IsByte t
    → unscope_key (display t ++ (58 ∷ (58 ∷ index))) ≡ unscoped (from_le t) index
unfolding unscope_key
unscope_key-display t index size h =
    let long : (length (display t) == 32) ≡ true =
      (==_iff (length (display t)) 32).1 (omega (arith, length-display t)) in
    rw (split_scope-display t index h, long, from_hex-display t h) refl

unscope_key-unsplit : (key : Bytes) → split_scope key ≡ none → unscope_key key ≡ unscoped 0 key
unfolding unscope_key
unscope_key-unsplit key h = rw h refl

is_zero→zero : (t : Bytes) → is_zero t ≡ true → from_le t ≡ 0
unfolding is_zero
is_zero→zero t h = ap from_le ((bytes_beq_iff t zero_id).0 h)

-- No other tenant has the number 0.
zero→is_zero : (t : Bytes) → length t ≡ 16 → All IsByte t → from_le t ≡ 0 → is_zero t ≡ true
unfolding is_zero
zero→is_zero t size bytes h =
    let same : t ≡ to_le 16 0 = sym (to_le-from_le t 16 bytes size) ∙ ap (to_le 16) h in
    rw same refl

guarded :
    {A : Type 0} (a b : Bool) (x y : A)
    → (if a then none else if b then none else some x) ≡ some y
    → (a ≡ false) × (x ≡ y)
guarded true b x y e = cc
guarded false true x y e = cc
guarded false false x y e = (refl, of_some e)

accepted :
    (tenant raw_name name : Bytes)
    → scope_vindex_or_reject tenant raw_name ≡ some name
    → (is_split (split_scope raw_name) ≡ false) × (scoped_vindex_name tenant raw_name ≡ name)
unfolding scope_vindex_or_reject
accepted tenant raw_name name e =
    guarded (is_split (split_scope raw_name)) (not (name_ok raw_name))
      (scoped_vindex_name tenant raw_name) name e

unsplit : (o : Option (Bytes × Bytes)) → is_split o ≡ false → o ≡ none
unsplit none h = refl
unsplit (some p) h = cc

scope_key-anonymous : (tenant : ℕ) (index : Bytes) → tenant ≡ 0 → scope_key tenant index ≡ index
unfolding scope_key
scope_key-anonymous tenant index h = rw h refl

scope_key-tenant :
    (tenant : ℕ) (index : Bytes)
    → (tenant == 0) ≡ false
    → scope_key tenant index ≡ display (to_le 16 tenant) ++ (58 ∷ (58 ∷ index))
unfolding scope_key
scope_key-tenant tenant index h = rw h refl

scope_key-scoped_vindex_name :
    (t index : Bytes)
    → length t ≡ 16
    → All IsByte t
    → is_zero t ≡ false
    → (scope_key (from_le t) index ≡ display t ++ (58 ∷ (58 ∷ index)))
      × (scoped_vindex_name t index ≡ display t ++ (58 ∷ (58 ∷ index)))
unfolding scoped_vindex_name
scope_key-scoped_vindex_name t index size bytes h =
    let other : (from_le t == 0) ≡ false = elim (Bool-cases (from_le t == 0)) [
      | inl zero ↦ let z = zero→is_zero t size bytes ((==_iff (from_le t) 0).0 zero) in absurd cc
      | inr n ↦ n
    ] in
    (
      scope_key-tenant (from_le t) index other
          ∙ ap (λ bs. display bs ++ (58 ∷ (58 ∷ index))) (to_le-from_le t 16 bytes size),
      rw h refl,
    )

scoped_vindex_name-anonymous :
    (t index : Bytes) → is_zero t ≡ true → scoped_vindex_name t index ≡ index
unfolding scoped_vindex_name
scoped_vindex_name-anonymous t index h = rw h refl

-- The guard's name is the shard's key of the tenant, and the shard reads the tenant and the name back.
pub unscope_key-scope_vindex_or_reject :
    (tenant raw_name name : Bytes)
    → length tenant ≡ 16
    → All IsByte tenant
    → scope_vindex_or_reject tenant raw_name ≡ some name
    → (scope_key (tenant_u128 tenant) raw_name ≡ name)
      × (unscope_key name ≡ unscoped (tenant_u128 tenant) raw_name)
unfolding tenant_u128
unscope_key-scope_vindex_or_reject tenant raw_name name size bytes e =
    let (front, same) = accepted tenant raw_name name e in
    elim (Bool-cases (is_zero tenant)) [
      | inl zero ↦
          let number = is_zero→zero tenant zero in
          let plain = sym (scoped_vindex_name-anonymous tenant raw_name zero) ∙ same in
          (
            scope_key-anonymous (from_le tenant) raw_name number ∙ plain,
            ap unscope_key (sym plain)
                ∙ unscope_key-unsplit raw_name (unsplit (split_scope raw_name) front)
                ∙ ap (λ n. unscoped n raw_name) (sym number),
          )
      | inr other ↦
          let (key, scoped) = scope_key-scoped_vindex_name tenant raw_name size bytes other in
          let long = sym scoped ∙ same in
          (key ∙ long, ap unscope_key (sym long) ∙ unscope_key-display tenant raw_name size bytes)
    ]
