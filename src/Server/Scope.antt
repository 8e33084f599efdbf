-- ===== src/Server/Scope.antt =====
-- The names of vector indexes: `scope_vindex_or_reject` of crates/skeg-server/src/resp3_handler.rs, and
-- `scope_key` and `unscope_key` of crates/skeg-server/src/shard.rs. Strings are their UTF-8 bytes.
pub mod RoundTrip
use skeg.Prelude.{
  ℕ, ◌+◌, ◌-◌, ◌*◌, Bool, true, false, not, ◌&&◌, ◌||◌, Bytes, [], ◌∷◌, ◌++◌, Option, none, some,
  to_le, from_le, length, leb, bytes_beq, ◌==◌, if◌then◌else◌,
}
use skeg.Tenant.Namespace.{TenantId, scoped_vindex_name, display}

-- `split_once("::")`
abbrev pub cons_front : ℕ → Option (Bytes × Bytes) → Option (Bytes × Bytes)
cons_front c none = none
cons_front c (some (front, back)) = some (c ∷ front, back)

unfoldable pub split_scope : Bytes → Option (Bytes × Bytes)
split_scope [] = none
split_scope (a ∷ []) = none
split_scope (a ∷ (b ∷ s)) =
    let rest = split_scope (b ∷ s) in
    if (a == 58) && (b == 58) then some ([], s) else cons_front a rest

abbrev pub is_split : Option (Bytes × Bytes) → Bool
is_split none = false
is_split (some p) = true

-- `contains("..")`
unfoldable pub has_dots : Bytes → Bool
has_dots [] = false
has_dots (a ∷ []) = false
has_dots (a ∷ (b ∷ s)) = ((a == 46) && (b == 46)) || has_dots (b ∷ s)

abbrev pub max_vindex_name_len : ℕ
max_vindex_name_len = 255

-- `is_ascii_alphanumeric`, or one of `-_.`
abbrev pub name_byte : ℕ → Bool
name_byte b =
    (leb 48 b && leb b 57)
    || (leb 65 b && leb b 90)
    || (leb 97 b && leb b 122)
    || (b == 45)
    || (b == 95)
    || (b == 46)

abbrev pub name_bytes : Bytes → Bool
name_bytes [] = true
name_bytes (b ∷ bs) = name_byte b && name_bytes bs

abbrev pub is_empty : Bytes → Bool
is_empty [] = true
is_empty (b ∷ bs) = false

unfoldable pub name_ok : Bytes → Bool
unfolding has_dots
name_ok raw_name =
    not (is_empty raw_name)
    && leb (length raw_name) max_vindex_name_len
    && not (bytes_beq raw_name (46 ∷ []))
    && not (bytes_beq raw_name (46 ∷ (46 ∷ [])))
    && not (has_dots raw_name)
    && name_bytes raw_name

-- `none` is the error reply.
unfoldable pub scope_vindex_or_reject : TenantId → Bytes → Option Bytes
unfolding split_scope name_ok scoped_vindex_name
scope_vindex_or_reject tenant raw_name =
    if is_split (split_scope raw_name)
    then none
    else if not (name_ok raw_name)
    then none
    else some (scoped_vindex_name tenant raw_name)

unfoldable pub tenant_u128 : TenantId → ℕ
tenant_u128 tenant = from_le tenant

unfoldable pub scope_key : ℕ → Bytes → Bytes
unfolding display
scope_key tenant index =
    if tenant == 0 then index else display (to_le 16 tenant) ++ (58 ∷ (58 ∷ index))

-- A digit in base 16, of either case.
abbrev pub hex_value : ℕ → Option ℕ
hex_value c =
    if leb 48 c && leb c 57
    then some (c - 48)
    else if leb 97 c && leb c 102
    then some (c - 87)
    else if leb 65 c && leb c 70
    then some (c - 55)
    else none

abbrev pub two_digits : Option ℕ → Option ℕ → Option ℕ
two_digits none low = none
two_digits (some h) none = none
two_digits (some h) (some l) = some (h * 16 + l)

-- `u8::from_str_radix` of two characters, which takes a plus sign in front of one digit.
unfoldable pub hex_byte : ℕ → ℕ → Option ℕ
hex_byte a b = if a == 43 then hex_value b else two_digits (hex_value a) (hex_value b)

-- A slice of a string panics where it cuts a character.
pub data Digits : Type 0 where
  hex : Bytes → Digits
  not_hex : Digits
  cuts_char : Digits

abbrev pub cons_byte : Option ℕ → Digits → Digits
cons_byte none rest = not_hex
cons_byte (some b) (hex bs) = hex (b ∷ bs)
cons_byte (some b) not_hex = not_hex
cons_byte (some b) cuts_char = cuts_char

abbrev pub cuts : Bytes → Bool
cuts [] = false
cuts (c ∷ cs) = leb 128 c && leb c 191

-- The loop over the pairs, which stops at the first that is no byte.
unfoldable pub from_hex : Bytes → Digits
unfolding hex_byte
from_hex [] = hex []
from_hex (a ∷ []) = not_hex
from_hex (a ∷ (b ∷ s)) =
    let rest = from_hex s in if cuts s then cuts_char else cons_byte (hex_byte a b) rest

pub data Unscoped : Type 0 where
  unscoped : ℕ → Bytes → Unscoped
  panicked : Unscoped

abbrev pub unscope_hex : Bytes → Bytes → Digits → Unscoped
unscope_hex key index (hex bs) = unscoped (from_le bs) index
unscope_hex key index not_hex = unscoped 0 key
unscope_hex key index cuts_char = panicked

abbrev pub unscope_split : Bytes → Option (Bytes × Bytes) → Unscoped
unscope_split key none = unscoped 0 key
unscope_split key (some (front, index)) =
    if length front == 32 then unscope_hex key index (from_hex front) else unscoped 0 key

unfoldable pub unscope_key : Bytes → Unscoped
unfolding split_scope from_hex
unscope_key key = unscope_split key (split_scope key)
