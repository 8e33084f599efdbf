-- ===== src/Tenant/Namespace.antt =====
-- crates/skeg-tenant/src/id.rs and namespace.rs: a tenant's id is 16 bytes, and prefixes its keys and
-- index names. `xxh3_128` is the function of the xxhash crate. Strings are their bytes.
use skeg.Prelude.{
  ℕ, ◌+◌, ◌/◌, ◌%◌, Bytes, [], ◌∷◌, ◌++◌, Option, none, some, Bool, to_le, take, drop, length,
  zeros, ltb, bytes_beq, if◌then◌else◌,
}

abbrev pub id_len : ℕ
id_len = 16

abbrev pub TenantId : Type 0
TenantId = Bytes

abbrev pub zero_id : TenantId
zero_id = zeros 16

unfoldable pub is_zero : TenantId → Bool
is_zero id = bytes_beq id zero_id

unfoldable pub from_name : (Bytes → ℕ) → Bytes → TenantId
from_name xxh3_128 name = to_le 16 (xxh3_128 name)

unfoldable pub scoped_key : TenantId → Bytes → Bytes
unfolding is_zero
scoped_key tenant key = if is_zero tenant then key else tenant ++ key

unfoldable pub split_scoped_key : Bytes → Option (TenantId × Bytes)
split_scoped_key scoped =
    if ltb (length scoped) id_len then none else some (take id_len scoped, drop id_len scoped)

-- The digit of `{:02x}`, in ASCII.
unfoldable pub hex_digit : ℕ → ℕ
hex_digit n = if ltb n 10 then 48 + n else 87 + n

unfoldable pub display : TenantId → Bytes
unfolding hex_digit
display [] = []
display (b ∷ bs) = hex_digit (b / 16) ∷ (hex_digit (b % 16) ∷ display bs)

unfoldable pub scoped_vindex_name : TenantId → Bytes → Bytes
unfolding is_zero display
scoped_vindex_name tenant name =
    if is_zero tenant then name else display tenant ++ (58 ∷ (58 ∷ name))
