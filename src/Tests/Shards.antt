-- ===== src/Tests/Shards.antt =====
-- Names and the registry of vector indexes on concrete values.
use skeg.Prelude.{
  ℕ, ◌↔◌, List, All, arith, ◌≡◌, refl, Bytes, [], ◌∷◌, ◌++◌, none, some, replicate, to_le,
  length-to_le, to_le-IsByte,
}
use skeg.Vector.Kind.{from_wire, to_wire, turbo_quant, validate_dim, valid}
use skeg.Vector.Kind.Wire.{Fills, from_wire-to_wire}
use skeg.Server.Registry.{
  write_entries, write_registry, read_registry, read_entries, from_utf8_lossy, lossy_from,
}
use skeg.Server.Registry.Entries.{IsEntry, kept, IsRead}
use skeg.Server.Registry.RoundTrip.{read_registry-write_registry}
use skeg.Server.Mget.{found, serves, mget_scoped, ok}
use skeg.Server.Mget.Gathered.{mget_scoped-values}
use skeg.Tenant.Namespace.{TenantId, display, is_zero}
use skeg.Server.Scope.{
  scope_vindex_or_reject, from_hex, split_scope, name_ok, scope_key, unscope_key, tenant_u128,
  unscoped, panicked,
}
use skeg.Server.Scope.RoundTrip.{unscope_key-scope_vindex_or_reject}

abbrev tenant : TenantId
tenant = to_le 16 200

abbrev idx : Bytes
idx = 105 ∷ 100 ∷ 120 ∷ []

abbrev scoped_idx : Bytes
scoped_idx = 99 ∷ 56 ∷ [] ++ display (to_le 15 0) ++ (58 ∷ 58 ∷ idx)

idx_accepted : scope_vindex_or_reject tenant idx ≡ some scoped_idx
unfolding scope_vindex_or_reject display is_zero name_ok
idx_accepted = refl

unscope_key-scope_vindex_or_reject_example :
    (scope_key (tenant_u128 tenant) idx ≡ scoped_idx)
    × (unscope_key scoped_idx ≡ unscoped (tenant_u128 tenant) idx)
unscope_key-scope_vindex_or_reject_example =
    unscope_key-scope_vindex_or_reject tenant idx scoped_idx (length-to_le 16 200)
      (to_le-IsByte 16 200) idx_accepted

-- `0é`, then 29 times `0`.
abbrev digits_29 : Bytes
digits_29 = replicate 29 48

abbrev odd_name : Bytes
odd_name = 48 ∷ 195 ∷ 169 ∷ [] ++ digits_29 ++ (58 ∷ 58 ∷ idx)

-- No tenant gets the guard's leave for it, but the shard panics on it.
odd_name-panics : unscope_key odd_name ≡ panicked
unfolding unscope_key split_scope from_hex
odd_name-panics = refl

odd_name_rejected : scope_vindex_or_reject tenant odd_name ≡ none
unfolding scope_vindex_or_reject split_scope
odd_name_rejected = refl

abbrev two_entries : List (Bytes × ℕ × ℕ)
two_entries = (idx, 8, 1) ∷ (97 ∷ 98 ∷ [], 384, 4) ∷ []

two_entries-IsEntry : All IsEntry two_entries
two_entries-IsEntry = (
  ((omega arith, (omega arith, (omega arith, tt))), omega arith, omega arith, omega arith),
  (((omega arith, (omega arith, tt)), omega arith, omega arith, omega arith), tt),
)

abbrev cut_file : Bytes
cut_file = 83 ∷ 86 ∷ 73 ∷ 50 ∷ 2 ∷ 0 ∷ 0 ∷ 0 ∷ 3 ∷ 0 ∷ 105 ∷ 100 ∷ 120 ∷ 8 ∷ 0 ∷ 0 ∷ 0 ∷ 1 ∷ 2 ∷ []

abbrev lost : Bytes
lost = 0 ∷ 97 ∷ 98 ∷ 128 ∷ 1 ∷ 0 ∷ 0 ∷ 4 ∷ []

cut_file-lost : cut_file ++ lost ≡ write_registry two_entries
unfolding write_registry write_entries
cut_file-lost = refl

read_registry-write_registry_example : IsRead lost (read_registry (some cut_file)) two_entries
read_registry-write_registry_example =
    read_registry-write_registry two_entries cut_file lost two_entries-IsEntry (omega arith)
      cut_file-lost

-- The file as cut still gives its first entry.
read_registry_cut : read_registry (some cut_file) ≡ kept (idx, 8, 1) ∷ []
unfolding read_registry read_entries from_utf8_lossy lossy_from from_wire
read_registry_cut = refl

from_wire-to_wire_example :
    ((to_wire (turbo_quant 2) ≡ some 4) ↔ (from_wire 4 ≡ some (turbo_quant 2)))
    × (to_wire (turbo_quant 2) ≡ some 4
        → (validate_dim (turbo_quant 2) 384 ≡ valid) ↔ Fills (turbo_quant 2) 384)
from_wire-to_wire_example = from_wire-to_wire (turbo_quant 2) 4 384

-- Keys go to the shard of their first byte; a shard holds each key under its own bytes.
abbrev first_byte : Bytes → ℕ
first_byte [] = 0
first_byte (b ∷ bs) = b

abbrev three_keys : List Bytes
three_keys = (7 ∷ []) ∷ (4 ∷ []) ∷ (5 ∷ []) ∷ []

mget_scoped-values_example :
    mget_scoped first_byte (λ s. serves (λ key. found (some key))) 2 three_keys
    ≡ ok (some (7 ∷ []) ∷ some (4 ∷ []) ∷ some (5 ∷ []) ∷ [])
mget_scoped-values_example =
    mget_scoped-values first_byte 2 (λ s key. found (some key)) (λ key. some key) three_keys
      (omega arith) (λ i key e. refl)
