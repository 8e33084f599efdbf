-- ===== src/Server/Registry.antt =====
-- The registry of vector indexes, `write_registry` and `read_registry` of crates/skeg-server/src/shard.rs.
-- Names are their bytes. The temporary file and the rename are not modelled.
pub mod Entries
pub mod RoundTrip
use skeg.Prelude.{
  ℕ, zero, suc, ◌+◌, Bool, true, false, ◌&&◌, Bytes, List, [], ◌∷◌, ◌++◌, Option, none, some, to_le,
  from_le, slice, take, drop, length, ltb, leb, bytes_beq, ◌==◌, if◌then◌else◌,
}
use skeg.Vector.Kind.{QuantKind, from_wire}

abbrev pub vindex_registry_v2_magic : Bytes
vindex_registry_v2_magic = 83 ∷ 86 ∷ 73 ∷ 50 ∷ []

pub record RegistryEntry : Type 0 where
  pub name : Bytes
  pub dim : ℕ
  pub kind : Option ℕ

unfoldable pub write_entries : List (Bytes × ℕ × ℕ) → Bytes
write_entries [] = []
write_entries ((name, dim, kind) ∷ entries) =
    to_le 2 (length name) ++ (name ++ (to_le 4 dim ++ (kind ∷ write_entries entries)))

-- The bytes of the file.
unfoldable pub write_registry : List (Bytes × ℕ × ℕ) → Bytes
unfolding write_entries
write_registry entries =
    vindex_registry_v2_magic ++ (to_le 4 (length entries) ++ write_entries entries)

-- How many bytes a character has, from its first byte; 0 where none starts with it.
abbrev pub width : ℕ → ℕ
width a =
    if ltb a 128
    then 1
    else if ltb a 194
    then 0
    else if ltb a 224
    then 2
    else if ltb a 240
    then 3
    else if ltb a 245
    then 4
    else 0

abbrev pub second_byte : ℕ → ℕ → Bool
second_byte a b =
    if a == 224
    then leb 160 b && leb b 191
    else if a == 237
    then leb 128 b && leb b 159
    else if a == 240
    then leb 144 b && leb b 191
    else if a == 244
    then leb 128 b && leb b 143
    else leb 128 b && leb b 191

-- Whether `b` may stand behind the bytes of a character that is not complete.
abbrev pub extends : Bytes → ℕ → Bool
extends [] b = false
extends (a ∷ []) b = second_byte a b
extends (a ∷ (c ∷ cs)) b = leb 128 b && leb b 191

abbrev pub is_full : Bytes → Bool
is_full [] = true
is_full (a ∷ cs) = length (a ∷ cs) == width a

-- The replacement character, for what is left of a character.
abbrev pub replaced : Bytes → Bytes
replaced [] = []
replaced (a ∷ cs) = 239 ∷ 191 ∷ 189 ∷ []

pub data Start : Type 0 where
  single begins broken : Start

abbrev pub start_of : ℕ → Start
start_of b = if width b == 1 then single else if width b == 0 then broken else begins

-- `String::from_utf8_lossy`, behind the bytes `cur` of a character.
unfoldable pub lossy_from : Bytes → Bytes → Bytes
lossy_from cur [] = replaced cur
lossy_from cur (b ∷ s) = elim (extends cur b) [
  | true ↦ elim (is_full (cur ++ (b ∷ []))) [
    | true ↦ cur ++ (b ∷ lossy_from [] s)
    | false ↦ lossy_from (cur ++ (b ∷ [])) s
  ]
  | false ↦ elim (start_of b) [
    | single ↦ replaced cur ++ (b ∷ lossy_from [] s)
    | begins ↦ replaced cur ++ lossy_from (b ∷ []) s
    | broken ↦ replaced cur ++ (replaced (b ∷ []) ++ lossy_from [] s)
  ]
]

unfoldable pub from_utf8_lossy : Bytes → Bytes
unfolding lossy_from
from_utf8_lossy s = lossy_from [] s

abbrev pub has_kind : ℕ → Option QuantKind → Option ℕ
has_kind kind none = none
has_kind kind (some k) = some kind

abbrev pub known_kind : Bool → ℕ → Option ℕ
known_kind false kind = none
known_kind true kind = has_kind kind (from_wire kind)

abbrev pub kind_len : Bool → ℕ
kind_len true = 1
kind_len false = 0

abbrev pub entry_at : Bool → Bytes → ℕ → ℕ → RegistryEntry
entry_at versioned bytes pos nlen = record {
  name = from_utf8_lossy (slice (pos + 2) nlen bytes);
  dim = from_le (slice (pos + 2 + nlen) 4 bytes);
  kind = known_kind versioned (from_le (slice (pos + 2 + nlen + 4) 1 bytes));
}

-- The loop over `n` entries.
unfoldable pub read_entries : ℕ → Bool → Bytes → ℕ → List RegistryEntry
unfolding from_utf8_lossy from_wire
read_entries zero versioned bytes pos = []
read_entries (suc n) versioned bytes pos =
    let nlen = from_le (slice pos 2 bytes) in
    let next = pos + 2 + nlen + 4 + kind_len versioned in
    let rest = read_entries n versioned bytes next in
    if ltb (length bytes) (pos + 2)
    then []
    else if ltb (length bytes) (pos + 2 + nlen + (4 + kind_len versioned))
    then []
    else entry_at versioned bytes pos nlen ∷ rest

abbrev pub read_from : Bool → Bytes → ℕ → List RegistryEntry
read_from versioned bytes pos =
    let count = from_le (slice pos 4 bytes) in
    let entries = read_entries count versioned bytes (pos + 4) in
    if ltb (length bytes) (pos + 4) then [] else entries

-- `none` where there is no file.
unfoldable pub read_registry : Option Bytes → List RegistryEntry
unfolding read_entries
read_registry none = []
read_registry (some bytes) =
    if bytes_beq (take 4 bytes) vindex_registry_v2_magic
    then read_from true bytes 4
    else read_from false bytes 0
