-- ===== src/Vector/Kind.antt =====
-- `QuantKind` of crates/skeg-vector/src/quant.rs: its wire bytes, and the dimensions it takes.
pub mod Wire
use skeg.Prelude.{
  ℕ, ◌*◌, ◌/◌, ◌%◌, Bool, true, false, ◌&&◌, List, [], ◌∷◌, Option, none, some, ◌==◌, if◌then◌else◌,
}

pub data QuantKind : Type 0 where
  f32 int8 binary : QuantKind
  pq : ℕ → ℕ → QuantKind
  turbo_quant : ℕ → QuantKind

-- The derived `==`.
abbrev pub kind_beq : QuantKind → QuantKind → Bool
kind_beq f32 f32 = true
kind_beq int8 int8 = true
kind_beq binary binary = true
kind_beq (pq m k) (pq n j) = (m == n) && (k == j)
kind_beq (turbo_quant b) (turbo_quant c) = b == c
kind_beq a b = false

abbrev pub wire_kinds : List (ℕ × QuantKind)
wire_kinds =
    (0, f32)
    ∷ (1, int8)
    ∷ (2, binary)
    ∷ (3, turbo_quant 1)
    ∷ (4, turbo_quant 2)
    ∷ (5, turbo_quant 4)
    ∷ []

abbrev pub find_byte : ℕ → List (ℕ × QuantKind) → Option QuantKind
find_byte byte [] = none
find_byte byte ((b, kind) ∷ rest) =
    let later = find_byte byte rest in if b == byte then some kind else later

abbrev pub find_kind : QuantKind → List (ℕ × QuantKind) → Option ℕ
find_kind kind [] = none
find_kind kind ((b, k) ∷ rest) =
    let later = find_kind kind rest in if kind_beq k kind then some b else later

unfoldable pub from_wire : ℕ → Option QuantKind
from_wire byte = find_byte byte wire_kinds

unfoldable pub to_wire : QuantKind → Option ℕ
to_wire kind = find_kind kind wire_kinds

-- A division by zero panics.
pub data DimCheck : Type 0 where
  valid invalid panicked : DimCheck

abbrev pub divides : ℕ → ℕ → DimCheck
divides d dim = if d == 0 then panicked else if dim % d == 0 then valid else invalid

unfoldable pub validate_dim : QuantKind → ℕ → DimCheck
validate_dim (turbo_quant bits) dim = if bits == 0 then panicked else divides (8 / bits) dim
validate_dim (pq m k) dim = if m == 0 then invalid else divides m dim
validate_dim f32 dim = valid
validate_dim int8 dim = valid
validate_dim binary dim = valid
