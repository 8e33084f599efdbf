-- ===== src/Vector/Kind/Wire.antt =====
-- The wire bytes and the kinds that have one.
use skeg.Prelude.{ℕ, ◌*◌, ◌%◌, ◌≡◌, ◌<◌, ◌⊎◌, inl, inr, ◌↔◌, refl, arith, sym, some, of_some}
use skeg.Vector.Kind.{
  QuantKind, f32, int8, binary, pq, turbo_quant, from_wire, to_wire, validate_dim, valid, divides,
}

to_wire→from_wire : (k : QuantKind) (byte : ℕ) → to_wire k ≡ some byte → from_wire byte ≡ some k
unfolding to_wire from_wire
to_wire→from_wire f32 byte h = rw (sym (of_some h)) refl
to_wire→from_wire int8 byte h = rw (sym (of_some h)) refl
to_wire→from_wire binary byte h = rw (sym (of_some h)) refl
to_wire→from_wire (pq m k) byte h = cc
to_wire→from_wire (turbo_quant b) byte h = ground arith

from_wire→to_wire : (k : QuantKind) (byte : ℕ) → from_wire byte ≡ some k → to_wire k ≡ some byte
unfolding to_wire from_wire
from_wire→to_wire k byte h = ground arith

-- The codes of a TurboQuant vector fill whole bytes; the other kinds with a wire byte ask for nothing.
abbrev pub Fills : QuantKind → ℕ → Type 0
Fills (turbo_quant bits) dim = dim * bits % 8 ≡ 0
Fills k dim = Unit

wire_bits :
    (bits byte : ℕ)
    → to_wire (turbo_quant bits) ≡ some byte
    → (bits ≡ 1) ⊎ ((bits ≡ 2) ⊎ (bits ≡ 4))
unfolding to_wire
wire_bits bits byte h = ground arith

divides_iff : (d dim : ℕ) → 0 < d → (divides d dim ≡ valid) ↔ (dim % d ≡ 0)
divides_iff d dim h = ground arith

validate_dim-Fills :
    (k : QuantKind) (byte dim : ℕ)
    → to_wire k ≡ some byte
    → (validate_dim k dim ≡ valid) ↔ Fills k dim
unfolding validate_dim to_wire
validate_dim-Fills f32 byte dim h = (λ e. tt, λ e. refl)
validate_dim-Fills int8 byte dim h = (λ e. tt, λ e. refl)
validate_dim-Fills binary byte dim h = (λ e. tt, λ e. refl)
validate_dim-Fills (pq m k) byte dim h = absurd cc
validate_dim-Fills (turbo_quant bits) byte dim h = elim (wire_bits bits byte h) [
  | inl one ↦ rw one (λ e. ground arith, λ e. ground arith)
  | inr (inl two) ↦ rw two (λ e. ground arith, λ e. ground arith)
  | inr (inr four) ↦ rw four (λ e. ground arith, λ e. ground arith)
]

-- The byte of a kind decodes to the kind, and no other byte does. Of the kinds that have a byte,
-- TurboQuant takes just the dimensions whose codes fill whole bytes, and the others take every dimension.
pub from_wire-to_wire :
    (k : QuantKind) (byte dim : ℕ)
    → ((to_wire k ≡ some byte) ↔ (from_wire byte ≡ some k))
      × (to_wire k ≡ some byte → (validate_dim k dim ≡ valid) ↔ Fills k dim)
from_wire-to_wire k byte dim =
    ((to_wire→from_wire k byte, from_wire→to_wire k byte), validate_dim-Fills k byte dim)
