-- ===== src/Proto/Flags.antt =====
-- crates/skeg-proto/src/flags.rs: a frame's flags, the eight lowest bits of a 32-bit number.
use skeg.Prelude.{ℕ, ◌/◌, ◌==◌, ◌<◌, ◌≡◌, arith, Option, none, some, if◌then◌else◌}

pub record Flags : Type 0 where
  pub bits : ℕ

abbrev pub empty : Flags
empty = record { bits = 0 }

abbrev pub no_reply : Flags
no_reply = record { bits = 2 }

abbrev pub set_nx : Flags
set_nx = record { bits = 64 }

abbrev pub set_xx : Flags
set_xx = record { bits = 128 }

-- `from_bits` refuses a number with a bit above the eighth.
unfoldable pub from_bits : ℕ → Option Flags
from_bits raw = if raw / 256 == 0 then some (record { bits = raw }) else none

pub from_bits-known : (f : Flags) → f.bits < 256 → from_bits f.bits ≡ some f
unfolding from_bits
from_bits-known f h = ground arith
