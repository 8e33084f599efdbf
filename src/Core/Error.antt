-- ===== src/Core/Error.antt =====
-- The error type of crates/skeg-core/src/lib.rs, and the result monad over it. I/O errors come from
-- the platform layer and carry no text here; the message of an invalid record is a tag.
use skeg.Prelude.{ℕ}

pub data Message : Type 0 where
  short_header short_payload missing_segment batch_too_large batch_exceeds_segment : Message
  segment_id_overflow : Message

pub data Error : Type 0 where
  io : Error
  crc_mismatch : ℕ → ℕ → Error
  invalid_record : Message → Error
  unknown_kind : ℕ → Error
  disk_quota : Error

pub data Result {ℓ} (A : Type ℓ) : Type ℓ where
  ok : A → Result A
  err : Error → Result A

infixl 5 ◌>>=◌
abbrev pub ◌>>=◌ {ℓ κ} : {A : Type ℓ} {B : Type κ} → Result A → (A → Result B) → Result B
ok a >>= f = f a
err e >>= f = err e
