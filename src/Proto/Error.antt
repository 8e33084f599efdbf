-- ===== src/Proto/Error.antt =====
-- The parse errors of crates/skeg-proto/src/lib.rs, and the result monad over them. The message of an
-- invalid payload is a tag.
use skeg.Prelude.{ℕ, Bool, Option, none, some, if◌then◌else◌}

pub data Reason : Type 0 where
  key_too_short key_truncated set_too_short set_truncated mget_too_short : Reason
  mget_count mget_header_truncated mget_key_truncated : Reason
  name_header_truncated name_truncated dim_header_truncated body_truncated : Reason
  u64_truncated u32_truncated kind_missing backend_missing : Reason

pub data ParseError : Type 0 where
  invalid_magic : ℕ → ℕ → ParseError
  invalid_version : ℕ → ParseError
  unknown_op : ℕ → ParseError
  frame_too_large : ℕ → ℕ → ParseError
  invalid_flags : ℕ → ParseError
  invalid_payload : Reason → ParseError

pub data Parsed {ℓ} (A : Type ℓ) : Type ℓ where
  ok : A → Parsed A
  err : ParseError → Parsed A

infixl 5 ◌>>=◌
abbrev pub ◌>>=◌ {ℓ κ} : {A : Type ℓ} {B : Type κ} → Parsed A → (A → Parsed B) → Parsed B
ok a >>= f = f a
err e >>= f = err e

-- An early return with an error.
abbrev pub ensure : Bool → ParseError → Parsed (Unit {0})
ensure passed e = if passed then ok tt else err e

abbrev pub ok_or {ℓ} : {A : Type ℓ} → Option A → ParseError → Parsed A
ok_or none e = err e
ok_or (some a) e = ok a
