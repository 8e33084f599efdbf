-- ===== src/Resp3/Command.antt =====
-- crates/skeg-resp3/src/command.rs: commands, and `parse_command`. A name is its bytes.

use skeg.Prelude.{
  ℕ, ◌%◌, List, [], ◌∷◌, length, Option, none, some, Bool, true, false, not, ◌||◌, ◌==◌,
  if◌then◌else◌, Bytes, ℤ, parse_i64, is_utf8, codes,
}
use skeg.Resp3.Frame.{Frame, Frames, simple, bulk, no_frames, frame}

pub record HelloArgs : Type 0 where
  pub protover : Option ℕ
  pub auth : Option (Bytes × Bytes)
  pub setname : Option Bytes

abbrev pub default_hello : HelloArgs
default_hello = record { protover = none; auth = none; setname = none }

pub data Command : Type 0 where
  hello : HelloArgs → Command
  ping : Option Bytes → Command
  echo : Bytes → Command
  get : Bytes → Command
  set : Bytes → Bytes → Command
  append : Bytes → Bytes → Command
  del : List Bytes → Command
  exists : List Bytes → Command
  mget : List Bytes → Command
  mset : List (Bytes × Bytes) → Command
  incr : Bytes → Command
  decr : Bytes → Command
  incr_by : Bytes → ℤ → Command
  decr_by : Bytes → ℤ → Command
  select : ℤ → Command
  skeg_stats skeg_shards skeg_whoami skeg_vindex_list skeg_reclaim : Command
  skeg_auth : List Bytes → Command
  skeg_vindex_create : List Bytes → Command
  skeg_vindex_drop : List Bytes → Command
  skeg_vindex_consolidate : List Bytes → Command
  skeg_vset : List Bytes → Command
  skeg_vmset : List Bytes → Command
  skeg_vdel : List Bytes → Command
  skeg_vsearch : List Bytes → Command
  skeg_subject_erase : List Bytes → Command
  skeg_tenant_erase : List Bytes → Command
  skeg_tenant_delete : List Bytes → Command
  skeg_quota_set : List Bytes → Command
  skeg_quota_get : List Bytes → Command
  skeg_qos_set : List Bytes → Command
  skeg_qos_get : List Bytes → Command
  unknown : Bytes → List Bytes → Command

pub data CommandError : Type 0 where
  not_an_array empty bad_name name_invalid_utf8 bad_arg : CommandError
  hello_bad_protover hello_bad_auth hello_bad_setname : CommandError
  hello_unknown_clause : Bytes → CommandError
  ping_arity : ℕ → CommandError
  echo_arity : ℕ → CommandError
  wrong_arity : Bytes → CommandError
  select_invalid_index not_an_integer : CommandError
  wrong_arity_skeg : Bytes → Bytes → CommandError

pub data Result (A : Type 0) : Type 0 where
  ok : A → Result A
  err : CommandError → Result A

infixl 20 ◌>>=◌
abbrev pub ◌>>=◌ : {A B : Type 0} → Result A → (A → Result B) → Result B
ok a >>= k = k a
err e >>= k = err e

abbrev pub named : Bytes → Bool → Result Bytes
named s true = ok s
named s false = err name_invalid_utf8

unfoldable pub command_name : Frame → Result Bytes
command_name (bulk b) = named b (is_utf8 b)
command_name (simple s) = ok s
command_name _ = err bad_name

unfoldable pub arg_as_bytes : Frame → Result Bytes
arg_as_bytes (bulk b) = ok b
arg_as_bytes (simple s) = ok s
arg_as_bytes _ = err bad_arg

-- `collect` into a result: the first error.
unfoldable pub args_as_bytes : Frames → Result (List Bytes)
unfolding arg_as_bytes
args_as_bytes no_frames = ok []
args_as_bytes (frame f fs) = arg_as_bytes f >>= λ b. args_as_bytes fs >>= λ bs. ok (b ∷ bs)

unfoldable pub parse_ping : List Bytes → Result (Option Bytes)
parse_ping [] = ok none
parse_ping (msg ∷ []) = ok (some msg)
parse_ping args = err (ping_arity (length args))

unfoldable pub parse_echo : List Bytes → Result Bytes
parse_echo (msg ∷ []) = ok msg
parse_echo args = err (echo_arity (length args))

unfoldable pub parse_kv_get : List Bytes → Result Command
parse_kv_get (key ∷ []) = ok (get key)
parse_kv_get _ = err (wrong_arity (codes "GET"))

unfoldable pub parse_kv_set : List Bytes → Result Command
parse_kv_set (key ∷ value ∷ []) = ok (set key value)
parse_kv_set _ = err (wrong_arity (codes "SET"))

unfoldable pub parse_kv_append : List Bytes → Result Command
parse_kv_append (key ∷ value ∷ []) = ok (append key value)
parse_kv_append _ = err (wrong_arity (codes "APPEND"))

unfoldable pub parse_kv_del : List Bytes → Result Command
parse_kv_del [] = err (wrong_arity (codes "DEL"))
parse_kv_del (k ∷ keys) = ok (del (k ∷ keys))

unfoldable pub parse_kv_exists : List Bytes → Result Command
parse_kv_exists [] = err (wrong_arity (codes "EXISTS"))
parse_kv_exists (k ∷ keys) = ok (exists (k ∷ keys))

unfoldable pub parse_kv_mget : List Bytes → Result Command
parse_kv_mget [] = err (wrong_arity (codes "MGET"))
parse_kv_mget (k ∷ keys) = ok (mget (k ∷ keys))

-- The loop over an even number of arguments.
unfoldable pub pair_args : List Bytes → List (Bytes × Bytes)
pair_args [] = []
pair_args (k ∷ []) = []
pair_args (k ∷ v ∷ args) = (k, v) ∷ pair_args args

unfoldable pub parse_kv_mset : List Bytes → Result Command
unfolding pair_args
parse_kv_mset args =
    if (length args == 0) || not (length args % 2 == 0)
    then err (wrong_arity (codes "MSET"))
    else ok (mset (pair_args args))

unfoldable pub incr_decr_key : List Bytes → Result Bytes
incr_decr_key (key ∷ []) = ok key
incr_decr_key _ = err (wrong_arity (codes "INCR/DECR"))

abbrev pub int_or_err : CommandError → Option ℤ → Result ℤ
int_or_err e none = err e
int_or_err e (some i) = ok i

-- `from_utf8`, then `parse`
unfoldable pub int_arg : CommandError → Bytes → Result ℤ
int_arg e b = if is_utf8 b then int_or_err e (parse_i64 b) else err e

unfoldable pub incr_decr_by_args : List Bytes → Result (Bytes × ℤ)
unfolding int_arg
incr_decr_by_args (key ∷ by ∷ []) = int_arg not_an_integer by >>= λ delta. ok (key, delta)
incr_decr_by_args _ = err (wrong_arity (codes "INCRBY/DECRBY"))

unfoldable pub parse_kv_select : List Bytes → Result Command
unfolding int_arg
parse_kv_select (db ∷ []) = int_arg select_invalid_index db >>= λ i. ok (select i)
parse_kv_select _ = err (wrong_arity (codes "SELECT"))
