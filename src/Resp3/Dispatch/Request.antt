-- ===== src/Resp3/Dispatch/Request.antt =====
-- crates/skeg-resp3/src/command.rs: how a client writes each command, and that `parse_command` reads it.
use skeg.Prelude.{
  ℕ, ◌-◌, ◌*◌, ◌%◌, ◌≤◌, ◌≡◌, refl, ap, arith, List, [], ◌∷◌, ◌++◌, length, Option, none, some,
  true, ◌||◌, ◌==◌, Bytes, ℤ, show_int, show_nat, IsI64, parse_i64-show_int, is_utf8, codes,
  to_ascii_uppercase,
}
use skeg.Resp3.Frame.{Frames, bulk, array, no_frames, frame}
use skeg.Resp3.Parser.Written.{show_int-IsLine}
use skeg.Resp3.Command.{
  Command, ok, ◌>>=◌, arg_as_bytes, args_as_bytes, command_name, pair_args, parse_kv_mset, int_arg,
}
use skeg.Resp3.Dispatch.{dispatch, parse_items, parse_command}

-- `k1 v1 k2 v2 ..`
abbrev pub flat_pairs : List (Bytes × Bytes) → List Bytes
flat_pairs [] = []
flat_pairs ((k, v) ∷ pairs) = k ∷ v ∷ flat_pairs pairs

abbrev pub auth_clause : Option (Bytes × Bytes) → List Bytes
auth_clause none = []
auth_clause (some (user, pass)) = codes "AUTH" ∷ user ∷ pass ∷ []

abbrev pub setname_clause : Option Bytes → List Bytes
setname_clause none = []
setname_clause (some name) = codes "SETNAME" ∷ name ∷ []

abbrev pub hello_args : Option ℕ → Option (Bytes × Bytes) → Option Bytes → List Bytes
hello_args none auth setname = []
hello_args (some v) auth setname = show_nat v ∷ auth_clause auth ++ setname_clause setname

-- The name in capitals, and the arguments.
unfoldable pub request : Command → Bytes × List Bytes
request (Command.hello h) = (codes "HELLO", hello_args h.protover h.auth h.setname)
request (Command.ping none) = (codes "PING", [])
request (Command.ping (some msg)) = (codes "PING", msg ∷ [])
request (Command.echo msg) = (codes "ECHO", msg ∷ [])
request (Command.get key) = (codes "GET", key ∷ [])
request (Command.set key value) = (codes "SET", key ∷ value ∷ [])
request (Command.append key value) = (codes "APPEND", key ∷ value ∷ [])
request (Command.del keys) = (codes "DEL", keys)
request (Command.exists keys) = (codes "EXISTS", keys)
request (Command.mget keys) = (codes "MGET", keys)
request (Command.mset pairs) = (codes "MSET", flat_pairs pairs)
request (Command.incr key) = (codes "INCR", key ∷ [])
request (Command.decr key) = (codes "DECR", key ∷ [])
request (Command.incr_by key delta) = (codes "INCRBY", key ∷ show_int delta ∷ [])
request (Command.decr_by key delta) = (codes "DECRBY", key ∷ show_int delta ∷ [])
request (Command.select db) = (codes "SELECT", show_int db ∷ [])
request Command.skeg_stats = (codes "SKEG.STATS", [])
request Command.skeg_shards = (codes "SKEG.SHARDS", [])
request Command.skeg_whoami = (codes "SKEG.WHOAMI", [])
request Command.skeg_vindex_list = (codes "SKEG.VINDEX.LIST", [])
request Command.skeg_reclaim = (codes "SKEG.RECLAIM", [])
request (Command.skeg_auth args) = (codes "SKEG.AUTH", args)
request (Command.skeg_vindex_create args) = (codes "SKEG.VINDEX.CREATE", args)
request (Command.skeg_vindex_drop args) = (codes "SKEG.VINDEX.DROP", args)
request (Command.skeg_vindex_consolidate args) = (codes "SKEG.VINDEX.CONSOLIDATE", args)
request (Command.skeg_vset args) = (codes "SKEG.VSET", args)
request (Command.skeg_vmset args) = (codes "SKEG.VMSET", args)
request (Command.skeg_vdel args) = (codes "SKEG.VDEL", args)
request (Command.skeg_vsearch args) = (codes "SKEG.VSEARCH", args)
request (Command.skeg_subject_erase args) = (codes "SKEG.SUBJECT.ERASE", args)
request (Command.skeg_tenant_erase args) = (codes "SKEG.TENANT.ERASE", args)
request (Command.skeg_tenant_delete args) = (codes "SKEG.TENANT.DELETE", args)
request (Command.skeg_quota_set args) = (codes "SKEG.QUOTA.SET", args)
request (Command.skeg_quota_get args) = (codes "SKEG.QUOTA.GET", args)
request (Command.skeg_qos_set args) = (codes "SKEG.QOS.SET", args)
request (Command.skeg_qos_get args) = (codes "SKEG.QOS.GET", args)
request (Command.unknown name args) = (to_ascii_uppercase name, args)

abbrev pub IsUtf8Pair : Option (Bytes × Bytes) → Type 0
IsUtf8Pair none = Unit
IsUtf8Pair (some (user, pass)) = (is_utf8 user ≡ true) × (is_utf8 pass ≡ true)

abbrev pub IsUtf8Name : Option Bytes → Type 0
IsUtf8Name none = Unit
IsUtf8Name (some name) = is_utf8 name ≡ true

-- The version is 2 or 3, and without one there are no clauses.
abbrev pub IsHello : Option ℕ → Option (Bytes × Bytes) → Option Bytes → Type 0
IsHello none auth setname = (auth ≡ none) × (setname ≡ none)
IsHello (some v) auth setname =
    (((v == 2) || (v == 3)) ≡ true) × IsUtf8Pair auth × IsUtf8Name setname

-- What a client may send: as many arguments as the command wants, and numbers that an i64 holds. The
-- commands that the server does not know are left out.
unfoldable pub IsRequest : Command → Type 0
IsRequest (Command.hello h) = IsHello h.protover h.auth h.setname
IsRequest (Command.del keys) = 1 ≤ length keys
IsRequest (Command.exists keys) = 1 ≤ length keys
IsRequest (Command.mget keys) = 1 ≤ length keys
IsRequest (Command.mset pairs) = 1 ≤ length pairs
IsRequest (Command.incr_by key delta) = IsI64 delta
IsRequest (Command.decr_by key delta) = IsI64 delta
IsRequest (Command.select db) = IsI64 db
IsRequest (Command.skeg_vindex_create args) = ((length args == 3) || (length args == 4)) ≡ true
IsRequest (Command.skeg_vindex_drop args) = length args ≡ 1
IsRequest (Command.skeg_vindex_consolidate args) = length args ≡ 1
IsRequest (Command.skeg_vset args) = ((length args == 3) || (length args == 5)) ≡ true
IsRequest (Command.skeg_vmset args) = (4 ≤ length args) × ((length args - 1) % 3 ≡ 0)
IsRequest (Command.skeg_vdel args) = length args ≡ 2
IsRequest (Command.skeg_vsearch args) = (4 ≤ length args) × (length args ≤ 7)
IsRequest (Command.skeg_subject_erase args) = length args ≡ 1
IsRequest (Command.skeg_tenant_erase args) = length args ≡ 1
IsRequest (Command.skeg_tenant_delete args) = length args ≡ 1
IsRequest (Command.skeg_quota_set args) = length args ≡ 3
IsRequest (Command.skeg_quota_get args) = length args ≡ 1
IsRequest (Command.skeg_qos_set args) = length args ≡ 4
IsRequest (Command.skeg_qos_get args) = length args ≡ 1
IsRequest (Command.unknown name args) = 1 ≤ 0
IsRequest _ = Unit

abbrev pub bulks : List Bytes → Frames
bulks [] = no_frames
bulks (b ∷ bs) = frame (bulk b) (bulks bs)

args_as_bytes-bulks : (args : List Bytes) → args_as_bytes (bulks args) ≡ ok args
unfolding args_as_bytes arg_as_bytes
args_as_bytes-bulks [] = refl
args_as_bytes-bulks (b ∷ bs) = ap (λ o. o >>= λ cs. ok (b ∷ cs)) (args_as_bytes-bulks bs)

pub parse_command-dispatch :
    (name : Bytes) (args : List Bytes)
    → is_utf8 name ≡ true
    → parse_command (array (frame (bulk name) (bulks args)))
      ≡ dispatch (to_ascii_uppercase name) name args
unfolding parse_command parse_items command_name
parse_command-dispatch name args u =
    rw u
      (ap (λ o. o >>= λ bs. dispatch (to_ascii_uppercase name) name bs) (args_as_bytes-bulks args))

pair_args-flat_pairs : (pairs : List (Bytes × Bytes)) → pair_args (flat_pairs pairs) ≡ pairs
unfolding pair_args
pair_args-flat_pairs [] = refl
pair_args-flat_pairs ((k, v) ∷ pairs) = ap (λ ps. (k, v) ∷ ps) (pair_args-flat_pairs pairs)

length-flat_pairs : (pairs : List (Bytes × Bytes)) → length (flat_pairs pairs) ≡ length pairs * 2
length-flat_pairs [] = omega arith
length-flat_pairs ((k, v) ∷ pairs) = omega (arith, length-flat_pairs pairs)

pub mset-reads :
    (pairs : List (Bytes × Bytes))
    → 1 ≤ length pairs
    → parse_kv_mset (flat_pairs pairs) ≡ ok (Command.mset pairs)
unfolding parse_kv_mset
mset-reads pairs h = ground (arith, length-flat_pairs pairs, pair_args-flat_pairs pairs)

pub int_arg-show_int : (e : _) (i : ℤ) → IsI64 i → int_arg e (show_int i) ≡ ok i
unfolding int_arg
int_arg-show_int e i h = rw ((show_int-IsLine i).utf8, parse_i64-show_int i h) refl
