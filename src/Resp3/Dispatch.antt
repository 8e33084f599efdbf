-- ===== src/Resp3/Dispatch.antt =====
-- crates/skeg-resp3/src/command.rs: `HELLO`, the `SKEG.` namespace, and `parse_command`.
pub mod Request
pub mod RoundTrip
pub mod Wire
use skeg.Prelude.{
  ℕ, zero, suc, ◌+◌, ◌-◌, ◌%◌, List, [], ◌∷◌, length, drop, take, Option, none, some, Bool, true,
  false, not, ◌&&◌, ◌||◌, ltb, leb, ◌==◌, if◌then◌else◌, Bytes, bytes_beq, ℤ, parse_unsigned,
  is_utf8, codes, to_ascii_uppercase,
}
use skeg.Resp3.Frame.{Frame, Frames, array, no_frames, frame}
use skeg.Resp3.Command.{
  HelloArgs, default_hello, Command, hello, ping, echo, incr, decr, incr_by, decr_by, skeg_stats,
  skeg_shards, skeg_whoami, skeg_vindex_list, skeg_reclaim, skeg_auth, skeg_vindex_create,
  skeg_vindex_drop, skeg_vindex_consolidate, skeg_vset, skeg_vmset, skeg_vdel, skeg_vsearch,
  skeg_subject_erase, skeg_tenant_erase, skeg_tenant_delete, skeg_quota_set, skeg_quota_get,
  skeg_qos_set, skeg_qos_get, unknown, CommandError, not_an_array, empty, hello_bad_protover,
  hello_bad_auth, hello_bad_setname, hello_unknown_clause, wrong_arity, wrong_arity_skeg, Result,
  ok, err, ◌>>=◌, command_name, args_as_bytes, parse_ping, parse_echo, parse_kv_get, parse_kv_set,
  parse_kv_append, parse_kv_del, parse_kv_exists, parse_kv_mget, parse_kv_mset, incr_decr_key,
  incr_decr_by_args, parse_kv_select,
}

unfoldable pub proto_or_err : Option ℕ → Result ℕ
proto_or_err none = err hello_bad_protover
proto_or_err (some v) = if (v == 2) || (v == 3) then ok v else err hello_bad_protover

unfoldable pub protover_of : Bytes → Result ℕ
unfolding proto_or_err
protover_of first =
    if is_utf8 first then proto_or_err (parse_unsigned 256 first) else err hello_bad_protover

-- The match on a clause's name.
unfoldable pub match_clause : Bytes → Result HelloArgs → Result HelloArgs → Result HelloArgs
match_clause clause auth setname =
    let upper = to_ascii_uppercase clause in
    if not (is_utf8 clause)
    then err (hello_unknown_clause (codes "<binary>"))
    else if bytes_beq upper (codes "AUTH")
    then auth
    else if bytes_beq upper (codes "SETNAME")
    then setname
    else err (hello_unknown_clause upper)

abbrev pub with_auth : Bytes → Bytes → HelloArgs → Result HelloArgs
with_auth user pass out =
    if is_utf8 user && is_utf8 pass
    then ok (record { protover = out.protover; auth = some (user, pass); setname = out.setname })
    else err hello_bad_auth

abbrev pub with_name : Bytes → HelloArgs → Result HelloArgs
with_name name out =
    if is_utf8 name
    then ok (record { protover = out.protover; auth = out.auth; setname = some name })
    else err hello_bad_setname

-- The loop over the named clauses.
unfoldable pub hello_clauses : List Bytes → HelloArgs → Result HelloArgs
unfolding match_clause
hello_clauses [] out = ok out
hello_clauses (clause ∷ []) out = match_clause clause (err hello_bad_auth) (err hello_bad_setname)
hello_clauses (clause ∷ a ∷ []) out = match_clause clause (err hello_bad_auth) (with_name a out)
hello_clauses (clause ∷ a ∷ b ∷ args) out =
    match_clause clause (with_auth a b out >>= λ next. hello_clauses args next)
      (with_name a out >>= λ next. hello_clauses (b ∷ args) next)

unfoldable pub parse_hello : List Bytes → Result HelloArgs
unfolding protover_of hello_clauses
parse_hello [] = ok default_hello
parse_hello (first ∷ args) = protover_of first >>= λ v.
    hello_clauses args (record { protover = some v; auth = none; setname = none })

-- A command that wants a number of arguments that passes a test.
abbrev pub arity : Bool → CommandError → Command → Result Command
arity good e c = if good then ok c else err e

-- `WrongArity` and `WrongAritySkeg`
abbrev pub wrong : Bytes → CommandError
wrong name = wrong_arity name

abbrev pub want : Bytes → Bytes → CommandError
want name labels = wrong_arity_skeg name labels

unfoldable pub parse_skeg : Bytes → List Bytes → Bytes → Result Command
parse_skeg verb args raw_name =
    let n = length args in
    if bytes_beq verb (codes "STATS")
    then arity (n == 0) (wrong (codes "SKEG.STATS")) skeg_stats
    else if bytes_beq verb (codes "SHARDS")
    then arity (n == 0) (wrong (codes "SKEG.SHARDS")) skeg_shards
    else if bytes_beq verb (codes "WHOAMI")
    then arity (n == 0) (wrong (codes "SKEG.WHOAMI")) skeg_whoami
    else if bytes_beq verb (codes "AUTH")
    then ok (skeg_auth args)
    else if bytes_beq verb (codes "VINDEX.LIST")
    then arity (n == 0) (wrong (codes "SKEG.VINDEX.LIST")) skeg_vindex_list
    else if bytes_beq verb (codes "VINDEX.CREATE")
    then arity ((n == 3) || (n == 4))
        (want (codes "SKEG.VINDEX.CREATE") (codes "name dim [kind] backend"))
        (skeg_vindex_create args)
    else if bytes_beq verb (codes "SUBJECT.ERASE")
    then arity (n == 1) (wrong (codes "SKEG.SUBJECT.ERASE")) (skeg_subject_erase args)
    else if bytes_beq verb (codes "TENANT.ERASE")
    then arity (n == 1) (wrong (codes "SKEG.TENANT.ERASE")) (skeg_tenant_erase args)
    else if bytes_beq verb (codes "TENANT.DELETE")
    then arity (n == 1) (wrong (codes "SKEG.TENANT.DELETE")) (skeg_tenant_delete args)
    else if bytes_beq verb (codes "RECLAIM")
    then arity (n == 0) (wrong (codes "SKEG.RECLAIM")) skeg_reclaim
    else if bytes_beq verb (codes "VINDEX.DROP")
    then arity (n == 1) (wrong (codes "SKEG.VINDEX.DROP")) (skeg_vindex_drop args)
    else if bytes_beq verb (codes "VINDEX.CONSOLIDATE")
    then arity (n == 1) (wrong (codes "SKEG.VINDEX.CONSOLIDATE")) (skeg_vindex_consolidate args)
    else if bytes_beq verb (codes "VSET")
    then arity ((n == 3) || (n == 5))
        (want (codes "SKEG.VSET") (codes "name id vector [PAYLOAD blob]")) (skeg_vset args)
    else if bytes_beq verb (codes "VMSET")
    then arity (not (ltb n 4 || not ((n - 1) % 3 == 0)))
        (want (codes "SKEG.VMSET") (codes "name (id vector payload)+")) (skeg_vmset args)
    else if bytes_beq verb (codes "VDEL")
    then arity (n == 2) (want (codes "SKEG.VDEL") (codes "name id")) (skeg_vdel args)
    else if bytes_beq verb (codes "VSEARCH")
    then arity (leb 4 n && leb n 7)
        (want (codes "SKEG.VSEARCH") (codes "name k l_search vector [WITHPAYLOAD] [FILTER expr]"))
        (skeg_vsearch args)
    else if bytes_beq verb (codes "QUOTA.SET")
    then arity (n == 3) (want (codes "SKEG.QUOTA.SET") (codes "tenant max_vectors max_disk_bytes"))
        (skeg_quota_set args)
    else if bytes_beq verb (codes "QUOTA.GET")
    then arity (n == 1) (want (codes "SKEG.QUOTA.GET") (codes "tenant")) (skeg_quota_get args)
    else if bytes_beq verb (codes "QOS.SET")
    then arity (n == 4) (want (codes "SKEG.QOS.SET") (codes "tenant rate burst max_concurrent"))
        (skeg_qos_set args)
    else if bytes_beq verb (codes "QOS.GET")
    then arity (n == 1) (want (codes "SKEG.QOS.GET") (codes "tenant")) (skeg_qos_get args)
    else ok (unknown raw_name args)

abbrev pub hello_command : Result HelloArgs → Result Command
hello_command o = o >>= λ a. ok (hello a)

abbrev pub ping_command : Result (Option Bytes) → Result Command
ping_command o = o >>= λ a. ok (ping a)

abbrev pub echo_command : Result Bytes → Result Command
echo_command o = o >>= λ a. ok (echo a)

abbrev pub key_command : (Bytes → Command) → Result Bytes → Result Command
key_command c o = o >>= λ key. ok (c key)

abbrev pub delta_command : (Bytes → ℤ → Command) → Result (Bytes × ℤ) → Result Command
delta_command c o = o >>= λ p. ok (c p.0 p.1)

-- The match of `parse_command` on the name in capitals.
unfoldable pub dispatch : Bytes → Bytes → List Bytes → Result Command
unfolding parse_hello parse_ping parse_echo parse_kv_get parse_kv_set parse_kv_append parse_kv_del
    parse_kv_exists parse_kv_mget parse_kv_mset incr_decr_key incr_decr_by_args parse_kv_select
    parse_skeg
dispatch upper name args =
    if bytes_beq upper (codes "HELLO")
    then hello_command (parse_hello args)
    else if bytes_beq upper (codes "PING")
    then ping_command (parse_ping args)
    else if bytes_beq upper (codes "ECHO")
    then echo_command (parse_echo args)
    else if bytes_beq upper (codes "GET")
    then parse_kv_get args
    else if bytes_beq upper (codes "SET")
    then parse_kv_set args
    else if bytes_beq upper (codes "APPEND")
    then parse_kv_append args
    else if bytes_beq upper (codes "DEL")
    then parse_kv_del args
    else if bytes_beq upper (codes "EXISTS")
    then parse_kv_exists args
    else if bytes_beq upper (codes "MGET")
    then parse_kv_mget args
    else if bytes_beq upper (codes "MSET")
    then parse_kv_mset args
    else if bytes_beq upper (codes "INCR")
    then key_command incr (incr_decr_key args)
    else if bytes_beq upper (codes "DECR")
    then key_command decr (incr_decr_key args)
    else if bytes_beq upper (codes "INCRBY")
    then delta_command incr_by (incr_decr_by_args args)
    else if bytes_beq upper (codes "DECRBY")
    then delta_command decr_by (incr_decr_by_args args)
    else if bytes_beq upper (codes "SELECT")
    then parse_kv_select args
    else if bytes_beq (take 5 upper) (codes "SKEG.")
    then parse_skeg (drop 5 upper) args name
    else ok (unknown name args)

unfoldable pub parse_items : Frames → Result Command
unfolding command_name args_as_bytes dispatch
parse_items no_frames = err empty
parse_items (frame f fs) = command_name f >>= λ name.
    args_as_bytes fs >>= λ args. dispatch (to_ascii_uppercase name) name args

unfoldable pub parse_command : Frame → Result Command
unfolding parse_items
parse_command (array items) = parse_items items
parse_command _ = err not_an_array
