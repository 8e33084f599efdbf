-- ===== src/Resp3/Dispatch/RoundTrip.antt =====
-- crates/skeg-resp3/src/command.rs: `parse_command` reads back every command that a client may send.
use skeg.Prelude.{
  ℕ, ◌≡◌, ◌∙◌, refl, ap, subst, sym, arith, [], ◌∷◌, ◌++◌, Option, none, some, true, ◌||◌, ◌==◌,
  ==_iff, inl, inr, Bool-cases, Bytes, show_nat, show_loop, parse_unsigned, digits, is_utf8,
  from_utf8, lead, codes, to_ascii_uppercase, ascii_upper,
}
use skeg.Resp3.Frame.{bulk, array, frame}
use skeg.Resp3.Command.{
  HelloArgs, Command, Result, ok, ◌>>=◌, parse_ping, parse_echo, parse_kv_get, parse_kv_set,
  parse_kv_append, parse_kv_del, parse_kv_exists, parse_kv_mget, incr_decr_key, incr_decr_by_args,
  parse_kv_select, not_an_integer, select_invalid_index,
}
use skeg.Resp3.Dispatch.{
  proto_or_err, protover_of, match_clause, with_name, hello_clauses, parse_hello, parse_skeg,
  dispatch, hello_command, delta_command, parse_command,
}
use skeg.Resp3.Dispatch.Request.{
  auth_clause, setname_clause, hello_args, request, IsUtf8Pair, IsUtf8Name, IsHello, IsRequest,
  bulks, parse_command-dispatch, mset-reads, int_arg-show_int,
}

auth-clause : (auth setname : Result HelloArgs) → match_clause (codes "AUTH") auth setname ≡ auth
unfolding match_clause is_utf8 from_utf8 lead to_ascii_uppercase ascii_upper
auth-clause auth setname = refl

setname-clause :
    (auth setname : Result HelloArgs) → match_clause (codes "SETNAME") auth setname ≡ setname
unfolding match_clause is_utf8 from_utf8 lead to_ascii_uppercase ascii_upper
setname-clause auth setname = refl

setname-reads :
    (p : Option ℕ) (auth : Option (Bytes × Bytes)) (setname : Option Bytes)
    → IsUtf8Name setname
    → hello_clauses (setname_clause setname) (record { protover = p; auth = auth; setname = none })
      ≡ ok (record { protover = p; auth = auth; setname = setname })
unfolding hello_clauses
setname-reads p auth none u = refl
setname-reads p auth (some name) u =
    setname-clause _ (with_name name (record { protover = p; auth = auth; setname = none }))
    ∙ rw u refl

clauses-read :
    (p : Option ℕ) (auth : Option (Bytes × Bytes)) (setname : Option Bytes)
    → IsUtf8Pair auth
    → IsUtf8Name setname
    → hello_clauses
        (auth_clause auth ++ setname_clause setname)
        (record { protover = p; auth = none; setname = none })
      ≡ ok (record { protover = p; auth = auth; setname = setname })
unfolding hello_clauses
clauses-read p none setname ua us = setname-reads p none setname us
clauses-read p (some (user, pass)) setname (uu, up) us =
    auth-clause _ _ ∙ rw (uu, up) (setname-reads p (some (user, pass)) setname us)

protover-reads : (v : ℕ) → ((v == 2) || (v == 3)) ≡ true → protover_of (show_nat v) ≡ ok v
unfolding protover_of proto_or_err parse_unsigned digits show_nat show_loop is_utf8 from_utf8 lead
protover-reads v h = elim (Bool-cases (v == 2)) [
  | inl two ↦ subst (λ n. protover_of (show_nat n) ≡ ok n) (sym ((==_iff v 2).0 two)) refl
  | inr other ↦
      let three : v ≡ 3 = ground arith in
      subst (λ n. protover_of (show_nat n) ≡ ok n) (sym three) refl
]

hello-reads :
    (p : Option ℕ) (auth : Option (Bytes × Bytes)) (setname : Option Bytes)
    → IsHello p auth setname
    → parse_hello (hello_args p auth setname)
      ≡ ok (record { protover = p; auth = auth; setname = setname })
unfolding parse_hello
hello-reads none none none h = refl
hello-reads none none (some name) (ea, es) = absurd (cc)
hello-reads none (some a) setname (ea, es) = absurd (cc)
hello-reads (some v) auth setname (hv, ua, us) =
    ap
      (λ o. o >>= λ w.
        hello_clauses (auth_clause auth ++ setname_clause setname)
          (record { protover = some w; auth = none; setname = none }))
      (protover-reads v hv)
    ∙ clauses-read (some v) auth setname ua us

dispatch-request :
    (c : Command) (name : Bytes) → IsRequest c → dispatch (request c).0 name (request c).1 ≡ ok c
unfolding request dispatch parse_skeg parse_ping parse_echo parse_kv_get parse_kv_set
    parse_kv_append parse_kv_del parse_kv_exists parse_kv_mget incr_decr_key incr_decr_by_args
    parse_kv_select IsRequest
dispatch-request (Command.hello h) name r =
    ap hello_command (hello-reads h.protover h.auth h.setname r)
dispatch-request (Command.ping none) name r = refl
dispatch-request (Command.ping (some msg)) name r = refl
dispatch-request (Command.echo msg) name r = refl
dispatch-request (Command.get key) name r = refl
dispatch-request (Command.set key value) name r = refl
dispatch-request (Command.append key value) name r = refl
dispatch-request (Command.del []) name r = absurd (omega arith)
dispatch-request (Command.del (k ∷ keys)) name r = refl
dispatch-request (Command.exists []) name r = absurd (omega arith)
dispatch-request (Command.exists (k ∷ keys)) name r = refl
dispatch-request (Command.mget []) name r = absurd (omega arith)
dispatch-request (Command.mget (k ∷ keys)) name r = refl
dispatch-request (Command.mset pairs) name r = mset-reads pairs r
dispatch-request (Command.incr key) name r = refl
dispatch-request (Command.decr key) name r = refl
dispatch-request (Command.incr_by key delta) name r =
    ap (λ o. delta_command Command.incr_by (o >>= λ i. ok (key, i)))
      (int_arg-show_int not_an_integer delta r)
dispatch-request (Command.decr_by key delta) name r =
    ap (λ o. delta_command Command.decr_by (o >>= λ i. ok (key, i)))
      (int_arg-show_int not_an_integer delta r)
dispatch-request (Command.select db) name r =
    ap (λ o. o >>= λ i. ok (Command.select i)) (int_arg-show_int select_invalid_index db r)
dispatch-request Command.skeg_stats name r = refl
dispatch-request Command.skeg_shards name r = refl
dispatch-request Command.skeg_whoami name r = refl
dispatch-request Command.skeg_vindex_list name r = refl
dispatch-request Command.skeg_reclaim name r = refl
dispatch-request (Command.skeg_auth args) name r = refl
dispatch-request (Command.skeg_vindex_create args) name r = rw r refl
dispatch-request (Command.skeg_vindex_drop args) name r = rw r refl
dispatch-request (Command.skeg_vindex_consolidate args) name r = rw r refl
dispatch-request (Command.skeg_vset args) name r = rw r refl
dispatch-request (Command.skeg_vmset args) name r = ground arith
dispatch-request (Command.skeg_vdel args) name r = rw r refl
dispatch-request (Command.skeg_vsearch args) name r = ground arith
dispatch-request (Command.skeg_subject_erase args) name r = rw r refl
dispatch-request (Command.skeg_tenant_erase args) name r = rw r refl
dispatch-request (Command.skeg_tenant_delete args) name r = rw r refl
dispatch-request (Command.skeg_quota_set args) name r = rw r refl
dispatch-request (Command.skeg_quota_get args) name r = rw r refl
dispatch-request (Command.skeg_qos_set args) name r = rw r refl
dispatch-request (Command.skeg_qos_get args) name r = rw r refl
dispatch-request (Command.unknown n args) name r = absurd (omega arith)

-- A command that a client may send, written as an array of bulk strings with its name in any mix of
-- capital and small letters, is read back.
pub parse_command-request :
    (c : Command) (name : Bytes)
    → IsRequest c
    → is_utf8 name ≡ true
    → to_ascii_uppercase name ≡ (request c).0
    → parse_command (array (frame (bulk name) (bulks (request c).1))) ≡ ok c
parse_command-request c name r u e =
    parse_command-dispatch name (request c).1 u
    ∙ ap (λ upper. dispatch upper name (request c).1) e
    ∙ dispatch-request c name r
