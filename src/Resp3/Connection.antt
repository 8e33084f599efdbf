-- ===== src/Resp3/Connection.antt =====
-- crates/skeg-resp3/src/connection.rs and handlers.rs: the state of a connection, and the replies to
-- HELLO, PING and ECHO.
use skeg.Prelude.{ℕ, Option, none, some, ◌==◌, if◌then◌else◌, Bytes, ℤ, codes}
use skeg.Resp3.Frame.{
  Frame, simple, bulk, integer, array, map_of, no_frames, no_pairs, pair, ProtoVersion, resp2,
  resp3, is_resp3,
}
use skeg.Resp3.Command.{HelloArgs}

pub record ConnectionState : Type 0 where
  pub id : ℤ
  pub version : ProtoVersion
  pub name : Option Bytes

unfoldable pub new : ℤ → ConnectionState
new id = record { id = id; version = resp2; name = none }

abbrev pub version_of : Option ℕ → ProtoVersion → ProtoVersion
version_of none version = version
version_of (some v) version = if v == 3 then resp3 else resp2

abbrev pub name_of : Option Bytes → Option Bytes → Option Bytes
name_of none name = name
name_of (some n) name = some n

abbrev pub proto : ProtoVersion → ℕ
proto version = if is_resp3 version then 3 else 2

-- The reply, in the state after the change.
unfoldable pub hello_reply : ConnectionState → Bytes → Frame
hello_reply s server_version = map_of (
    pair (bulk (codes "server")) (bulk (codes "skeg")) (
      pair (bulk (codes "version")) (bulk server_version) (
        pair (bulk (codes "proto")) (integer (ℤ.pos (proto s.version))) (
          pair (bulk (codes "id")) (integer s.id) (
            pair (bulk (codes "mode")) (bulk (codes "standalone")) (
              pair (bulk (codes "role")) (bulk (codes "master"))
                (pair (bulk (codes "modules")) (array no_frames) no_pairs)))))))

unfoldable pub greeted : ConnectionState → HelloArgs → ConnectionState
greeted s args = record {
  id = s.id;
  version = version_of args.protover s.version;
  name = name_of args.setname s.name;
}

unfoldable pub apply_hello : ConnectionState → HelloArgs → Bytes → Frame × ConnectionState
unfolding hello_reply greeted
apply_hello s args server_version =
    let after = greeted s args in (hello_reply after server_version, after)

unfoldable pub handle_ping : Option Bytes → Frame
handle_ping none = simple (codes "PONG")
handle_ping (some msg) = bulk msg

unfoldable pub handle_echo : Bytes → Frame
handle_echo msg = bulk msg
