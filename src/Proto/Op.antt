-- ===== src/Proto/Op.antt =====
-- crates/skeg-proto/src/op.rs: the operation codes. `Ok` and `Err` are named `ok_reply` and
-- `err_reply`.
use skeg.Prelude.{ℕ, ◌==◌, ◌≡◌, ◌<◌, refl, arith, Option, none, some, if◌then◌else◌}

pub data Op : Type 0 where
  get set del mget mset exists mexists vindex_create : Op
  vindex_drop vset vget vdel vsearch vindex_list ping stats : Op
  flush shards native_hello ok_reply err_reply continued : Op

unfoldable pub to_u8 : Op → ℕ
to_u8 get = 0x01
to_u8 set = 0x02
to_u8 del = 0x03
to_u8 mget = 0x04
to_u8 mset = 0x05
to_u8 exists = 0x06
to_u8 mexists = 0x07
to_u8 vindex_create = 0x10
to_u8 vindex_drop = 0x11
to_u8 vset = 0x12
to_u8 vget = 0x13
to_u8 vdel = 0x14
to_u8 vsearch = 0x15
to_u8 vindex_list = 0x16
to_u8 ping = 0x80
to_u8 stats = 0x81
to_u8 flush = 0x82
to_u8 shards = 0x83
to_u8 native_hello = 0x84
to_u8 ok_reply = 0xC0
to_u8 err_reply = 0xC1
to_u8 continued = 0xC2

unfoldable pub from_u8 : ℕ → Option Op
from_u8 v =
    if v == 0x01
    then some get
    else if v == 0x02
    then some set
    else if v == 0x03
    then some del
    else if v == 0x04
    then some mget
    else if v == 0x05
    then some mset
    else if v == 0x06
    then some exists
    else if v == 0x07
    then some mexists
    else if v == 0x10
    then some vindex_create
    else if v == 0x11
    then some vindex_drop
    else if v == 0x12
    then some vset
    else if v == 0x13
    then some vget
    else if v == 0x14
    then some vdel
    else if v == 0x15
    then some vsearch
    else if v == 0x16
    then some vindex_list
    else if v == 0x80
    then some ping
    else if v == 0x81
    then some stats
    else if v == 0x82
    then some flush
    else if v == 0x83
    then some shards
    else if v == 0x84
    then some native_hello
    else if v == 0xC0
    then some ok_reply
    else if v == 0xC1
    then some err_reply
    else if v == 0xC2
    then some continued
    else none

pub from_u8-to_u8 : (op : Op) → from_u8 (to_u8 op) ≡ some op
unfolding from_u8 to_u8
from_u8-to_u8 get = refl
from_u8-to_u8 _ = refl

pub to_u8-lt : (op : Op) → to_u8 op < 256
unfolding to_u8
to_u8-lt get = omega arith
to_u8-lt _ = omega arith
