-- ===== src/Tests/Stores.antt =====
-- A store of one tenant on concrete writes. The hash is a toy: the length.
use skeg.Prelude.{
  ℕ, ◌≤◌, ◌≡◌, ◌<◌, ◌↔◌, refl, true, Assoc, nat_key, lookup, arith, bytes_key, total, ◌+◌, Bytes,
  [], ◌∷◌, replicate, Option, none, some, length,
}
use skeg.Core.Error.{Result, ok, err, disk_quota}
use skeg.Core.Record.{padded_record_size}
use skeg.Core.Index
use skeg.Core.Cache.{new, insert_for, insert_at, insert_new, make_room, place}
use skeg.Core.Vlog.{
  Answer, VLog, or_zero, tenant_from_key, tenant_disk_bytes, maybe_rotate, answered, reserve,
  append_raw, over_quota, with_cache, finish_set, apply_set, set_scoped, del,
}
use skeg.Core.Vlog.Disk.{size_for, IsCharged, set_scoped-IsCharged}
use skeg.Core.Vlog.Race.{apply_set_double_charge}
use skeg.Core.Vlog.Limit.{charge_after, del-IsCharged, set_scoped_within_limit}

abbrev hash : Bytes → ℕ
hash bs = length bs

abbrev key : Bytes
key = replicate 16 1

-- What another shard charges the key's tenant.
abbrev shared : Assoc ℕ ℕ
shared = (tenant_from_key key, 256) ∷ []

abbrev elsewhere : ℕ → ℕ
elsewhere t = or_zero (lookup t shared)

abbrev fine : Answer
fine = record { created = true; offset = some 0 }

abbrev next : Answer
next = record { created = true; offset = some 128 }

abbrev empty_store : VLog
empty_store = record {
  max_seg_size = 4096;
  read_segments = record { id = 0; live = 0 } ∷ [];
  index = Index.new;
  cache = new Bytes 10000;
  tenant_disk = shared;
  active_id = 0;
  active_size = 0;
  clock = 1;
}

abbrev outcome : Option (VLog × Result (Unit {0})) → VLog × Result (Unit {0})
outcome none = (empty_store, err disk_quota)
outcome (some p) = p

abbrev written : VLog × Result (Unit {0})
written = outcome (set_scoped hash fine key (7 ∷ []) 0 (some 1000) empty_store)

set-returns :
    set_scoped hash fine key (7 ∷ []) 0 (some 1000) empty_store ≡ some (written.0, written.1)
unfolding set_scoped over_quota tenant_disk_bytes append_raw maybe_rotate reserve answered
    finish_set with_cache Index.get insert_for insert_at insert_new make_room place Index.new
    padded_record_size new
set-returns = refl

empty-IsCharged : IsCharged elsewhere empty_store
unfolding Index.new tenant_disk_bytes
empty-IsCharged = record { unique = tt; charged = λ t. omega arith }

set_scoped-IsCharged_example : IsCharged elsewhere written.0
set_scoped-IsCharged_example =
    set_scoped-IsCharged elsewhere hash fine key (7 ∷ []) 0 (some 1000) empty_store written.0
      written.1 empty-IsCharged set-returns

del-IsCharged_example : IsCharged elsewhere (del next key written.0).0
del-IsCharged_example = del-IsCharged elsewhere next key written.0 (
    set_scoped-IsCharged elsewhere hash fine key (7 ∷ []) 0 (some 1000) empty_store written.0
      written.1 empty-IsCharged set-returns)

set_scoped_within_limit_example :
    ((written.1 ≡ err disk_quota) ↔ (1000 < charge_after key (7 ∷ []) empty_store))
    × (written.1 ≡ err disk_quota → written.0 ≡ empty_store)
    × (written.1 ≡ ok tt → tenant_disk_bytes (tenant_from_key key) written.0 ≤ 1000)
set_scoped_within_limit_example =
    set_scoped_within_limit hash fine key (7 ∷ []) 0 1000 empty_store written.0 written.1
      (omega arith) set-returns

empty-absent : Index.get empty_store.index key ≡ none
unfolding Index.get Index.new
empty-absent = refl

apply_set_double_charge_example :
    tenant_disk_bytes
      (tenant_from_key key)
      (apply_set hash key none 0 128 128 (apply_set hash key none 0 0 128 empty_store))
    ≡ elsewhere (tenant_from_key key)
      + total
          (size_for (tenant_from_key key))
          (apply_set hash key none 0 128 128
            (apply_set hash key none 0 0 128 empty_store)).index.map
      + 128
apply_set_double_charge_example =
    apply_set_double_charge hash key 0 0 0 128 128 128 empty_store elsewhere empty-IsCharged
      empty-absent
