-- ===== src/Core/Vlog/Race.antt =====
-- Two sets of one key at once: what the store's lack of a lock around `set` does to the disk quota.
use skeg.Prelude.{
  ℕ, ◌+◌, ◌≡◌, refl, ap, ◌∙◌, arith, Bytes, none, some, true, ◌==◌, ==_iff, nat_key, bytes_key,
  lookup, insert, weight, Unique-insert, total-insert, lookup-insert_self, total,
}
use skeg.Core.Index
use skeg.Core.Index.{Index, IndexEntry, fingerprint}
use skeg.Core.Vlog.{VLog, tenant_from_key, tenant_disk_bytes, charge_set, apply_set}
use skeg.Core.Vlog.Disk.{size_for, IsCharged, weight-own}
use skeg.Core.Vlog.Limit.{charge_set-own}

-- Where every tenant is charged just what the indexes of all shards hold for its keys, two sets of one key
-- that has no record, where the second begins before the first has ended, so that both have read that
-- there is no earlier record, leave the tenant charged the size of the first record as well, although
-- the index holds the second alone.
pub apply_set_double_charge :
    (xxh3 : Bytes → ℕ) (key : Bytes) (seg1 seg2 off1 off2 size1 size2 : ℕ) (v : VLog)
    (elsewhere : ℕ → ℕ)
    → IsCharged elsewhere v
    → Index.get v.index key ≡ none
    → tenant_disk_bytes
        (tenant_from_key key)
        (apply_set xxh3 key none seg2 off2 size2 (apply_set xxh3 key none seg1 off1 size1 v))
      ≡ elsewhere (tenant_from_key key)
        + total
            (size_for (tenant_from_key key))
            (apply_set xxh3 key none seg2 off2 size2
              (apply_set xxh3 key none seg1 off1 size1 v)).index.map
        + size1
unfolding apply_set tenant_disk_bytes Index.set Index.get
apply_set_double_charge xxh3 key seg1 seg2 off1 off2 size1 size2 v elsewhere a absent =
    let t = tenant_from_key key in
    let m = v.index.map in
    let e1 : IndexEntry = record {
      fingerprint = fingerprint xxh3 key;
      segment_id = seg1;
      pad = 0;
      offset = off1;
      size = size1;
    } in
    let e2 : IndexEntry = record {
      fingerprint = fingerprint xxh3 key;
      segment_id = seg2;
      pad = 0;
      offset = off2;
      size = size2;
    } in
    let self : (t == t) ≡ true = (==_iff t t).1 refl in
    let one = charge_set-own key 0 size1 v.tenant_disk in
    let two = charge_set-own key 0 size2 (charge_set key 0 size1 v.tenant_disk) in
    let first = total-insert (size_for t) key e1 m a.unique in
    let second =
      total-insert (size_for t) key e2 (insert key e1 m) (Unique-insert key e1 m a.unique) in
    let fresh : weight (size_for t) key (lookup key m) ≡ 0 = ap (weight (size_for t) key) absent in
    let again : weight (size_for t) key (lookup key (insert key e1 m)) ≡ size1 =
      ap (weight (size_for t) key) (lookup-insert_self key e1 m)
      ∙ weight-own t key (some e1) self in
    let w1 : size_for t key e1 ≡ size1 = weight-own t key (some e1) self in
    let w2 : size_for t key e2 ≡ size2 = weight-own t key (some e2) self in
    two ∙ omega (arith, one, first, second, fresh, again, w1, w2, a.charged t)
