-- ===== src/Core/Vlog/Limit.antt =====
-- What a delete releases, and what a limit refuses.
use skeg.Prelude.{
  ℕ, ◌+◌, ◌-◌, ◌%◌, ◌^◌, ◌<◌, ◌≤◌, ◌≡◌, inl, inr, refl, ap, sym, ◌∙◌, arith, Bytes, [], Option,
  none, some, of_some, Bool, true, false, min, length, ltb, ltb→le, ltb→lt, ◌↔◌, ◌==◌, ==_iff,
  if◌then◌else◌, Bool-cases, Option-cases, Assoc, nat_key, bytes_key, lookup, remove, Unique,
  Unique-remove, total, total-remove, lookup-remove,
}
use skeg.Core.Error.{Error, Result, ok, err, disk_quota}
use skeg.Core.Record.{padded_record_size}
use skeg.Core.Index
use skeg.Core.Index.{Index, IndexEntry, fingerprint}
use skeg.Core.Cache
use skeg.Core.Cache.{S3Fifo}
use skeg.Core.Vlog.{
  Answer, VLog, tenant_from_key, or_zero, tenant_disk_bytes, size_or_zero, append_raw, charge_set,
  answered, reserve, maybe_rotate, over_quota, apply_set, with_cache, finish_set, ticked,
  set_scoped, sub_disk, charge_del, apply_del, finish_del, del_found, del,
}
use skeg.Core.Vlog.Disk.{
  size_for, IsCharged, Matches, insert-or_zero, weight-own, weight-other, append_raw-same,
  IsCharged-same,
}

remove-or_zero :
    (own t : ℕ) (disk : Assoc ℕ ℕ)
    → or_zero (lookup t (remove own disk)) ≡ (if own == t then 0 else or_zero (lookup t disk))
remove-or_zero own t disk = ap or_zero (lookup-remove own t disk) ∙ outside (own == t)
  where
    outside :
        (b : Bool)
        → or_zero (if b then none else lookup t disk) ≡ (if b then 0 else or_zero (lookup t disk))
    outside true = refl
    outside false = refl

sub_disk-or_zero :
    (own t size : ℕ) (disk : Assoc ℕ ℕ)
    → or_zero (lookup t (sub_disk own size (lookup own disk) disk))
      ≡ (if own == t then or_zero (lookup own disk) - size else or_zero (lookup t disk))
unfolding sub_disk
sub_disk-or_zero own t size disk = elim (Option-cases (lookup own disk)) [
  | inl absent ↦
      rw (absent, sub_disk)
        (elim (Bool-cases (own == t)) [
          | inl same ↦
              let at_t : or_zero (lookup own disk) ≡ or_zero (lookup t disk) =
                ap (λ j. or_zero (lookup j disk)) ((==_iff own t).0 same) in
              rw same (omega (arith, at_t, ap or_zero absent))
          | inr other ↦ rw other refl
        ])
  | inr (n, found) ↦ elim (Bool-cases (n - size == 0)) [
    | inl gone ↦
        let none_left : n - size ≡ 0 = (==_iff (n - size) 0).0 gone in
        rw (found, sub_disk)
          (rw (gone, sub_disk) (remove-or_zero own t disk ∙ zeroed (own == t) n none_left))
    | inr left ↦ rw (found, sub_disk) (rw (left, sub_disk) (insert-or_zero own t (n - size) disk))
  ]
]
  where
    zeroed :
        (b : Bool) (n : ℕ)
        → n - size ≡ 0
        → (if b then 0 else or_zero (lookup t disk))
          ≡ (if b then n - size else or_zero (lookup t disk))
    zeroed true n h = sym h
    zeroed false n h = refl

charge_del-Matches :
    (elsewhere : ℕ → ℕ) (key : Bytes) (prev : IndexEntry) (m : Assoc Bytes IndexEntry)
    (disk : Assoc ℕ ℕ)
    → Unique m
    → lookup key m ≡ some prev
    → Matches elsewhere m disk
    → Matches elsewhere (remove key m) (charge_del key prev.size disk)
unfolding charge_del
charge_del-Matches elsewhere key prev m disk u found h t =
    let own = tenant_from_key key in
    let part : total (size_for t) (remove key m) + size_for t key prev ≡ total (size_for t) m =
      rw found at (total-remove (size_for t) key m u) in
    sub_disk-or_zero own t prev.size disk ∙ (elim (Bool-cases (own == t)) [
      | inl same ↦
          let at_t : or_zero (lookup own disk) ≡ or_zero (lookup t disk) =
            ap (λ j. or_zero (lookup j disk)) ((==_iff own t).0 same) in
          let charge : size_for t key prev ≡ prev.size = weight-own t key (some prev) same in
          rw same (omega (arith, at_t, h t, part, charge))
      | inr other ↦
          let charge : size_for t key prev ≡ 0 = weight-other t key (some prev) other in
          rw other (omega (arith, h t, part, charge))
    ])

apply_del-IsCharged :
    (elsewhere : ℕ → ℕ) (key : Bytes) (prev : IndexEntry) (v : VLog)
    → Index.get v.index key ≡ some prev
    → IsCharged elsewhere v
    → IsCharged elsewhere (apply_del key prev v)
unfolding apply_del Index.get Index.remove_key tenant_disk_bytes
apply_del-IsCharged elsewhere key prev v found a = record {
  unique = Unique-remove key v.index.map a.unique;
  charged =
      charge_del-Matches elsewhere key prev v.index.map v.tenant_disk a.unique found a.charged;
}

finish_del-IsCharged :
    (elsewhere : ℕ → ℕ) (key : Bytes) (prev : IndexEntry) (p : VLog × Result ℕ)
    → Index.get p.0.index key ≡ some prev
    → IsCharged elsewhere p.0
    → IsCharged elsewhere (finish_del key prev p).0
unfolding finish_del
finish_del-IsCharged elsewhere key prev (v, err e) found a = a
finish_del-IsCharged elsewhere key prev (v, ok offset) found a =
    apply_del-IsCharged elsewhere key prev v found a

-- Where every tenant is charged just what the indexes of this shard and of the others hold for its keys, a
-- delete, of a key that is there or not, whole or failed, leaves it so, whatever the others hold; no
-- other call runs at the same time.
pub del-IsCharged :
    (elsewhere : ℕ → ℕ) (answer : Answer) (key : Bytes) (v : VLog)
    → IsCharged elsewhere v
    → IsCharged elsewhere (del answer key v).0
unfolding del del_found
del-IsCharged elsewhere answer key v a =
    let (index, disk) = append_raw-same answer key [] (ticked v) in
    elim (Option-cases (Index.get v.index key)) [
      | inl absent ↦ rw (absent, del_found) a
      | inr (prev, found) ↦
          rw (found, del_found)
            (finish_del-IsCharged elsewhere key prev (append_raw answer key [] (ticked v))
              (ap (λ i. Index.get i key) index ∙ found)
              (IsCharged-same elsewhere v (append_raw answer key [] (ticked v)).0 index disk a))
    ]

-- The charge after a set that succeeded.
with_cache-disk :
    (o : Option (S3Fifo Bytes)) (v w : VLog) (r : Result (Unit {0}))
    → with_cache v o ≡ some (w, r)
    → w.tenant_disk ≡ v.tenant_disk
unfolding with_cache
with_cache-disk none v w r h = absurd (cc)
with_cache-disk (some c) v w r h =
    sym (ap (λ (p : VLog × Result (Unit {0})). p.0.tenant_disk) (of_some h))

finish_set-disk :
    (xxh3 : Bytes → ℕ) (key value : Bytes) (tenant : ℕ) (prev : Option IndexEntry)
    (p : VLog × Result ℕ) (w : VLog)
    → finish_set xxh3 key value tenant prev p ≡ some (w, ok tt)
    → w.tenant_disk
      ≡ charge_set key
          (size_or_zero prev)
          (padded_record_size (length key) (length value) % 2 ^ 32)
          p.0.tenant_disk
unfolding finish_set apply_set
finish_set-disk xxh3 key value tenant prev (v, err e) w h = absurd (cc)
finish_set-disk xxh3 key value tenant prev (v, ok offset) w h =
    let padded = padded_record_size (length key) (length value) % 2 ^ 32 in
    with_cache-disk (Cache.insert_for xxh3 key value (length value) tenant v.cache)
      (apply_set xxh3 key prev v.active_id offset padded v) w (ok tt) h

pub charge_set-own :
    (key : Bytes) (old n : ℕ) (disk : Assoc ℕ ℕ)
    → or_zero (lookup (tenant_from_key key) (charge_set key old n disk))
      ≡ or_zero (lookup (tenant_from_key key) disk) - old + n
unfolding charge_set
charge_set-own key old n disk =
    let t = tenant_from_key key in
    insert-or_zero t t (or_zero (lookup t disk) - old + n) disk
    ∙ ap (λ b. if b then or_zero (lookup t disk) - old + n else or_zero (lookup t disk))
        ((==_iff t t).1 refl)

-- Whether a call is refused for the quota.
abbrev is_quota : Error → Bool
is_quota disk_quota = true
is_quota _ = false

abbrev is_refused : {A : Type 0} → Result A → Bool
is_refused (ok a) = false
is_refused (err e) = is_quota e

answered_unrefused : (o : Option ℕ) → is_refused (answered o) ≡ false
unfolding answered
answered_unrefused none = refl
answered_unrefused (some offset) = refl

-- An append fails for other reasons only.
append_raw_unrefused :
    (answer : Answer) (key value : Bytes) (v : VLog)
    → is_refused (append_raw answer key value v).1 ≡ false
unfolding append_raw maybe_rotate reserve
append_raw_unrefused answer key value v =
    let incoming = padded_record_size (length key) (length value) in
    elim (Bool-cases (ltb v.max_seg_size (v.active_size + incoming))) [
      | inr fits ↦ rw (fits, reserve) (answered_unrefused answer.offset)
      | inl full ↦ elim (Bool-cases (ltb (v.active_id + 1) (2 ^ 16))) [
        | inr last ↦ rw (full, last, reserve) refl
        | inl next ↦ elim (Bool-cases answer.created) [
          | inl made ↦ rw (full, next, made, reserve) (answered_unrefused answer.offset)
          | inr failed ↦ rw (full, next, failed, reserve) refl
        ]
      ]
    ]

with_cache_unrefused :
    (v : VLog) (c : Option (S3Fifo Bytes)) (w : VLog) (r : Result (Unit {0}))
    → with_cache v c ≡ some (w, r)
    → is_refused r ≡ false
unfolding with_cache
with_cache_unrefused v none w r h = absurd cc
with_cache_unrefused v (some c) w r h = ap (λ p. is_refused p.1) (sym (of_some h))

finish_set_unrefused :
    (xxh3 : Bytes → ℕ) (key value : Bytes) (tenant : ℕ) (prev : Option IndexEntry)
    (p : VLog × Result ℕ) (w : VLog) (r : Result (Unit {0}))
    → is_refused p.1 ≡ false
    → finish_set xxh3 key value tenant prev p ≡ some (w, r)
    → is_refused r ≡ false
unfolding finish_set
finish_set_unrefused xxh3 key value tenant prev (v, err e) w r fine h =
    ap (λ p. is_refused p.1) (sym (of_some h)) ∙ fine
finish_set_unrefused xxh3 key value tenant prev (v, ok offset) w r fine h =
    with_cache_unrefused
      (apply_set xxh3 key prev v.active_id offset
        (padded_record_size (length key) (length value) % 2 ^ 32) v)
      (Cache.insert_for xxh3 key value (length value) tenant v.cache) w r h

-- What the tenant of the key would be charged after the set, cut to 64 bits.
abbrev pub charge_after : Bytes → Bytes → VLog → ℕ
charge_after key value v =
    min
      (tenant_disk_bytes (tenant_from_key key) v
        - size_or_zero (Index.get v.index key)
        + padded_record_size (length key) (length value))
      (2 ^ 64 - 1)

accepted_within :
    (xxh3 : Bytes → ℕ) (answer : Answer) (key value : Bytes) (tenant limit : ℕ) (v w : VLog)
    → limit < 2 ^ 64 - 1
    → charge_after key value v ≤ limit
    → finish_set xxh3 key value tenant
        (Index.get v.index key)
        (append_raw answer key value (ticked v))
      ≡ some (w, ok tt)
    → tenant_disk_bytes (tenant_from_key key) w ≤ limit
unfolding tenant_disk_bytes
accepted_within xxh3 answer key value tenant limit v w small fits done =
    let padded = padded_record_size (length key) (length value) in
    let t = tenant_from_key key in
    let old = size_or_zero (Index.get v.index key) in
    let u = append_raw answer key value (ticked v) in
    let (index, disk) = append_raw-same answer key value (ticked v) in
    let after = finish_set-disk xxh3 key value tenant (Index.get v.index key) u w done in
    let own =
      ap (λ d. or_zero (lookup t d)) after
      ∙ charge_set-own key old (padded % 2 ^ 32) u.0.tenant_disk in
    let before = ap (λ d. or_zero (lookup t d)) disk in omega (arith, own, before, fits)

-- Under a disk limit below 2^64 - 1, a set that returns is refused for the quota just if it would bring
-- the charge of the key's tenant above the limit; if it is refused, the store is as it was; and if it
-- succeeds, the tenant is charged at most the limit.
pub set_scoped_within_limit :
    (xxh3 : Bytes → ℕ) (answer : Answer) (key value : Bytes) (tenant limit : ℕ) (v w : VLog)
    (r : Result (Unit {0}))
    → limit < 2 ^ 64 - 1
    → set_scoped xxh3 answer key value tenant (some limit) v ≡ some (w, r)
    → ((r ≡ err disk_quota) ↔ (limit < charge_after key value v))
      × (r ≡ err disk_quota → w ≡ v)
      × (r ≡ ok tt → tenant_disk_bytes (tenant_from_key key) w ≤ limit)
unfolding set_scoped over_quota tenant_disk_bytes
set_scoped_within_limit xxh3 answer key value tenant limit v w r small h =
    let charge = charge_after key value v in
    elim (Bool-cases (ltb limit charge)) [
      | inl over ↦
          let same : (v, err disk_quota) ≡ (w, r) = of_some (rw over at h) in
          let refused = sym (ap (λ p. p.1) same) in
          (
            (λ e. ltb→lt limit charge over, λ lt. refused),
            λ e. sym (ap (λ p. p.0) same),
            λ success. absurd cc,
          )
      | inr room ↦
          let done = rw room at h in
          let fits = ltb→le limit charge room in
          let other =
            finish_set_unrefused xxh3 key value tenant (Index.get v.index key)
              (append_raw answer key value (ticked v)) w r
              (append_raw_unrefused answer key value (ticked v)) done in
          let never : r ≡ err disk_quota → 1 ≤ 0 =
            λ e. let clash : true ≡ false = sym (ap is_refused e) ∙ other in absurd cc in
          (
            (λ e. absurd (omega (arith, never e)), λ lt. absurd (omega (arith, lt, fits))),
            λ e. absurd (omega (arith, never e)),
            λ success.
                accepted_within xxh3 answer key value tenant limit v w small fits
                  (rw success at done),
          )
    ]
