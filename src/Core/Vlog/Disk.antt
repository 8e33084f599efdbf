-- ===== src/Core/Vlog/Disk.antt =====
-- The disk quota of a store: what it charges each tenant, and what it refuses.
use skeg.Prelude.{
  ℕ, ◌+◌, ◌-◌, ◌%◌, ◌^◌, ◌≡◌, inl, inr, refl, ap, sym, ◌∙◌, arith, Bytes, Option, none, some,
  of_some, Bool, true, false, length, ltb, ◌==◌, if◌then◌else◌, ==_iff, Bool-cases, Assoc, nat_key,
  bytes_key, lookup, insert, Unique, Unique-insert, total, total-insert, total-remove, weight,
  lookup-insert, subst,
}
use skeg.Core.Error.{Result, ok, err}
use skeg.Core.Record.{padded_record_size}
use skeg.Core.Index
use skeg.Core.Index.{Index, IndexEntry, fingerprint}
use skeg.Core.Cache
use skeg.Core.Cache.{S3Fifo}
use skeg.Core.Vlog.{
  Answer, VLog, tenant_from_key, or_zero, tenant_disk_bytes, size_or_zero, maybe_rotate, append_raw,
  charge_set, over_quota, apply_set, with_cache, finish_set, ticked, reserve, set_scoped,
}

abbrev pub size_for : ℕ → Bytes → IndexEntry → ℕ
size_for t key e = if tenant_from_key key == t then e.size else 0

-- Every tenant is charged the sizes of the records that the index holds for its keys, and what the other
-- shards that share the charges hold for it, which is `elsewhere`.
pub record IsCharged (elsewhere : ℕ → ℕ) (v : VLog) : Type 0 where
  pub unique : Unique v.index.map
  pub charged : (t : ℕ) → tenant_disk_bytes t v ≡ elsewhere t + total (size_for t) v.index.map

abbrev pub Matches : (ℕ → ℕ) → Assoc Bytes IndexEntry → Assoc ℕ ℕ → Type 0
Matches elsewhere m disk = (t : ℕ) → or_zero (lookup t disk) ≡ elsewhere t + total (size_for t) m

pub insert-or_zero :
    (own t n : ℕ) (disk : Assoc ℕ ℕ)
    → or_zero (lookup t (insert own n disk)) ≡ (if own == t then n else or_zero (lookup t disk))
insert-or_zero own t n disk = ap or_zero (lookup-insert own t n disk) ∙ outside (own == t)
  where
    outside :
        (b : Bool)
        → or_zero (if b then some n else lookup t disk) ≡ (if b then n else or_zero (lookup t disk))
    outside true = refl
    outside false = refl

-- The weight of a key's entry for the key's own tenant, and for another.
pub weight-own :
    (t : ℕ) (key : Bytes) (o : Option IndexEntry)
    → (tenant_from_key key == t) ≡ true
    → weight (size_for t) key o ≡ size_or_zero o
weight-own t key none same = refl
weight-own t key (some p) same = ap (λ b. if b then p.size else 0) same

pub weight-other :
    (t : ℕ) (key : Bytes) (o : Option IndexEntry)
    → (tenant_from_key key == t) ≡ false
    → weight (size_for t) key o ≡ 0
weight-other t key none other = refl
weight-other t key (some p) other = ap (λ b. if b then p.size else 0) other

charge_set-Matches :
    (elsewhere : ℕ → ℕ) (key : Bytes) (e : IndexEntry) (m : Assoc Bytes IndexEntry)
    (disk : Assoc ℕ ℕ)
    → Unique m
    → Matches elsewhere m disk
    → Matches elsewhere (insert key e m) (charge_set key (size_or_zero (lookup key m)) e.size disk)
unfolding charge_set
charge_set-Matches elsewhere key e m disk u h t =
    let own = tenant_from_key key in
    let n = or_zero (lookup own disk) - size_or_zero (lookup key m) + e.size in
    let sum = total-insert (size_for t) key e m u in
    let part = total-remove (size_for t) key m u in
    insert-or_zero own t n disk ∙ (elim (Bool-cases (own == t)) [
      | inl same ↦
          let at_t : or_zero (lookup own disk) ≡ or_zero (lookup t disk) =
            ap (λ j. or_zero (lookup j disk)) ((==_iff own t).0 same) in
          let charge : size_for t key e ≡ e.size = weight-own t key (some e) same in
          rw same
            (omega (arith, at_t, h t, sum, part, charge, weight-own t key (lookup key m) same))
      | inr other ↦
          let charge : size_for t key e ≡ 0 = weight-other t key (some e) other in
          rw other (omega (arith, h t, sum, charge, weight-other t key (lookup key m) other))
    ])

-- An append changes neither the index nor the charges, even where it fails.
pub append_raw-same :
    (answer : Answer) (key value : Bytes) (v : VLog)
    → ((append_raw answer key value v).0.index ≡ v.index)
      × ((append_raw answer key value v).0.tenant_disk ≡ v.tenant_disk)
unfolding append_raw maybe_rotate reserve
append_raw-same answer key value v =
    let incoming = padded_record_size (length key) (length value) in
    elim (Bool-cases (ltb v.max_seg_size (v.active_size + incoming))) [
      | inr fits ↦ rw (fits, reserve) (refl, refl)
      | inl full ↦ elim (Bool-cases (ltb (v.active_id + 1) (2 ^ 16))) [
        | inl next ↦ elim (Bool-cases answer.created) [
          | inl made ↦ rw (full, next, made, reserve) (refl, refl)
          | inr refused ↦ rw (full, next, refused, reserve) (refl, refl)
        ]
        | inr last ↦ rw (full, last, reserve) (refl, refl)
      ]
    ]

pub IsCharged-same :
    (elsewhere : ℕ → ℕ) (v w : VLog)
    → w.index ≡ v.index
    → w.tenant_disk ≡ v.tenant_disk
    → IsCharged elsewhere v
    → IsCharged elsewhere w
unfolding tenant_disk_bytes
IsCharged-same elsewhere v w index disk a = record {
  unique = subst (λ (i : Index). Unique i.map) (sym index) a.unique;
  charged = λ t.
      ap (λ d. or_zero (lookup t d)) disk
      ∙ a.charged t
      ∙ ap (λ (i : Index). elsewhere t + total (size_for t) i.map) (sym index);
}

pub apply_set-IsCharged :
    (elsewhere : ℕ → ℕ) (xxh3 : Bytes → ℕ) (key : Bytes) (seg_id offset padded : ℕ) (v : VLog)
    → IsCharged elsewhere v
    → IsCharged elsewhere (apply_set xxh3 key (Index.get v.index key) seg_id offset padded v)
unfolding apply_set Index.set Index.get tenant_disk_bytes
apply_set-IsCharged elsewhere xxh3 key seg_id offset padded v a =
    let e : IndexEntry = record {
      fingerprint = fingerprint xxh3 key;
      segment_id = seg_id;
      pad = 0;
      offset = offset;
      size = padded;
    } in
    record {
      unique = Unique-insert key e v.index.map a.unique;
      charged = charge_set-Matches elsewhere key e v.index.map v.tenant_disk a.unique a.charged;
    }

with_cache-IsCharged :
    (elsewhere : ℕ → ℕ) (o : Option (S3Fifo Bytes)) (v w : VLog) (r : Result (Unit {0}))
    → IsCharged elsewhere v
    → with_cache v o ≡ some (w, r)
    → IsCharged elsewhere w
unfolding with_cache
with_cache-IsCharged elsewhere none v w r a h = absurd (cc)
with_cache-IsCharged elsewhere (some c) v w r a h =
    let same = ap (λ p. p.0) (of_some h) in
    subst (IsCharged elsewhere) same
      (IsCharged-same elsewhere v (record v { cache = c }) refl refl a)

finish_set-IsCharged :
    (elsewhere : ℕ → ℕ) (xxh3 : Bytes → ℕ) (key value : Bytes) (tenant : ℕ)
    (prev : Option IndexEntry) (p : VLog × Result ℕ) (w : VLog) (r : Result (Unit {0}))
    → Index.get p.0.index key ≡ prev
    → IsCharged elsewhere p.0
    → finish_set xxh3 key value tenant prev p ≡ some (w, r)
    → IsCharged elsewhere w
unfolding finish_set
finish_set-IsCharged elsewhere xxh3 key value tenant prev (v, err e) w r at_key a h =
    subst (IsCharged elsewhere) (ap (λ p. p.0) (of_some h)) a
finish_set-IsCharged elsewhere xxh3 key value tenant prev (v, ok offset) w r at_key a h =
    let padded = padded_record_size (length key) (length value) % 2 ^ 32 in
    with_cache-IsCharged elsewhere (Cache.insert_for xxh3 key value (length value) tenant v.cache)
      (apply_set xxh3 key prev v.active_id offset padded v) w r
      (subst (λ o. IsCharged elsewhere (apply_set xxh3 key o v.active_id offset padded v)) at_key
        (apply_set-IsCharged elsewhere xxh3 key v.active_id offset padded v a))
      h

-- Where every tenant is charged just what the indexes of this shard and of the others hold for its keys, a
-- set that returns, accepted or refused, whole or failed, leaves it so, whatever the others hold; no
-- other call runs at the same time.
pub set_scoped-IsCharged :
    (elsewhere : ℕ → ℕ) (xxh3 : Bytes → ℕ) (answer : Answer) (key value : Bytes) (tenant : ℕ)
    (disk_limit : Option ℕ) (v w : VLog) (r : Result (Unit {0}))
    → IsCharged elsewhere v
    → set_scoped xxh3 answer key value tenant disk_limit v ≡ some (w, r)
    → IsCharged elsewhere w
unfolding set_scoped
set_scoped-IsCharged elsewhere xxh3 answer key value tenant disk_limit v w r a h =
    let padded = padded_record_size (length key) (length value) in
    let u = append_raw answer key value (ticked v) in
    let (index, disk) = append_raw-same answer key value (ticked v) in
    elim (Bool-cases (over_quota disk_limit key padded v)) [
      | inl over ↦ subst (IsCharged elsewhere) (ap (λ p. p.0) (of_some (rw over at h))) a
      | inr room ↦
          finish_set-IsCharged elsewhere xxh3 key value tenant (Index.get v.index key) u w r
            (ap (λ i. Index.get i key) index) (IsCharged-same elsewhere v u.0 index disk a)
            (rw room at h)
    ]
