-- ===== src/Core/Cache/Accounting.antt =====
-- The byte accounting of the cache: its total and every tenant's charge are the sums over the entries.
use skeg.Prelude.{
  ℕ, ◌+◌, ◌-◌, ◌≤◌, ◌<◌, ◌≡◌, ◌∙◌, arith, Bytes, none, some, false, Bool-cases, Option-cases, inl,
  inr, if◌then◌else◌, ◌==◌, Assoc, bytes_key, nat_key, lookup, insert, remove, Unique, total,
  lookup-insert, lookup-remove, total-insert, total-remove, Unique-insert, Unique-remove,
}
use skeg.Core.Cache.State.{
  sub_usize, CacheEntry, S3Fifo, or_zero, add_tenant_bytes, sub_known, sub_tenant_bytes, drop_entry,
}

abbrev pub charge_of : ℕ → ℕ → Assoc ℕ ℕ → ℕ
charge_of t tenant0 per_tenant = if t == 0 then tenant0 else or_zero (lookup t per_tenant)

pub sub_usize-le : (a b : ℕ) → b ≤ a → sub_usize a b ≡ a - b
unfolding sub_usize
sub_usize-le a b h = ground arith

-- The charges as a function of the tenant.
pub record Charges (charge : ℕ → ℕ) (tenant0 : ℕ) (per_tenant : Assoc ℕ ℕ) : Type 0 where
  pub unique : Unique per_tenant
  pub default : lookup 0 per_tenant ≡ none
  pub reads : (t : ℕ) → charge_of t tenant0 per_tenant ≡ charge t
  pub resident : (t n : ℕ) → lookup t per_tenant ≡ some n → 0 < n

abbrev plus : (ℕ → ℕ) → ℕ → ℕ → ℕ → ℕ
plus charge tenant n t = charge t + (if tenant == t then n else 0)

abbrev minus : (ℕ → ℕ) → ℕ → ℕ → ℕ → ℕ
minus charge tenant n t = charge t - (if tenant == t then n else 0)

Charges-ext :
    (f g : ℕ → ℕ) (tenant0 : ℕ) (per_tenant : Assoc ℕ ℕ)
    → ((t : ℕ) → f t ≡ g t)
    → Charges f tenant0 per_tenant
    → Charges g tenant0 per_tenant
Charges-ext f g tenant0 per_tenant e c = record {
  unique = c.unique;
  default = c.default;
  reads = λ t. c.reads t ∙ e t;
  resident = c.resident;
}

module _ {V : Type 0} where
  abbrev pub ChargesOf : (ℕ → ℕ) → S3Fifo V → Type 0
  ChargesOf charge s = Charges charge s.tenant0_bytes s.per_tenant

  add-Charges :
      (charge : ℕ → ℕ) (tenant n : ℕ) (s : S3Fifo V)
      → 0 < n
      → ChargesOf charge s
      → ChargesOf (plus charge tenant n) (add_tenant_bytes tenant n s)
  unfolding add_tenant_bytes
  add-Charges charge tenant n s pos c = elim (Bool-cases (tenant == 0)) [
    | inl zero_tenant ↦ rw zero_tenant (record {
      unique = c.unique;
      default = c.default;
      reads = λ t. ground (arith, c.reads t);
      resident = c.resident;
    })
    | inr other ↦ rw other (record {
      unique =
          Unique-insert tenant (or_zero (lookup tenant s.per_tenant) + n) s.per_tenant c.unique;
      default =
          lookup-insert tenant 0 (or_zero (lookup tenant s.per_tenant) + n) s.per_tenant
          ∙ rw other c.default;
      reads = λ t. ground (
        arith,
        c.reads t,
        c.reads tenant,
        lookup-insert tenant t (or_zero (lookup tenant s.per_tenant) + n) s.per_tenant,
      );
      resident = λ t m h. ground (
        arith,
        c.resident t m,
        lookup-insert tenant t (or_zero (lookup tenant s.per_tenant) + n) s.per_tenant,
      );
    })
  ]

  known-Charges :
      (charge : ℕ → ℕ) (tenant n v : ℕ) (s : S3Fifo V)
      → (tenant == 0) ≡ false
      → n ≤ v
      → lookup tenant s.per_tenant ≡ some v
      → ChargesOf charge s
      → ChargesOf (minus charge tenant n) (sub_known tenant n (some v) s)
  unfolding sub_known
  known-Charges charge tenant n v s other fits found c = elim (Bool-cases (v - n == 0)) [
    | inl gone ↦
        rw (sub_usize-le v n fits, gone)
          (record {
            unique = Unique-remove tenant s.per_tenant c.unique;
            default = lookup-remove tenant 0 s.per_tenant ∙ rw other c.default;
            reads =
                λ t. ground (arith, c.reads t, c.reads tenant, lookup-remove tenant t s.per_tenant);
            resident = λ t m h. ground (arith, c.resident t m, lookup-remove tenant t s.per_tenant);
          })
    | inr some_left ↦
        rw (sub_usize-le v n fits, some_left)
          (record {
            unique = Unique-insert tenant (v - n) s.per_tenant c.unique;
            default = lookup-insert tenant 0 (v - n) s.per_tenant ∙ rw other c.default;
            reads = λ t.
                ground
                  (arith, c.reads t, c.reads tenant, lookup-insert tenant t (v - n) s.per_tenant);
            resident = λ t m h.
                ground (arith, c.resident t m, lookup-insert tenant t (v - n) s.per_tenant);
          })
  ]

  sub-Charges :
      (charge : ℕ → ℕ) (tenant n : ℕ) (s : S3Fifo V)
      → n ≤ charge tenant
      → ChargesOf charge s
      → ChargesOf (minus charge tenant n) (sub_tenant_bytes tenant n s)
  unfolding sub_tenant_bytes
  sub-Charges charge tenant n s fits c = elim (Bool-cases (tenant == 0)) [
    | inl zero_tenant ↦
        let enough : n ≤ s.tenant0_bytes = ground (arith, c.reads tenant) in
        rw (zero_tenant, sub_usize-le s.tenant0_bytes n enough)
          (record {
            unique = c.unique;
            default = c.default;
            reads = λ t. ground (arith, c.reads t);
            resident = c.resident;
          })
    | inr other ↦ elim (Option-cases (lookup tenant s.per_tenant)) [
      | inl absent ↦
          rw (other, absent)
            (record {
              unique = c.unique;
              default = c.default;
              reads = λ t. ground (arith, c.reads t, c.reads tenant);
              resident = c.resident;
            })
      | inr (v, found) ↦
          rw (other, found)
            (known-Charges charge tenant n v s other (ground (arith, c.reads tenant)) found c)
    ]
  ]

  -- The charges leave everything else alone.
  pub record SameButCharges (s t : S3Fifo V) : Type 0 where
    pub map : s.map ≡ t.map
    pub small : s.small ≡ t.small
    pub main : s.main ≡ t.main
    pub budget_bytes : s.budget_bytes ≡ t.budget_bytes
    pub small_budget : s.small_budget ≡ t.small_budget
    pub total_bytes : s.total_bytes ≡ t.total_bytes
    pub small_bytes : s.small_bytes ≡ t.small_bytes

  pub add-SameButCharges :
      (tenant n : ℕ) (s : S3Fifo V) → SameButCharges (add_tenant_bytes tenant n s) s
  unfolding add_tenant_bytes
  add-SameButCharges tenant n s = ground arith

  pub sub-SameButCharges :
      (tenant n : ℕ) (s : S3Fifo V) → SameButCharges (sub_tenant_bytes tenant n s) s
  unfolding sub_tenant_bytes sub_known
  sub-SameButCharges tenant n s = ground arith

  abbrev pub size_of : Bytes → CacheEntry V → ℕ
  size_of k e = e.size

  abbrev pub size_for : ℕ → Bytes → CacheEntry V → ℕ
  size_for t k e = if e.tenant == t then e.size else 0

  -- The total is the sum of the sizes of the entries, every tenant's charge is the sum over its own
  -- entries, and the map of the tenants holds those with a charge and no other.
  pub record IsAccounted (s : S3Fifo V) : Type 0 where
    pub unique : Unique s.map
    pub bytes : s.total_bytes ≡ total size_of s.map
    pub charges : Charges (λ t. total (size_for t) s.map) s.tenant0_bytes s.per_tenant

  size_for-le :
      (t : ℕ) (m : Assoc Bytes (CacheEntry V)) (k : Bytes) (e : CacheEntry V)
      → Unique m
      → lookup k m ≡ some e
      → size_for t k e ≤ total (size_for t) m
  size_for-le t m k e u h = ground (arith, total-remove (size_for t) k m u)

  -- An entry's size is part of the total.
  pub size-le :
      (key : Bytes) (e : CacheEntry V) (s : S3Fifo V)
      → lookup key s.map ≡ some e
      → IsAccounted s
      → e.size ≤ s.total_bytes
  size-le key e s found a = ground (arith, a.bytes, total-remove size_of key s.map a.unique)

  pub drop_entry-IsAccounted :
      (key : Bytes) (e : CacheEntry V) (s : S3Fifo V)
      → lookup key s.map ≡ some e
      → IsAccounted s
      → IsAccounted (drop_entry key e s)
  unfolding drop_entry
  drop_entry-IsAccounted key e s found a =
      let s1 : S3Fifo V = record s {
        map = remove key s.map;
        total_bytes = sub_usize s.total_bytes e.size;
      } in
      let same = sub-SameButCharges e.tenant e.size s1 in
      let fits : e.size ≤ s.total_bytes =
        ground (arith, a.bytes, total-remove size_of key s.map a.unique) in
      record {
        unique = rw same.map (Unique-remove key s.map a.unique);
        bytes =
            same.total_bytes
            ∙ rw same.map (
                sub_usize-le s.total_bytes e.size fits
                ∙ ground (arith, a.bytes, total-remove size_of key s.map a.unique));
        charges = rw same.map (
            Charges-ext (minus (λ t. total (size_for t) s.map) e.tenant e.size)
              (λ t. total (size_for t) (remove key s.map)) _ _
              (λ t. ground (arith, total-remove (size_for t) key s.map a.unique))
              (sub-Charges (λ t. total (size_for t) s.map) e.tenant e.size s1
                (ground (arith, size_for-le e.tenant s.map key e a.unique found)) a.charges));
      }

  -- A new state of an entry that keeps its size and its tenant.
  pub touch-IsAccounted :
      (key : Bytes) (e e' : CacheEntry V) (s : S3Fifo V)
      → lookup key s.map ≡ some e
      → e'.size ≡ e.size
      → e'.tenant ≡ e.tenant
      → IsAccounted s
      → IsAccounted (record s { map = insert key e' s.map })
  touch-IsAccounted key e e' s found same_size same_tenant a = record {
    unique = Unique-insert key e' s.map a.unique;
    bytes = ground (arith, a.bytes, total-insert size_of key e' s.map a.unique);
    charges =
        Charges-ext (λ t. total (size_for t) s.map) (λ t. total (size_for t) (insert key e' s.map))
          _ _ (λ t. ground (arith, total-insert (size_for t) key e' s.map a.unique)) a.charges;
  }

  -- A new entry of size `n` for a key that is not there.
  pub admit-IsAccounted :
      (key : Bytes) (e : CacheEntry V) (s : S3Fifo V)
      → lookup key s.map ≡ none
      → 0 < e.size
      → IsAccounted s
      → IsAccounted (
          add_tenant_bytes e.tenant e.size
            (record s { map = insert key e s.map; total_bytes = s.total_bytes + e.size }))
  admit-IsAccounted key e s absent pos a =
      let s1 : S3Fifo V = record s {
        map = insert key e s.map;
        total_bytes = s.total_bytes + e.size;
      } in
      let same = add-SameButCharges e.tenant e.size s1 in
      record {
        unique = rw same.map (Unique-insert key e s.map a.unique);
        bytes =
            same.total_bytes
            ∙ rw same.map (ground (arith, a.bytes, total-insert size_of key e s.map a.unique));
        charges = rw same.map (
            Charges-ext (plus (λ t. total (size_for t) s.map) e.tenant e.size)
              (λ t. total (size_for t) (insert key e s.map)) _ _
              (λ t. ground (arith, total-insert (size_for t) key e s.map a.unique))
              (add-Charges (λ t. total (size_for t) s.map) e.tenant e.size s1 pos a.charges));
      }

  -- A known entry takes a new size and a new tenant.
  pub resize-IsAccounted :
      (key : Bytes) (e e' : CacheEntry V) (s : S3Fifo V)
      → lookup key s.map ≡ some e
      → 0 < e'.size
      → IsAccounted s
      → IsAccounted (
          add_tenant_bytes e'.tenant e'.size (
            sub_tenant_bytes e.tenant e.size (record s {
              map = insert key e' s.map;
              total_bytes = sub_usize (s.total_bytes + e'.size) e.size;
            })))
  resize-IsAccounted key e e' s found pos a =
      let s1 : S3Fifo V = record s {
        map = insert key e' s.map;
        total_bytes = sub_usize (s.total_bytes + e'.size) e.size;
      } in
      let s2 : S3Fifo V = sub_tenant_bytes e.tenant e.size s1 in
      let same1 = sub-SameButCharges e.tenant e.size s1 in
      let same2 = add-SameButCharges e'.tenant e'.size s2 in
      let m = same2.map ∙ same1.map in
      let fits : e.size ≤ s.total_bytes =
        ground (arith, a.bytes, total-remove size_of key s.map a.unique) in
      let old = λ (t : ℕ). total (size_for t) s.map in
      let own : e.size ≤ old e.tenant =
        ground (arith, size_for-le e.tenant s.map key e a.unique found) in
      let sub = sub-Charges old e.tenant e.size s1 own a.charges in
      record {
        unique = rw m (Unique-insert key e' s.map a.unique);
        bytes =
            same2.total_bytes
            ∙ same1.total_bytes
            ∙ rw m (
                sub_usize-le (s.total_bytes + e'.size) e.size (omega arith)
                ∙ ground (arith, a.bytes, total-insert size_of key e' s.map a.unique));
        charges = rw m (
            Charges-ext (plus (minus old e.tenant e.size) e'.tenant e'.size)
              (λ t. total (size_for t) (insert key e' s.map)) _ _
              (λ t. ground (
                arith,
                size_for-le t s.map key e a.unique found,
                total-insert (size_for t) key e' s.map a.unique,
              ))
              (add-Charges (minus old e.tenant e.size) e'.tenant e'.size s2 pos sub));
      }
