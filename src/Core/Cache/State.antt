-- ===== src/Core/Cache/State.antt =====
-- The state of the cache, its byte accounting and its ghost queue.
use skeg.Prelude.{
  ℕ, ◌+◌, ◌-◌, ◌/◌, ◌%◌, ◌^◌, max, Bytes, List, [], ◌∷◌, ◌++◌, Option, none, some, Bool, true,
  false, ◌||◌, if◌then◌else◌, ltb, leb, ◌==◌, length, Assoc, bytes_key, nat_key, lookup, insert,
  remove,
}

abbrev pub entry_overhead : ℕ
entry_overhead = 64

abbrev pub ghost_capacity : ℕ
ghost_capacity = 65536

abbrev pub max_fair_skips : ℕ
max_fair_skips = 16

unfoldable pub sub_usize : ℕ → ℕ → ℕ
sub_usize a b = if leb b a then a - b else a + 2 ^ 64 - b

pub record CacheEntry (V : Type 0) : Type 0 where
  pub value : V
  pub size : ℕ
  pub freq : ℕ
  pub in_small : Bool
  pub tenant : ℕ

-- The queues hold keys, front first. `ghost_set` is a set of hashes.
pub record S3Fifo (V : Type 0) : Type 0 where
  pub map : Assoc Bytes (CacheEntry V)
  pub small : List Bytes
  pub main : List Bytes
  pub ghost : List ℕ
  pub ghost_set : Assoc ℕ (Unit {0})
  pub tenant0_bytes : ℕ
  pub per_tenant : Assoc ℕ ℕ
  pub budget_bytes : ℕ
  pub small_budget : ℕ
  pub total_bytes : ℕ
  pub small_bytes : ℕ
  pub hits : ℕ
  pub misses : ℕ
  pub evictions : ℕ

-- The assertion on the budget is the caller's.
unfoldable pub new : (V : Type 0) → ℕ → S3Fifo V
new V budget_bytes = record {
  map = [];
  small = [];
  main = [];
  ghost = [];
  ghost_set = [];
  tenant0_bytes = 0;
  per_tenant = [];
  budget_bytes = budget_bytes;
  small_budget = max (budget_bytes / 10) 1;
  total_bytes = 0;
  small_bytes = 0;
  hits = 0;
  misses = 0;
  evictions = 0;
}

abbrev pub or_zero : Option ℕ → ℕ
or_zero none = 0
or_zero (some n) = n

unfoldable pub any_over : ℕ → Assoc ℕ ℕ → Bool
any_over target [] = false
any_over target ((t, b) ∷ rest) = ltb target b || any_over target rest

abbrev pub is_none : {A : Type 0} → Option A → Bool
is_none none = true
is_none (some a) = false

module _ {V : Type 0} where
  unfoldable pub add_tenant_bytes : ℕ → ℕ → S3Fifo V → S3Fifo V
  add_tenant_bytes tenant n s =
      if tenant == 0 then record s { tenant0_bytes = s.tenant0_bytes + n } else record s {
        per_tenant = insert tenant (or_zero (lookup tenant s.per_tenant) + n) s.per_tenant;
      }

  unfoldable pub sub_known : ℕ → ℕ → Option ℕ → S3Fifo V → S3Fifo V
  sub_known tenant n none s = s
  sub_known tenant n (some v) s =
      if sub_usize v n == 0
      then record s { per_tenant = remove tenant s.per_tenant }
      else record s { per_tenant = insert tenant (sub_usize v n) s.per_tenant }

  -- A tenant without an entry is left alone.
  unfoldable pub sub_tenant_bytes : ℕ → ℕ → S3Fifo V → S3Fifo V
  unfolding sub_known
  sub_tenant_bytes tenant n s =
      if tenant == 0
      then record s { tenant0_bytes = sub_usize s.tenant0_bytes n }
      else sub_known tenant n (lookup tenant s.per_tenant) s

  unfoldable pub tenant_charged : ℕ → S3Fifo V → ℕ
  tenant_charged tenant s =
      if tenant == 0 then s.tenant0_bytes else or_zero (lookup tenant s.per_tenant)

  -- The public reading casts the `u128` id to `u64`.
  unfoldable pub charged_bytes : ℕ → S3Fifo V → ℕ
  unfolding tenant_charged
  charged_bytes tenant s = tenant_charged (tenant % 2 ^ 64) s

  unfoldable pub share_target : S3Fifo V → ℕ
  share_target s =
      s.budget_bytes / max (length s.per_tenant + (if ltb 0 s.tenant0_bytes then 1 else 0)) 1

  unfoldable pub has_over_share : ℕ → S3Fifo V → Bool
  unfolding any_over
  has_over_share target s = ltb target s.tenant0_bytes || any_over target s.per_tenant

  -- What every way out of the cache does: off the map, off the total, off the tenant's charge.
  unfoldable pub drop_entry : Bytes → CacheEntry V → S3Fifo V → S3Fifo V
  drop_entry key e s =
      sub_tenant_bytes e.tenant e.size
        (record s { map = remove key s.map; total_bytes = sub_usize s.total_bytes e.size })

  -- The oldest hashes leave while the queue is over its capacity.
  unfoldable pub trim_ghost : List ℕ → Assoc ℕ (Unit {0}) → S3Fifo V → S3Fifo V
  trim_ghost [] set s = record s { ghost = []; ghost_set = set }
  trim_ghost (h ∷ hs) set s =
      let rest = trim_ghost hs (remove h set) s in
      if ltb ghost_capacity (length (h ∷ hs))
      then rest
      else record s { ghost = h ∷ hs; ghost_set = set }

  unfoldable pub ghost_push : ℕ → S3Fifo V → S3Fifo V
  unfolding trim_ghost
  ghost_push kh s =
      trim_ghost (if is_none (lookup kh s.ghost_set) then s.ghost ++ (kh ∷ []) else s.ghost)
        (insert kh tt s.ghost_set) s
