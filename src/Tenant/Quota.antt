-- ===== src/Tenant/Quota.antt =====
-- crates/skeg-tenant/src/quota.rs: a tenant's counters. A call loads a counter, computes the new value
-- and exchanges it if the counter is still what was loaded; other calls may run between the two, and
-- the weak exchange may fail for no reason.
pub mod Interleaving
use skeg.Prelude.{ℕ, ◌+◌, ◌-◌, ◌^◌, min, Bool, true, false, not, ◌&&◌, ltb, ◌==◌, if◌then◌else◌}

pub data QuotaError : Type 0 where
  cache_budget_exceeded : ℕ → ℕ → QuotaError
  vector_count_exceeded : ℕ → ℕ → QuotaError

pub data Attempt : Type 0 where
  refuse : QuotaError → Attempt
  exchange : ℕ → Attempt

pub record TenantQuota : Type 0 where
  pub cache_bytes : ℕ
  pub cache_limit : ℕ
  pub n_vectors : ℕ
  pub vectors_limit : ℕ

abbrev pub max_u64 : ℕ
max_u64 = 2 ^ 64 - 1

unfoldable pub saturating_add : ℕ → ℕ → ℕ
saturating_add a b = min (a + b) max_u64

unfoldable pub with_limits : ℕ → ℕ → TenantQuota
with_limits cache_limit vectors_limit = record {
  cache_bytes = 0;
  cache_limit = cache_limit;
  n_vectors = 0;
  vectors_limit = vectors_limit;
}

-- Both limits 0.
unfoldable pub unlimited : TenantQuota
unfolding with_limits
unlimited = with_limits 0 0

-- What a round of `try_add_cache_bytes` does with the value it loaded.
unfoldable pub try_add_cache_bytes : ℕ → ℕ → ℕ → Attempt
unfolding saturating_add
try_add_cache_bytes limit cur delta =
    let next = saturating_add cur delta in
    if not (limit == 0) && ltb limit next
    then refuse (cache_budget_exceeded next limit)
    else exchange next

unfoldable pub try_add_vectors : ℕ → ℕ → ℕ → Attempt
unfolding saturating_add
try_add_vectors limit cur delta =
    let next = saturating_add cur delta in
    if not (limit == 0) && ltb limit next
    then refuse (vector_count_exceeded next limit)
    else exchange next

-- `saturating_sub` is the subtraction of ℕ.
unfoldable pub sub_cache_bytes : ℕ → ℕ → Attempt
sub_cache_bytes cur delta = exchange (cur - delta)

unfoldable pub sub_vectors : ℕ → ℕ → Attempt
sub_vectors cur delta = exchange (cur - delta)

-- `compare_exchange_weak`: `spurious` tells that it fails for no reason.
unfoldable pub compare_exchange : Bool → ℕ → Attempt → ℕ → ℕ
compare_exchange spurious cur (refuse e) counter = counter
compare_exchange spurious cur (exchange next) counter =
    if not spurious && (counter == cur) then next else counter
