-- ===== src/Tenant/Tracker.antt =====
-- `QuotaTracker` of crates/skeg-tenant/src/quota.rs. The quotas stand in `heap`, and an `Arc` is the
-- position of its quota there. `entry` takes the read lock and then, on a miss, the write lock; other
-- calls may run between the two.
pub mod Handles
use skeg.Prelude.{
  ℕ, suc, zero, Bool, true, false, Bytes, List, [], ◌∷◌, ◌++◌, Option, none, some, map, length,
  Assoc, bytes_key, bytes_beq, lookup, insert, remove,
}
use skeg.Tenant.Namespace.{TenantId}
use skeg.Tenant.Quota.{TenantQuota, with_limits}

pub record QuotaTracker : Type 0 where
  pub inner : Assoc TenantId ℕ
  pub heap : List TenantQuota
  pub default_cache_limit : ℕ
  pub default_vectors_limit : ℕ

unfoldable pub new : QuotaTracker
new = record { inner = []; heap = []; default_cache_limit = 0; default_vectors_limit = 0 }

unfoldable pub set_defaults : ℕ → ℕ → QuotaTracker → QuotaTracker
set_defaults cache_limit vectors_limit tracker = record {
  inner = tracker.inner;
  heap = tracker.heap;
  default_cache_limit = cache_limit;
  default_vectors_limit = vectors_limit;
}

-- A new `Arc` of `q`, and the map with it.
unfoldable pub register : TenantId → TenantQuota → QuotaTracker → ℕ × QuotaTracker
register tenant q tracker = (
  length tracker.heap,
  record {
    inner = insert tenant (length tracker.heap) tracker.inner;
    heap = tracker.heap ++ (q ∷ []);
    default_cache_limit = tracker.default_cache_limit;
    default_vectors_limit = tracker.default_vectors_limit;
  },
)

-- The part of `entry` under the read lock; none is a miss.
unfoldable pub entry_read : TenantId → QuotaTracker → Option ℕ
entry_read tenant tracker = lookup tenant tracker.inner

abbrev pub found_or : Option ℕ → ℕ × QuotaTracker → QuotaTracker → ℕ × QuotaTracker
found_or none created tracker = created
found_or (some q) created tracker = (q, tracker)

-- The part under the write lock, which looks again.
unfoldable pub entry_write : TenantId → QuotaTracker → ℕ × QuotaTracker
unfolding register with_limits
entry_write tenant tracker =
    found_or (lookup tenant tracker.inner)
      (register tenant (with_limits tracker.default_cache_limit tracker.default_vectors_limit)
        tracker)
      tracker

unfoldable pub forget : TenantId → QuotaTracker → Option ℕ × QuotaTracker
forget tenant tracker = (
  lookup tenant tracker.inner,
  record {
    inner = remove tenant tracker.inner;
    heap = tracker.heap;
    default_cache_limit = tracker.default_cache_limit;
    default_vectors_limit = tracker.default_vectors_limit;
  },
)

-- What runs without another call in between.
pub data Action : Type 0 where
  reads writes : TenantId → Action
  registers : TenantId → TenantQuota → Action
  forgets : TenantId → Action
  sets_defaults : ℕ → ℕ → Action

-- The handle that an `entry` returns with the action, for its tenant.
abbrev pub returned : TenantId → Option ℕ → List (TenantId × ℕ)
returned tenant none = []
returned tenant (some q) = (tenant, q) ∷ []

unfoldable pub act : Action → QuotaTracker → List (TenantId × ℕ) × QuotaTracker
unfolding entry_read entry_write register forget set_defaults
act (reads tenant) tracker = (returned tenant (entry_read tenant tracker), tracker)
act (writes tenant) tracker =
    let done = entry_write tenant tracker in ((tenant, done.0) ∷ [], done.1)
act (registers tenant q) tracker = ([], (register tenant q tracker).1)
act (forgets tenant) tracker = ([], (forget tenant tracker).1)
act (sets_defaults c v) tracker = ([], set_defaults c v tracker)

-- The handles that all calls of `entry` return, in any order of the actions.
unfoldable pub run : List Action → QuotaTracker → List (TenantId × ℕ) × QuotaTracker
unfolding act
run [] tracker = ([], tracker)
run (a ∷ actions) tracker =
    let first = act a tracker in let rest = run actions first.1 in (first.0 ++ rest.0, rest.1)
