-- ===== src/Tests/Tenants.antt =====
-- Tenants, their keys and their quotas on concrete values.
use skeg.Prelude.{◌≡◌, refl, List, All, arith, Bytes, [], ◌∷◌, replicate, false}
use skeg.Tenant.Tracker
use skeg.Tenant.Tracker.{
  Action, reads, writes, sets_defaults, run, act, entry_read, entry_write, register, set_defaults,
}
use skeg.Tenant.Tracker.Handles.{Held, run-Held}
use skeg.Tenant.Namespace.{TenantId, is_zero, scoped_key, scoped_vindex_name}
use skeg.Tenant.Isolation.{IsTenant, scoped_key-isolates}
use skeg.Tenant.Quota.{
  TenantQuota, with_limits, compare_exchange, try_add_cache_bytes, saturating_add,
}
use skeg.Tenant.Quota.Interleaving.{created, add_bytes, Within, Reach-Within}
use skeg.Server.VectorQuota.{TenantVectorQuota}

abbrev one : Bytes
one = 1 ∷ []

abbrev alice : TenantId
alice = replicate 16 171

alice-IsTenant : IsTenant alice
unfolding is_zero
alice-IsTenant = record { sixteen = refl; bytes = ground arith; not_zero = refl }

abbrev bob : TenantId
bob = replicate 16 17

bob-IsTenant : IsTenant bob
unfolding is_zero
bob-IsTenant = record { sixteen = refl; bytes = ground arith; not_zero = refl }

scoped_key-isolates_example :
    (scoped_key alice one ≡ scoped_key bob one → (alice ≡ bob) × (one ≡ one))
    × (scoped_vindex_name alice one ≡ scoped_vindex_name bob one → (alice ≡ bob) × (one ≡ one))
scoped_key-isolates_example = scoped_key-isolates alice bob one one alice-IsTenant bob-IsTenant

abbrev charged : TenantQuota
charged = record { cache_bytes = 60; cache_limit = 100; n_vectors = 0; vectors_limit = 0 }

-- Two calls have loaded 0; the second one's exchange fails.
Reach-Within_example : Within 100 60 × Within 0 0
unfolding compare_exchange with_limits try_add_cache_bytes saturating_add
Reach-Within_example =
    Reach-Within 100 0 charged (add_bytes false 0 70 (add_bytes false 0 60 created))

abbrev three : TenantVectorQuota
three = record { counts = (7, 3) ∷ [] }

-- Two calls of `entry` that both miss, and a third that hits.
abbrev two_misses : List Action
two_misses =
    reads alice
    ∷ reads alice
    ∷ sets_defaults 10 20
    ∷ writes alice
    ∷ writes bob
    ∷ writes alice
    ∷ reads alice
    ∷ []

run-Held_example : All (Held alice (run two_misses Tracker.new).1) (run two_misses Tracker.new).0
run-Held_example =
    run-Held alice two_misses Tracker.new (refl, (refl, (refl, (refl, (refl, (refl, (refl, tt)))))))

two_misses-run :
    (run two_misses Tracker.new).0 ≡ (alice, 0) ∷ (bob, 1) ∷ (alice, 0) ∷ (alice, 0) ∷ []
unfolding run act Tracker.new entry_read entry_write register with_limits set_defaults
two_misses-run = refl
