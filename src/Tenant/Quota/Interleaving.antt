-- ===== src/Tenant/Quota/Interleaving.antt =====
-- The quota under calls that run at once: whatever the calls loaded and however they are ordered, a
-- counter never passes its limit.
use skeg.Prelude.{ℕ, ◌≤◌, ◌≢◌, arith, Bool}
use skeg.Tenant.Quota.{
  TenantQuota, saturating_add, with_limits, try_add_cache_bytes, try_add_vectors, sub_cache_bytes,
  sub_vectors, compare_exchange,
}

-- The states that the exchanges of any calls lead to, after the limits were set. `cur` is what a call
-- loaded, at any time before.
pub data Reach (cache_limit vectors_limit : ℕ) : TenantQuota → Type 0 where
  created : Reach cache_limit vectors_limit (with_limits cache_limit vectors_limit)
  add_bytes :
      (spurious : Bool) (cur delta : ℕ) {q : TenantQuota}
      → Reach cache_limit vectors_limit q
      → Reach cache_limit vectors_limit (record q {
        cache_bytes =
            compare_exchange spurious cur (try_add_cache_bytes cache_limit cur delta) q.cache_bytes;
      })
  sub_bytes :
      (spurious : Bool) (cur delta : ℕ) {q : TenantQuota}
      → Reach cache_limit vectors_limit q
      → Reach cache_limit vectors_limit (record q {
        cache_bytes = compare_exchange spurious cur (sub_cache_bytes cur delta) q.cache_bytes;
      })
  add_vectors :
      (spurious : Bool) (cur delta : ℕ) {q : TenantQuota}
      → Reach cache_limit vectors_limit q
      → Reach cache_limit vectors_limit (record q {
        n_vectors =
            compare_exchange spurious cur (try_add_vectors vectors_limit cur delta) q.n_vectors;
      })
  sub_vecs :
      (spurious : Bool) (cur delta : ℕ) {q : TenantQuota}
      → Reach cache_limit vectors_limit q
      → Reach cache_limit vectors_limit (record q {
        n_vectors = compare_exchange spurious cur (sub_vectors cur delta) q.n_vectors;
      })

-- Within the limit, where 0 is no limit.
abbrev pub Within : ℕ → ℕ → Type 0
Within limit counter = limit ≢ 0 → counter ≤ limit

add_bytes-Within :
    (spurious : Bool) (limit cur delta counter : ℕ)
    → Within limit counter
    → Within limit (compare_exchange spurious cur (try_add_cache_bytes limit cur delta) counter)
unfolding try_add_cache_bytes compare_exchange saturating_add
add_bytes-Within spurious limit cur delta counter h nz = ground (arith, h nz)

add_vectors-Within :
    (spurious : Bool) (limit cur delta counter : ℕ)
    → Within limit counter
    → Within limit (compare_exchange spurious cur (try_add_vectors limit cur delta) counter)
unfolding try_add_vectors compare_exchange saturating_add
add_vectors-Within spurious limit cur delta counter h nz = ground (arith, h nz)

sub_bytes-Within :
    (spurious : Bool) (limit cur delta counter : ℕ)
    → Within limit counter
    → Within limit (compare_exchange spurious cur (sub_cache_bytes cur delta) counter)
unfolding sub_cache_bytes compare_exchange
sub_bytes-Within spurious limit cur delta counter h nz = ground (arith, h nz)

sub_vectors-Within :
    (spurious : Bool) (limit cur delta counter : ℕ)
    → Within limit counter
    → Within limit (compare_exchange spurious cur (sub_vectors cur delta) counter)
unfolding sub_vectors compare_exchange
sub_vectors-Within spurious limit cur delta counter h nz = ground (arith, h nz)

-- Whatever calls run at once and however their loads and exchanges are ordered, the bytes and the
-- vectors of a tenant stay within the limits that were set at the start, where 0 is no limit.
pub Reach-Within :
    (cache_limit vectors_limit : ℕ) (q : TenantQuota)
    → Reach cache_limit vectors_limit q
    → Within cache_limit q.cache_bytes × Within vectors_limit q.n_vectors
Reach-Within c v _ created = unfold with_limits in (λ nz. omega arith, λ nz. omega arith)
Reach-Within c v _ (add_bytes spurious cur delta {q} r) =
    let (b, n) = Reach-Within c v q r in (add_bytes-Within spurious c cur delta q.cache_bytes b, n)
Reach-Within c v _ (sub_bytes spurious cur delta {q} r) =
    let (b, n) = Reach-Within c v q r in (sub_bytes-Within spurious c cur delta q.cache_bytes b, n)
Reach-Within c v _ (add_vectors spurious cur delta {q} r) =
    let (b, n) = Reach-Within c v q r in (b, add_vectors-Within spurious v cur delta q.n_vectors n)
Reach-Within c v _ (sub_vecs spurious cur delta {q} r) =
    let (b, n) = Reach-Within c v q r in (b, sub_vectors-Within spurious v cur delta q.n_vectors n)
