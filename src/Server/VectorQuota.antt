-- ===== src/Server/VectorQuota.antt =====
-- crates/skeg-server/src/quota.rs: the count of vectors that each tenant has reserved. A call holds the
-- lock from its first read to its last write.
pub mod Limits
use skeg.Prelude.{
  ℕ, ◌+◌, ◌-◌, ◌^◌, ◌&&◌, Bool, true, false, Option, none, some, Assoc, nat_key, lookup, insert,
  remove, leb, ltb, ◌==◌, if◌then◌else◌, [],
}

pub record TenantVectorQuota : Type 0 where
  pub counts : Assoc ℕ ℕ

unfoldable pub new : TenantVectorQuota
new = record { counts = [] }

abbrev pub unwrap_or {ℓ} : {A : Type ℓ} → A → Option A → A
unwrap_or d none = d
unwrap_or d (some a) = a

unfoldable pub count : TenantVectorQuota → ℕ → ℕ
count q tenant = unwrap_or 0 (lookup tenant q.counts)

-- `checked_add` and the limit; the Boolean tells whether the call was accepted.
unfoldable pub try_add : TenantVectorQuota → ℕ → ℕ → ℕ → Bool × TenantVectorQuota
try_add q tenant delta limit =
    let sum = unwrap_or 0 (lookup tenant q.counts) + delta in
    if ltb sum (2 ^ 64) && leb sum limit
    then (true, record { counts = insert tenant sum q.counts })
    else (false, q)

-- `saturating_sub` is the subtraction of ℕ.
unfoldable pub sub_found : TenantVectorQuota → ℕ → ℕ → Option ℕ → TenantVectorQuota
sub_found q tenant delta none = q
sub_found q tenant delta (some c) =
    if c - delta == 0
    then record { counts = remove tenant q.counts }
    else record { counts = insert tenant (c - delta) q.counts }

unfoldable pub sub : TenantVectorQuota → ℕ → ℕ → TenantVectorQuota
unfolding sub_found
sub q tenant delta = sub_found q tenant delta (lookup tenant q.counts)
