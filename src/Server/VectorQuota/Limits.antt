-- ===== src/Server/VectorQuota/Limits.antt =====
-- What a reservation and a release do to every tenant's count.
use skeg.Prelude.{
  ℕ, ◌+◌, ◌-◌, ◌^◌, ◌<◌, ◌≤◌, ◌≡◌, ◌⊎◌, inl, inr, refl, ap, ◌∙◌, arith, true, false, ◌&&◌,
  Bool-cases, nat_key, lookup, lookup-insert, lookup-remove, leb, ltb, ◌==◌, if◌then◌else◌,
}
use skeg.Server.VectorQuota.{TenantVectorQuota, unwrap_or, count, try_add, sub_found, sub}

-- A reservation is accepted exactly when the tenant's new count is within the limit and 64 bits. It
-- then adds to that tenant's count and to no other; refused, it leaves the quota as it was.
pub try_add-count :
    (q : TenantVectorQuota) (tenant delta limit : ℕ)
    → ((count q tenant + delta ≤ limit)
        × (count q tenant + delta < 2 ^ 64)
        × ((try_add q tenant delta limit).0 ≡ true)
        × ((t : ℕ)
            → count (try_add q tenant delta limit).1 t
              ≡ (if tenant == t then count q tenant + delta else count q t)))
      ⊎ (((limit < count q tenant + delta) ⊎ (2 ^ 64 ≤ count q tenant + delta))
          × (try_add q tenant delta limit ≡ (false, q)))
unfolding try_add count
try_add-count q tenant delta limit =
    let sum : ℕ = unwrap_or 0 (lookup tenant q.counts) + delta in
    elim (Bool-cases (ltb sum (2 ^ 64) && leb sum limit)) [
      | inl fits ↦ rw fits (
          inl (
            ground (arith, fits),
            ground (arith, fits),
            refl,
            λ t.
                ap (unwrap_or 0) (lookup-insert tenant t sum q.counts)
                ∙ (elim (Bool-cases (tenant == t)) [
                  | inl own ↦ rw own refl
                  | inr other ↦ rw other refl
                ]),
          ))
      | inr over ↦ rw over (inr (ground (arith, over), refl))
    ]

-- A release takes from that tenant's count, down to 0 at most, and from no other.
pub sub-count :
    (q : TenantVectorQuota) (tenant delta t : ℕ)
    → count (sub q tenant delta) t ≡ (if tenant == t then count q tenant - delta else count q t)
unfolding sub sub_found count
sub-count q tenant delta t = ground (arith, lookup-insert tenant t, lookup-remove tenant t q.counts)
