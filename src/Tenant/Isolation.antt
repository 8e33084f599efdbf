-- ===== src/Tenant/Isolation.antt =====
-- Keys and index names of different tenants never meet.
use skeg.Prelude.{
  ℕ, ◌/◌, ◌%◌, ◌<◌, ◌≡◌, refl, ap, ap₂, sym, ◌∙◌, arith, Bytes, [], ◌∷◌, ◌++◌, some, of_some, false,
  drop, length, length-append, ltb, le→ltb, All, IsByte, take-append_length, drop-append_length,
}
use skeg.Tenant.Namespace.{
  TenantId, id_len, is_zero, scoped_key, split_scoped_key, hex_digit, display, scoped_vindex_name,
}

-- The id of a tenant other than the default one.
pub record IsTenant (t : TenantId) : Type 0 where
  pub sixteen : length t ≡ 16
  pub bytes : All IsByte t
  pub not_zero : is_zero t ≡ false

-- A scoped key of a tenant other than the default one splits into the tenant and the key it was made
-- of.
pub split_scoped_key-scoped_key :
    (t : TenantId) (key : Bytes) → IsTenant t → split_scoped_key (scoped_key t key) ≡ some (t, key)
unfolding split_scoped_key scoped_key
split_scoped_key-scoped_key t key h =
    let long : ltb (length (t ++ key)) id_len ≡ false =
      le→ltb (length (t ++ key)) id_len (omega (arith, length-append t key, h.sixteen)) in
    rw
      (
        h.not_zero,
        long,
        take-append_length id_len t key h.sixteen,
        drop-append_length id_len t key h.sixteen,
      )
      refl

hex_digit-inj : (m n : ℕ) → m < 16 → n < 16 → hex_digit m ≡ hex_digit n → m ≡ n
unfolding hex_digit
hex_digit-inj m n hm hn e = ground arith

display-inj :
    (a b m n : Bytes)
    → All IsByte a
    → All IsByte b
    → length a ≡ length b
    → display a ++ m ≡ display b ++ n
    → (a ≡ b) × (m ≡ n)
unfolding display
display-inj [] [] m n ha hb hl e = (refl, e)
display-inj [] (y ∷ b) m n ha hb hl e = absurd (omega arith)
display-inj (x ∷ a) [] m n ha hb hl e = absurd (omega arith)
display-inj (x ∷ a) (y ∷ b) m n (hx, ha) (hy, hb) hl e =
    let high : hex_digit (x / 16) ≡ hex_digit (y / 16) = cc in
    let low : hex_digit (x % 16) ≡ hex_digit (y % 16) = cc in
    let tails : display a ++ m ≡ display b ++ n = cc in
    let (same, rest) = display-inj a b m n ha hb (omega arith) tails in
    let h = hex_digit-inj (x / 16) (y / 16) (omega arith) (omega arith) high in
    let l = hex_digit-inj (x % 16) (y % 16) (omega arith) (omega arith) low in
    (ap₂ (λ c cs. c ∷ cs) (omega arith) same, rest)

-- Two tenants never share a scoped key or a scoped index name, whatever bytes the keys and names hold:
-- if the scoped forms are equal, so are the tenants and what was scoped. Not for the default tenant,
-- whose keys and names stand as they are.
pub scoped_key-isolates :
    (t u : TenantId) (j k : Bytes)
    → IsTenant t
    → IsTenant u
    → (scoped_key t j ≡ scoped_key u k → (t ≡ u) × (j ≡ k))
      × (scoped_vindex_name t j ≡ scoped_vindex_name u k → (t ≡ u) × (j ≡ k))
unfolding scoped_vindex_name
scoped_key-isolates t u j k ht hu = (
  λ e.
      let pairs : (t, j) ≡ (u, k) = of_some (
        sym (split_scoped_key-scoped_key t j ht)
        ∙ ap split_scoped_key e
        ∙ split_scoped_key-scoped_key u k hu) in
      (ap (λ p. p.0) pairs, ap (λ p. p.1) pairs),
  λ e.
      let named : display t ++ (58 ∷ (58 ∷ j)) ≡ display u ++ (58 ∷ (58 ∷ k)) =
        rw (ht.not_zero, hu.not_zero) at e in
      let (same, tails) =
        display-inj t u (58 ∷ (58 ∷ j)) (58 ∷ (58 ∷ k)) ht.bytes hu.bytes
          (ht.sixteen ∙ sym hu.sixteen) named in
      (same, ap (drop 2) tails),
)
