-- ===== src/Tenant/Tracker/Handles.antt =====
-- The handles that concurrent calls of `entry` return.
use skeg.Prelude.{
  ℕ, ◌≡◌, refl, sym, subst, ◌∙◌, Bool, false, List, [], ◌∷◌, Option, none, some, All, All-append,
  All-map, bytes_key, bytes_beq, bytes_beq_iff, length, lookup, lookup-insert, lookup-insert_self,
  lookup-remove, Bool-cases, Option-cases, inl, inr,
}
use skeg.Tenant.Namespace.{TenantId}
use skeg.Tenant.Quota.{TenantQuota, with_limits}
use skeg.Tenant.Tracker.{
  QuotaTracker, set_defaults, register, entry_read, entry_write, forget, Action, reads, writes,
  registers, forgets, sets_defaults, returned, act, run,
}

-- Whether an action takes the tenant's quota out of the map.
abbrev pub resets : TenantId → Action → Bool
resets t (registers u q) = bytes_beq u t
resets t (forgets u) = bytes_beq u t
resets t (reads u) = false
resets t (writes u) = false
resets t (sets_defaults c v) = false

register-lookup :
    (t u : TenantId) (q : TenantQuota) (tracker : QuotaTracker)
    → bytes_beq u t ≡ false
    → lookup t (register u q tracker).1.inner ≡ lookup t tracker.inner
unfolding register
register-lookup t u q tracker h = lookup-insert u t (length tracker.heap) tracker.inner ∙ rw h refl

register-lookup_self :
    (t : TenantId) (q : TenantQuota) (tracker : QuotaTracker)
    → lookup t (register t q tracker).1.inner ≡ some (register t q tracker).0
unfolding register
register-lookup_self t q tracker = lookup-insert_self t (length tracker.heap) tracker.inner

-- The second look decides whether the map changes.
entry_write-missed :
    (u : TenantId) (tracker : QuotaTracker)
    → lookup u tracker.inner ≡ none
    → entry_write u tracker
      ≡ register u (with_limits tracker.default_cache_limit tracker.default_vectors_limit) tracker
unfolding entry_write
entry_write-missed u tracker e = rw e refl

entry_write-found :
    (u : TenantId) (q : ℕ) (tracker : QuotaTracker)
    → lookup u tracker.inner ≡ some q
    → entry_write u tracker ≡ (q, tracker)
unfolding entry_write
entry_write-found u q tracker e = rw e refl

entry_write-lookup :
    (u : TenantId) (tracker : QuotaTracker)
    → lookup u (entry_write u tracker).1.inner ≡ some (entry_write u tracker).0
entry_write-lookup u tracker = elim (Option-cases (lookup u tracker.inner)) [
  | inl e ↦
      let made = with_limits tracker.default_cache_limit tracker.default_vectors_limit in
      subst (λ d. lookup u d.1.inner ≡ some d.0) (sym (entry_write-missed u tracker e))
        (register-lookup_self u made tracker)
  | inr (q, e) ↦
      subst (λ d. lookup u d.1.inner ≡ some d.0) (sym (entry_write-found u q tracker e)) e
]

entry_write-keeps :
    (t : TenantId) (h : ℕ) (u : TenantId) (tracker : QuotaTracker)
    → lookup t tracker.inner ≡ some h
    → lookup t (entry_write u tracker).1.inner ≡ some h
entry_write-keeps t h u tracker held = elim (Option-cases (lookup u tracker.inner)) [
  | inr (q, e) ↦
      subst (λ d. lookup t d.1.inner ≡ some h) (sym (entry_write-found u q tracker e)) held
  | inl e ↦ elim (Bool-cases (bytes_beq u t)) [
    | inl same ↦
        let clash : lookup t tracker.inner ≡ none =
          subst (λ v. lookup v tracker.inner ≡ none) ((bytes_beq_iff u t).0 same) e in
        let wrong : none ≡ some h = sym clash ∙ held in absurd cc
    | inr other ↦
        let made = with_limits tracker.default_cache_limit tracker.default_vectors_limit in
        subst (λ d. lookup t d.1.inner ≡ some h) (sym (entry_write-missed u tracker e))
          (register-lookup t u made tracker other ∙ held)
  ]
]

-- An action that does not reset the tenant keeps its handle.
act-keeps :
    (t : TenantId) (h : ℕ) (a : Action) (tracker : QuotaTracker)
    → resets t a ≡ false
    → lookup t tracker.inner ≡ some h
    → lookup t (act a tracker).1.inner ≡ some h
unfolding act forget set_defaults
act-keeps t h (reads u) tracker fixed held = held
act-keeps t h (writes u) tracker fixed held = entry_write-keeps t h u tracker held
act-keeps t h (registers u q) tracker fixed held = register-lookup t u q tracker fixed ∙ held
act-keeps t h (forgets u) tracker fixed held = lookup-remove u t tracker.inner ∙ rw fixed held
act-keeps t h (sets_defaults c v) tracker fixed held = held

-- What an action returns for the tenant, the map holds.
abbrev pub Held : TenantId → QuotaTracker → TenantId × ℕ → Type 0
Held t tracker r = r.0 ≡ t → lookup t tracker.inner ≡ some r.1

reads-Held :
    (t u : TenantId) (tracker : QuotaTracker) (o : Option ℕ)
    → lookup u tracker.inner ≡ o
    → All (Held t tracker) (returned u o)
reads-Held t u tracker none e = tt
reads-Held t u tracker (some q) e =
    (λ same. subst (λ v. lookup v tracker.inner ≡ some q) same e, tt)

act-Held :
    (t : TenantId) (a : Action) (tracker : QuotaTracker)
    → All (Held t (act a tracker).1) (act a tracker).0
unfolding act entry_read forget set_defaults
act-Held t (reads u) tracker = reads-Held t u tracker (entry_read u tracker) refl
act-Held t (writes u) tracker = (
  λ same.
      subst (λ v. lookup v (entry_write u tracker).1.inner ≡ some (entry_write u tracker).0) same
        (entry_write-lookup u tracker),
  tt,
)
act-Held t (registers u q) tracker = tt
act-Held t (forgets u) tracker = tt
act-Held t (sets_defaults c v) tracker = tt

run-keeps :
    (t : TenantId) (h : ℕ) (actions : List Action) (tracker : QuotaTracker)
    → All (λ a. resets t a ≡ false) actions
    → lookup t tracker.inner ≡ some h
    → lookup t (run actions tracker).1.inner ≡ some h
unfolding run
run-keeps t h [] tracker fixed held = held
run-keeps t h (a ∷ actions) tracker (fa, fixed) held =
    run-keeps t h actions (act a tracker).1 fixed (act-keeps t h a tracker fa held)

-- However the parts of concurrent calls of `entry` for a tenant interleave with each other and with calls
-- for other tenants, all of them return the one handle that the map holds for the tenant in the end, as
-- long as nothing registers or forgets the tenant in between.
pub run-Held :
    (t : TenantId) (actions : List Action) (tracker : QuotaTracker)
    → All (λ a. resets t a ≡ false) actions
    → All (Held t (run actions tracker).1) (run actions tracker).0
unfolding run
run-Held t [] tracker fixed = tt
run-Held t (a ∷ actions) tracker (fa, fixed) =
    let next = (act a tracker).1 in
    let rest = run-Held t actions next fixed in
    let now =
      All-map (λ r held same. run-keeps t r.1 actions next fixed (held same)) (act a tracker).0
        (act-Held t a tracker) in
    All-append (Held t (run actions next).1) (act a tracker).0 (run actions next).0 now rest
