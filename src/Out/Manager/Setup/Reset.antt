-- ===== src/Out/Manager/Setup/Reset.antt =====
-- `ResetBackend`: when it resets, and what.
use wsbalancer.Prelude.{
  ℕ, ◌≡◌, refl, ◌≢◌, ◌⊎◌, inl, inr, true, false, Text, Returns, Option-cases, Bool-cases, arith,
  ◌∙◌, ap,
}
use wsbalancer.Common.{Result, success}
use wsbalancer.Out.Backend.{
  Circuit, Breaker, dummy_breaker, circuit_breaker, Backend, is_tripped, reset,
}
use wsbalancer.Out.Manager.{Manager, update, id_of, find_index, modify}
use wsbalancer.Out.Manager.Lookup.{find_index-Found, Found-index}
use wsbalancer.Out.Manager.Setup.{reset_enabled, reset_backend}

module _ {C W : Type 0} (breaker : Circuit C W) (w : W) where
  is_tripped-reset : (bk : Backend C) → is_tripped breaker (reset breaker w bk) ≡ false
  unfolding is_tripped reset
  is_tripped-reset bk = by_breaker bk.breaker
    where
      by_breaker :
          (b : Breaker C) → is_tripped breaker (reset breaker w (record bk { breaker = b })) ≡ false
      by_breaker dummy_breaker = refl
      by_breaker (circuit_breaker c) = breaker.tripped-reset w c

  -- Nothing changed, and the result is no success; or a tripped backend with the ID was reset.
  abbrev pub Resets : Text → Manager C → Result × Manager C → Type 0
  Resets id m t =
      ((t.0 ≢ success) × (t.1 ≡ m))
      ⊎ ((r : ℕ) × (t.0 ≡ success)
          × (id_of m.store r ≡ id)
          × (is_tripped breaker (m.store r) ≡ true)
          × (is_tripped breaker (t.1.store r) ≡ false)
          × (t.1 ≡ record m { store = update m.store r (reset breaker w (m.store r)) }))

  update_self : (store : ℕ → Backend C) (r : ℕ) (bk : Backend C) → update store r bk r ≡ bk
  unfolding update
  update_self store r bk = ground arith

  reset_at :
      (id : Text) (m : Manager C) (r : ℕ)
      → id_of m.store r ≡ id
      → is_tripped breaker (m.store r) ≡ true
      → Resets id m (success, modify (reset breaker w) r m)
  reset_at id m r e tripped = inr (
    r,
    refl,
    e,
    tripped,
    ap (is_tripped breaker) (update_self m.store r (reset breaker w (m.store r)))
        ∙ is_tripped-reset (m.store r),
    refl,
  )

  reset_enabled-Resets :
      (id : Text) (m : Manager C) → Returns (Resets id m) (reset_enabled breaker w id m)
  unfolding reset_enabled
  reset_enabled-Resets id m = elim (Option-cases (find_index m.store m.backends id)) [
    | inl e ↦ rw (e, reset_enabled) (inl (λ h. cc, refl))
    | inr (i, e) ↦
        let f = find_index-Found m.store m.backends id i e in
        elim (Bool-cases (is_tripped breaker (m.store f.found))) [
          | inl hit ↦
              rw (e, reset_enabled, Found-index m.backends id i f, hit)
                (reset_at id m f.found f.has_id hit)
          | inr miss ↦
              rw (e, reset_enabled, Found-index m.backends id i f, miss) (inl (λ h. cc, refl))
        ]
  ]

  -- `ResetBackend` returns on every input. It reports success exactly where it resets a tripped
  -- backend that has the ID, whose breaker is then closed; otherwise it changes nothing.
  pub reset_backend-Resets :
      (id : Text) (m : Manager C) → Returns (Resets id m) (reset_backend breaker w id m)
  unfolding reset_backend
  reset_backend-Resets id m = elim (Option-cases (find_index m.store m.disabled_be id)) [
    | inl e ↦ rw (e, reset_backend) (reset_enabled-Resets id m)
    | inr (i, e) ↦
        let f = find_index-Found m.store m.disabled_be id i e in
        elim (Bool-cases (is_tripped breaker (m.store f.found))) [
          | inl hit ↦
              rw (e, reset_backend, Found-index m.disabled_be id i f, hit)
                (reset_at id m f.found f.has_id hit)
          | inr miss ↦
              rw (e, reset_backend, Found-index m.disabled_be id i f, miss)
                (reset_enabled-Resets id m)
        ]
  ]
