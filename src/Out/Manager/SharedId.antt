-- ===== src/Out/Manager/SharedId.antt =====
-- `DeleteBackend` of out/outc_manager.go where several entries of the configuration have the ID.
use wsbalancer.Prelude.{
  ℕ, suc, ◌≡◌, refl, ◌≢◌, ◌⊎◌, inl, inr, List, [], ◌∷◌, ◌++◌, Option, none, some, Text, returns,
  panics, Returns, Option-cases, Exec-cases, get_elem?,
}
use wsbalancer.Common.{Result, success}
use wsbalancer.Out.Config.{UpstreamConfig, BackendConfig}
use wsbalancer.Out.Manager.{
  Manager, id_of, find_index, room_for, delete_backend_config, delete_disabled, delete_enabled,
  delete_backend, remove_from_index,
}
use wsbalancer.Out.Manager.Lookup.{find_index-Found, Found-index, Found-remove}
use wsbalancer.Out.Manager.Deletion.{
  count_id, without, HasNoNil, nils, delete_backend_config_lem, keep_configs_nil,
}

-- The configuration has a nil entry.
abbrev pub HasNil : List (Option BackendConfig) → Type 0
HasNil bks =
    (xs : List (Option BackendConfig)) × (ys : List (Option BackendConfig)) × (bks
      ≡ xs ++ none ∷ ys)

room_for_any :
    (xs ys : List (Option BackendConfig)) → (n : ℕ) × (room_for (xs ++ none ∷ ys) ≡ returns n)
unfolding room_for
room_for_any [] ys = (_, refl)
room_for_any (x ∷ xs) ys = (_, refl)

edit_panics :
    (id : Text) (config : UpstreamConfig)
    → HasNil config.backends
    → delete_backend_config id config ≡ panics
unfolding delete_backend_config
edit_panics id config (xs, ys, e) =
    let (n, has_room) = room_for_any xs ys in rw (e, has_room) (rw (keep_configs_nil id n xs ys))

module _ {C : Type 0} where
  -- Some backend is found under the ID.
  abbrev pub IsKnown : Text → Manager C → Type 0
  IsKnown id m =
      (find_index m.store m.disabled_be id ≢ none) ⊎ (find_index m.store m.backends id ≢ none)

  delete_disabled-panics :
      (idx : ℕ) (m : Manager C) → HasNil m.config.backends → delete_disabled idx m ≡ panics
  unfolding delete_disabled
  delete_disabled-panics idx m h = elim (Option-cases (get_elem? m.disabled_be idx)) [
    | inl e ↦ rw e
    | inr (r, e) ↦ rw (e, edit_panics (id_of m.store r) m.config h)
  ]

  delete_enabled-panics :
      (idx : ℕ) (m : Manager C) → HasNil m.config.backends → delete_enabled idx m ≡ panics
  unfolding delete_enabled
  delete_enabled-panics idx m h = elim (Option-cases (get_elem? m.backends idx)) [
    | inl e ↦ rw e
    | inr (r, e) ↦ elim (Exec-cases (remove_from_index m.backends idx)) [
      | inl n ↦ rw (e, n)
      | inr (rest, n) ↦ rw (e, n, edit_panics (id_of m.store r) m.config h)
    ]
  ]

  nil-panics :
      (id : Text) (m : Manager C)
      → HasNil m.config.backends
      → IsKnown id m
      → delete_backend id m ≡ panics
  unfolding delete_backend
  nil-panics id m h known = elim (Option-cases (find_index m.store m.disabled_be id)) [
    | inr (i, e) ↦ rw (e, delete_backend) (delete_disabled-panics i m h)
    | inl e ↦ elim (Option-cases (find_index m.store m.backends id)) [
      | inr (i, n) ↦ rw (e, n, delete_backend) (delete_enabled-panics i m h)
      | inl n ↦ elim known [ inl k ↦ absurd (k e) | inr k ↦ absurd (k n) ]
    ]
  ]

  -- Every further deletion of an ID that is found panics.
  abbrev pub PanicsNext : Result × Manager C → Type 0
  PanicsNext t = (id : Text) → IsKnown id t.1 → delete_backend id t.1 ≡ panics

  -- Deleting an enabled backend whose ID is also that of another entry of the configuration
  -- succeeds, and from then on the deletion of any backend that is found panics.
  pub delete_shared_id :
      (id : Text) (idx k : ℕ) (m : Manager C)
      → find_index m.store m.disabled_be id ≡ none
      → find_index m.store m.backends id ≡ some idx
      → HasNoNil m.config.backends
      → count_id id m.config.backends ≡ suc (suc k)
      → Returns (λ t. (t.0 ≡ success) × PanicsNext t) (delete_backend id m)
  unfolding delete_backend delete_enabled
  delete_shared_id id idx k m e n h c =
      let f = find_index-Found m.store m.backends id idx n in
      rw
        (
          e,
          n,
          delete_backend,
          Found-index m.backends id idx f,
          Found-remove m.backends id idx f,
          f.has_id,
          delete_backend_config_lem id m.config (suc k) h c,
        )
        (refl, λ next known. nil-panics next _ (without id m.config.backends, nils k, refl) known)
