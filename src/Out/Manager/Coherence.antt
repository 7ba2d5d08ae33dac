-- ===== src/Out/Manager/Coherence.antt =====
-- `DeleteBackend` of out/outc_manager.go where each backend has its own ID and one entry of the
-- configuration.
use mathlib.Core.List.{append-nil}
use wsbalancer.Prelude.{
  ℕ, ◌+◌, ◌≤◌, ◌≡◌, refl, sym, ◌≢◌, ◌⊎◌, [], ◌∷◌, ◌++◌, Text, count, returns, Returns, Option-cases,
  inl, inr, arith, ◌∙◌,
}
use wsbalancer.Common.{Result, success, no_action_reqd}
use wsbalancer.Out.Config.{UpstreamConfig}
use wsbalancer.Out.Backend.{Backend}
use wsbalancer.Out.Manager.{
  Manager, id_of, update, delete, find_index, delete_backend_config, delete_disabled,
  delete_enabled, delete_backend,
}
use wsbalancer.Out.Manager.Lookup.{Found, find_index-Found, Found-index, Found-remove, Found-count}
use wsbalancer.Out.Manager.Invariant.{IsWellFormed, deleted-IsPartition}
use wsbalancer.Out.Manager.Deletion.{
  count_id, without, HasNoNil, delete_backend_config_lem, HasNoNil-without, count_id-without,
  count_id-without_same,
}

module _ {C : Type 0} where
  -- How often an object stands in the two lists.
  abbrev pub owned : Manager C → ℕ → ℕ
  owned m a = count a m.backends + count a m.disabled_be

  -- Distinct backends have distinct IDs, and each has one entry in the configuration.
  pub record IsCoherent (m : Manager C) : Type 0 where
    pub no_nil : HasNoNil m.config.backends
    pub one_entry : (a : ℕ) → 1 ≤ owned m a → count_id (id_of m.store a) m.config.backends ≡ 1
    pub own_id :
        (a b : ℕ) → 1 ≤ owned m a → 1 ≤ owned m b → id_of m.store a ≡ id_of m.store b → a ≡ b

  -- The configuration behind the deletion of an object that is the only one of its ID.
  abbrev pub dropped : Manager C → ℕ → UpstreamConfig
  dropped m r = record m.config { backends = without (id_of m.store r) m.config.backends }

  pub edit_lem :
      (m : Manager C) (r : ℕ)
      → IsCoherent m
      → 1 ≤ owned m r
      → delete_backend_config (id_of m.store r) m.config ≡ returns (dropped m r)
  edit_lem m r c h =
      delete_backend_config_lem (id_of m.store r) m.config 0 c.no_nil (c.one_entry r h)
      ∙ rw (append-nil (without (id_of m.store r) m.config.backends))

  pub id_of-delete :
      (store : ℕ → Backend C) (r a : ℕ)
      → id_of (update store r (delete (store r))) a ≡ id_of store a
  unfolding update delete
  id_of-delete store r a = ground arith

  deleted-IsCoherent :
      (m m' : Manager C) (r : ℕ)
      → IsCoherent m
      → 1 ≤ owned m r
      → ((a : ℕ) → 1 ≤ owned m' a → (1 ≤ owned m a) × (a ≢ r))
      → m'.config ≡ dropped m r
      → m'.store ≡ update m.store r (delete (m.store r))
      → IsCoherent m'
  deleted-IsCoherent m m' r c h left ec es = record {
    no_nil = rw ec (HasNoNil-without (id_of m.store r) m.config.backends c.no_nil);
    one_entry = λ a p.
        rw (ec, same_id a)
          (count_id-without (id_of m.store r) (id_of m.store a) m.config.backends
              (λ e. (left a p).1 (sym (c.own_id r a h (left a p).0 e)))
            ∙ c.one_entry a (left a p).0);
    own_id = λ a b p q e. c.own_id a b (left a p).0 (left b q).0 (sym (same_id a) ∙ e ∙ same_id b);
  }
    where
      same_id : (a : ℕ) → id_of m'.store a ≡ id_of m.store a
      same_id a = rw es (id_of-delete m.store r a)

  -- Nothing in the pool has the ID.
  pub record IsGone (id : Text) (m : Manager C) : Type 0 where
    pub no_entry : count_id id m.config.backends ≡ 0
    pub no_backend : (a : ℕ) → 1 ≤ owned m a → id_of m.store a ≢ id

  deleted-IsGone :
      (id : Text) (m m' : Manager C) (r : ℕ)
      → IsCoherent m
      → 1 ≤ owned m r
      → id_of m.store r ≡ id
      → ((a : ℕ) → 1 ≤ owned m' a → (1 ≤ owned m a) × (a ≢ r))
      → m'.config ≡ dropped m r
      → m'.store ≡ update m.store r (delete (m.store r))
      → IsGone id m'
  deleted-IsGone id m m' r c h has_id left ec es = record {
    no_entry = rw (ec, has_id) (count_id-without_same id m.config.backends);
    no_backend = λ a p e.
        (left a p).1
          (c.own_id a r (left a p).0 h (sym (rw es (id_of-delete m.store r a)) ∙ e ∙ sym has_id));
  }

  -- The ID is gone, or there was nothing to delete and nothing has changed.
  abbrev pub Deletes : Text → Manager C → Result × Manager C → Type 0
  Deletes id m t = ((t.0 ≡ success) × IsGone id t.1) ⊎ ((t.0 ≡ no_action_reqd) × (t.1 ≡ m))

  abbrev pub Keeps : Text → Manager C → Result × Manager C → Type 0
  Keeps id m t = IsWellFormed t.1 × (IsCoherent t.1 × Deletes id m t)

  pub delete_disabled-Keeps :
      (id : Text) (idx : ℕ) (m : Manager C)
      → Found m.store m.disabled_be id idx
      → IsWellFormed m
      → IsCoherent m
      → Returns (Keeps id m) (delete_disabled idx m)
  unfolding delete_disabled delete
  delete_disabled-Keeps id idx m f w c =
      rw
        (
          Found-index m.disabled_be id idx f,
          edit_lem m f.found c has,
          Found-remove m.disabled_be id idx f,
        )
        (
          deleted-IsPartition m.backends m.backends m.disabled_be (f.before ++ f.behind) m.next_ref
              f.found m.store (λ a. omega (arith, counted a)) (λ a. omega arith)
              (λ a. omega (arith, counted a)) w,
          (
            deleted-IsCoherent m _ f.found c has left refl refl,
            inl (refl, deleted-IsGone id m _ f.found c has f.has_id left refl refl),
          ),
        )
    where
      counted :
          (a : ℕ) → count a m.disabled_be ≡ count a (f.before ++ f.behind) + count a (f.found ∷ [])
      counted = Found-count m.disabled_be id idx f

      has : 1 ≤ owned m f.found
      has = ground (arith, counted f.found)

      left :
          (a : ℕ)
          → 1 ≤ count a m.backends + count a (f.before ++ f.behind)
          → (1 ≤ owned m a) × (a ≢ f.found)
      left a h = ground (arith, counted a, w.once a)

  pub delete_enabled-Keeps :
      (id : Text) (idx : ℕ) (m : Manager C)
      → Found m.store m.backends id idx
      → IsWellFormed m
      → IsCoherent m
      → Returns (Keeps id m) (delete_enabled idx m)
  unfolding delete_enabled delete
  delete_enabled-Keeps id idx m f w c =
      rw
        (
          Found-index m.backends id idx f,
          Found-remove m.backends id idx f,
          edit_lem m f.found c has,
        )
        (
          deleted-IsPartition m.backends (f.before ++ f.behind) m.disabled_be m.disabled_be
              m.next_ref f.found m.store (λ a. omega (arith, counted a))
              (λ a. omega (arith, counted a)) (λ a. omega arith) w,
          (
            deleted-IsCoherent m _ f.found c has left refl refl,
            inl (refl, deleted-IsGone id m _ f.found c has f.has_id left refl refl),
          ),
        )
    where
      counted :
          (a : ℕ) → count a m.backends ≡ count a (f.before ++ f.behind) + count a (f.found ∷ [])
      counted = Found-count m.backends id idx f

      has : 1 ≤ owned m f.found
      has = ground (arith, counted f.found)

      left :
          (a : ℕ)
          → 1 ≤ count a (f.before ++ f.behind) + count a m.disabled_be
          → (1 ≤ owned m a) × (a ≢ f.found)
      left a h = ground (arith, counted a, w.once a)

  -- On a pool where the lists partition the backends into enabled and disabled ones, and distinct
  -- backends have distinct IDs and one entry of the configuration each, deleting returns for every ID,
  -- and keeps all this. Either it reports success, and no backend and no entry has the ID any more; or
  -- it reports that there was nothing to do, and changes nothing.
  pub delete_backend-Keeps :
      (id : Text) (m : Manager C)
      → IsWellFormed m
      → IsCoherent m
      → Returns (λ t. IsWellFormed t.1 × (IsCoherent t.1 × Deletes id m t)) (delete_backend id m)
  unfolding delete_backend
  delete_backend-Keeps id m w c = elim (Option-cases (find_index m.store m.disabled_be id)) [
    | inr (i, e) ↦
        rw (e, delete_backend)
          (delete_disabled-Keeps id i m (find_index-Found m.store m.disabled_be id i e) w c)
    | inl e ↦ elim (Option-cases (find_index m.store m.backends id)) [
      | inl n ↦ rw (e, n, delete_backend) (w, (c, inr (refl, refl)))
      | inr (i, n) ↦
          rw (e, n, delete_backend)
            (delete_enabled-Keeps id i m (find_index-Found m.store m.backends id i n) w c)
    ]
  ]
