-- ===== src/Out/Manager/Setup/Start.antt =====
-- What `NewManager` builds.
use wsbalancer.Prelude.{
  ℕ, suc, ◌≤◌, ◌<◌, ◌≡◌, refl, inl, inr, true, List, [], ◌∷◌, Option, none, some, count,
  UnlessPanics, Exec-cases, arith,
}
use wsbalancer.Out.Config.{BackendConfig, UpstreamConfig, sanitize}
use wsbalancer.Out.Backend.{Circuit, Backend, new_backend}
use wsbalancer.Out.Manager.{Manager, update}
use wsbalancer.Out.Manager.Invariant.{IsPartition, IsWellFormed}
use wsbalancer.Out.Manager.Setup.{make_backends, start_with, new_manager}

module _ {C W : Type 0} (breaker : Circuit C W) where
  -- The objects from `next` on are new, distinct and enabled, and no older one is touched.
  pub record IsMade (next : ℕ) (store : ℕ → Backend C) (refs : List ℕ) (store' : ℕ → Backend C)
      (next' : ℕ) : Type 0 where
    pub once : (a : ℕ) → count a refs ≤ 1
    pub new : (a : ℕ) → 1 ≤ count a refs → (next ≤ a) × (a < next')
    pub alive : (a : ℕ) → 1 ≤ count a refs → (store' a).enabled ≡ true
    pub older : (a : ℕ) → a < next → store' a ≡ store a
    pub grows : next ≤ next'

  IsMade-first :
      (bk : BackendConfig) (next : ℕ) (store store' : ℕ → Backend C) (refs : List ℕ) (next' : ℕ)
      → IsMade (suc next) (update store next (new_backend breaker bk)) refs store' next'
      → IsMade next store (next ∷ refs) store' next'
  unfolding update new_backend
  IsMade-first bk next store store' refs next' h = record {
    once = λ a. ground (arith, h.once a, h.new a);
    new = λ a p. ground (arith, h.new a, h.grows);
    alive = λ a p. ground (arith, h.alive a, h.older a);
    older = λ a p. ground (arith, h.older a);
    grows = omega arith;
  }

  make_backends-IsMade :
      (bks : List (Option BackendConfig)) (next : ℕ) (store : ℕ → Backend C)
      → UnlessPanics (λ t. IsMade next store t.0 t.1 t.2) (make_backends breaker bks next store)
  unfolding make_backends
  make_backends-IsMade [] next store = record {
    once = λ a. omega arith;
    new = λ a p. omega arith;
    alive = λ a p. absurd (omega arith);
    older = λ a p. refl;
    grows = omega arith;
  }
  make_backends-IsMade (none ∷ bks) next store = tt
  make_backends-IsMade (some bk ∷ bks) next store =
      let rest =
        make_backends breaker bks (suc next) (update store next (new_backend breaker bk)) in
      let ih = make_backends-IsMade bks (suc next) (update store next (new_backend breaker bk)) in
      elim (Exec-cases rest) [
        | inl e ↦ rw e tt
        | inr (t, e) ↦ rw e (IsMade-first bk next store t.1 t.0 t.2 (rw e at ih))
      ]

  abbrev pub WellFormedIfAny : Option (Manager C) → Type 0
  WellFormedIfAny none = Unit
  WellFormedIfAny (some m) = IsWellFormed m

  made-IsPartition :
      (store store' : ℕ → Backend C) (refs : List ℕ) (next : ℕ)
      → IsMade 0 store refs store' next
      → IsPartition refs [] next store'
  made-IsPartition store store' refs next h = record {
    once = λ a. omega (arith, h.once a);
    alive = h.alive;
    dead = λ a p. absurd (omega arith);
    fresh = λ a p. omega (arith, h.new a);
  }

  pub start_with-IsWellFormed :
      (blank : Backend C) (config : UpstreamConfig) (bks : List (Option BackendConfig))
      → UnlessPanics WellFormedIfAny (start_with breaker blank config bks)
  unfolding start_with
  start_with-IsWellFormed blank config [] = tt
  start_with-IsWellFormed blank config (bk ∷ bks) =
      let ih = make_backends-IsMade (bk ∷ bks) 0 (λ r. blank) in
      elim (Exec-cases (make_backends breaker (bk ∷ bks) 0 (λ r. blank))) [
        | inl e ↦ rw (e, start_with) tt
        | inr (t, e) ↦ rw (e, start_with) (made-IsPartition (λ r. blank) t.1 t.0 t.2 (rw e at ih))
      ]

  -- Every pool that `NewManager` returns is well formed.
  pub new_manager-IsWellFormed :
      (blank : Backend C) (uc : UpstreamConfig)
      → UnlessPanics WellFormedIfAny (new_manager breaker blank uc)
  unfolding new_manager
  new_manager-IsWellFormed blank uc = elim (Exec-cases (sanitize uc)) [
    | inl e ↦ rw (e, new_manager) tt
    | inr (config, e) ↦ rw (e, new_manager) (start_with-IsWellFormed blank config config.backends)
  ]
