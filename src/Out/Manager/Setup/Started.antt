-- ===== src/Out/Manager/Setup/Started.antt =====
-- When `NewManager` of out/outc_manager.go gives a pool.
use wsbalancer.Prelude.{
  ℕ, suc, ◌+◌, ◌≤◌, ◌≡◌, refl, false, List, [], ◌∷◌, Option, none, some, All, length, Returns,
  Returns-bind, Returns-both, Returns-mono, arith,
}
use mathlib.Core.Path.{subst}
use wsbalancer.Out.Config.{BackendConfig, UpstreamConfig, sanitize}
use wsbalancer.Out.Config.Sanitized.{IsSane, IsGiven, IsMatched, sanitize-Sane}
use wsbalancer.Out.Backend.{Circuit, Backend, new_backend}
use wsbalancer.Out.Manager.{Manager, update}
use wsbalancer.Out.Manager.Invariant.{IsWellFormed}
use wsbalancer.Out.Manager.Setup.{make_backends, start_with, new_manager}
use wsbalancer.Out.Manager.Setup.Start.{WellFormedIfAny, start_with-IsWellFormed}

module _ {C W : Type 0} (breaker : Circuit C W) where
  -- A pool of `n` backends, or an error where there are none.
  abbrev pub IsStarted : ℕ → Option (Manager C) → Type 0
  IsStarted n none = n ≡ 0
  IsStarted n (some m) = IsWellFormed m × (length m.backends ≡ n) × (1 ≤ n)

  make_backends-length :
      (bks : List (Option BackendConfig)) (next : ℕ) (store : ℕ → Backend C)
      → All IsSane bks
      → Returns (λ t. length t.0 ≡ length bks) (make_backends breaker bks next store)
  unfolding make_backends
  make_backends-length [] next store h = refl
  make_backends-length (none ∷ bks) next store h = absurd h.0
  make_backends-length (some bk ∷ bks) next store h =
      let store' = update store next (new_backend breaker bk) in
      Returns-bind (λ t. length t.0 ≡ length bks) (λ t. length t.0 ≡ suc (length bks))
        (make_backends breaker bks (suc next) store') _
        (make_backends-length bks (suc next) store' h.1) (λ t e. omega (arith, e))

  abbrev Sized : ℕ → Option (Manager C) → Type 0
  Sized n none = n ≡ 0
  Sized n (some m) = (length m.backends ≡ n) × (1 ≤ n)

  start_with-Sized :
      (blank : Backend C) (config : UpstreamConfig) (bks : List (Option BackendConfig))
      → All IsSane bks
      → Returns (Sized (length bks)) (start_with breaker blank config bks)
  unfolding start_with
  start_with-Sized blank config [] h = refl
  start_with-Sized blank config (bk ∷ bks) h =
      Returns-bind (λ t. length t.0 ≡ length (bk ∷ bks)) (Sized (length (bk ∷ bks)))
        (make_backends breaker (bk ∷ bks) 0 (λ r. blank)) _
        (make_backends-length (bk ∷ bks) 0 (λ r. blank) h) (λ t e. (e, omega arith))

  both_lem :
      (n : ℕ) (o : Option (Manager C)) → Sized n o × WellFormedIfAny breaker o → IsStarted n o
  both_lem n none h = h.0
  both_lem n (some m) h = (h.1, h.0.0, h.0.1)

  -- A configuration that was not sanitized before, has no nil backend, and gives either no IDs or as
  -- many as URLs: `NewManager` returns. It gives an error where there is neither a backend nor a URL,
  -- and otherwise a pool with a backend for each of them, all enabled and distinct.
  pub new_manager-IsStarted :
      (blank : Backend C) (uc : UpstreamConfig)
      → uc.sanitized ≡ false
      → All IsGiven uc.backends
      → IsMatched uc.urls uc.ids
      → Returns (IsStarted (length uc.backends + length uc.urls)) (new_manager breaker blank uc)
  unfolding new_manager
  new_manager-IsStarted blank uc fresh given matched =
      let n = length uc.backends + length uc.urls in
      Returns-bind (λ c. All IsSane c.backends × (length c.backends ≡ n)) (IsStarted n)
        (sanitize uc) _ (sanitize-Sane uc fresh given matched)
        (λ c s.
          Returns-mono (start_with breaker blank c c.backends)
            (λ o h. subst (λ k. IsStarted k o) s.1 (both_lem (length c.backends) o h))
            (Returns-both (Sized (length c.backends)) (WellFormedIfAny breaker)
              (start_with breaker blank c c.backends) (start_with-Sized blank c c.backends s.0)
              (start_with-IsWellFormed breaker blank c c.backends)))
