-- ===== src/Out/Manager/History.antt =====
-- Histories of the pool of out/outc_manager.go: dials, the administrative calls, and what the backends'
-- own routines do, in any order.
pub mod Started
use wsbalancer.Prelude.{
  ℕ, ◌≡◌, refl, sym, ap, ◌∙◌, inl, inr, some, List, Option, Text, ℤ, returns, Returns, Option-cases,
  of_return, arith,
}
use mathlib.Core.Path.{subst}
use wsbalancer.Common.{Result}
use wsbalancer.Out.Backend.{Circuit, Backend, BackendDialContext, DialRequest, DialReply, reset}
use wsbalancer.Out.Manager.{Manager, NewBackendDef, update}
use wsbalancer.Out.Manager.Invariant.{IsWellFormed}
use wsbalancer.Out.Manager.Coherence.{IsCoherent}
use wsbalancer.Out.Manager.Deletion.{count_id}
use wsbalancer.Out.Config.{or_normalized}
use wsbalancer.Out.Manager.Dial.{Upstream, dial_upstream}
use wsbalancer.Out.Manager.Dial.Outcome.{IsRefreshed, dial_upstream-IsRefreshed}
use wsbalancer.Out.Manager.Setup.{add_backend, reset_backend}
use wsbalancer.Out.Manager.Setup.Reset.{Resets, reset_backend-Resets}
use wsbalancer.Out.Manager.Setup.Growth.{add_backend-IsWellFormed, add_backend-IsCoherent}
use wsbalancer.Out.Manager.Registry.{Command, call}
use wsbalancer.Out.Manager.Registry.Moves.{Moves, kept-IsCoherent}
use wsbalancer.Out.Manager.Registry.Refinement.{call-Moves}

module _ {C K W : Type 0} (breaker : Circuit C W) (dial : DialRequest → W → DialReply K × W)
    (unmarshal : List ℕ → Option NewBackendDef) (time_parse : Text → Option ℤ) where
  -- A backend's own routines change its counters, its breaker and its channel only. An addition is
  -- for an ID that no entry of the configuration has.
  pub data Step (m : Manager C) : Manager C → Type 0 where
    dialling :
        (ctx : BackendDialContext K) (w : W) {up : Upstream C K W} {m' : Manager C}
        → dial_upstream breaker dial ctx m w ≡ returns (up, m')
        → Step m m'
    calling :
        (c : Command) (id : Text) {result : Result} {m' : Manager C}
        → call c id m ≡ returns (result, m')
        → Step m m'
    adding :
        (bytes : List ℕ)
        → ((d : NewBackendDef)
            → unmarshal bytes ≡ some d
            → count_id (or_normalized d.id d.url) m.config.backends ≡ 0)
        → Step m (add_backend breaker unmarshal time_parse bytes m).1
    resetting :
        (w : W) (id : Text) {result : Result} {m' : Manager C}
        → reset_backend breaker w id m ≡ returns (result, m')
        → Step m m'
    running :
        (r : ℕ) (bk : Backend C)
        → bk.config ≡ (m.store r).config
        → bk.enabled ≡ (m.store r).enabled
        → Step m (record m { store = update m.store r bk })

  pub data Reachable (start : Manager C) : Manager C → Type 0 where
    here : Reachable start start
    onward : {m m' : Manager C} → Reachable start m → Step m m' → Reachable start m'

  -- The lists partition the backends into enabled and disabled ones, and distinct backends have
  -- distinct IDs and one entry of the configuration each.
  abbrev pub IsSound : Manager C → Type 0
  IsSound m = IsWellFormed m × IsCoherent m

  refreshed-IsSound :
      (m : Manager C) (next : ℕ) (store : ℕ → Backend C)
      → ((a : ℕ) → (store a).config ≡ (m.store a).config)
      → ((a : ℕ) → (store a).enabled ≡ (m.store a).enabled)
      → IsSound m
      → IsSound (record m { next_backend_idx = next; store = store })
  refreshed-IsSound m next store configs flags (w, c) = (
    record {
      once = w.once;
      alive = λ a h. flags a ∙ w.alive a h;
      dead = λ a h. flags a ∙ w.dead a h;
      fresh = w.fresh;
    },
    kept-IsCoherent m (record m { next_backend_idx = next; store = store }) c refl
        (λ a. ap (λ cfg. cfg.id) (configs a)) (λ a. refl),
  )

  updated-IsSound :
      (m : Manager C) (r : ℕ) (bk : Backend C)
      → bk.config ≡ (m.store r).config
      → bk.enabled ≡ (m.store r).enabled
      → IsSound m
      → IsSound (record m { store = update m.store r bk })
  unfolding update
  updated-IsSound m r bk config flag h =
      refreshed-IsSound m m.next_backend_idx (update m.store r bk) (λ a. ground (arith, config))
        (λ a. ground (arith, flag)) h

  reset_lem :
      (w : W) (bk : Backend C)
      → ((reset breaker w bk).config ≡ bk.config) × ((reset breaker w bk).enabled ≡ bk.enabled)
  unfolding reset
  reset_lem w bk = (refl, refl)

  Step-IsSound : (m m' : Manager C) → Step m m' → IsSound m → IsSound m'
  unfolding add_backend
  Step-IsSound m m' (dialling ctx w {up} e) h =
      let fresh =
        of_return (λ t. IsRefreshed breaker dial ctx m t.1) _ (up, m')
          (dial_upstream-IsRefreshed breaker dial ctx m w) e in
      subst IsSound (sym fresh.left)
        (refreshed-IsSound m m'.next_backend_idx m'.store fresh.config fresh.enabled h)
  Step-IsSound m m' (calling c id {result} e) h =
      let moves = call-Moves c id m h.0 h.1 in
      let moved : Moves c id m (result, m') = subst (Returns (Moves c id m)) e moves in
      (moved.0, moved.1)
  Step-IsSound m _ (adding bytes fresh) h = (
    add_backend-IsWellFormed breaker unmarshal time_parse bytes m h.0,
    elim (Option-cases (unmarshal bytes)) [
      | inl e ↦ rw (e, add_backend) h.1
      | inr (d, e) ↦
          add_backend-IsCoherent breaker unmarshal time_parse bytes d m h.0 h.1 e (fresh d e)
    ],
  )
  Step-IsSound m m' (resetting w id {result} e) h =
      let resets : Resets breaker w id m (result, m') =
        subst (Returns (Resets breaker w id m)) e (reset_backend-Resets breaker w id m) in
      elim resets [
        | inl (refused, same) ↦ subst IsSound (sym same) h
        | inr (r, done, named, tripped, closed, same) ↦
            let kept = reset_lem w (m.store r) in
            subst IsSound (sym same)
              (updated-IsSound m r (reset breaker w (m.store r)) kept.0 kept.1 h)
      ]
  Step-IsSound m _ (running r bk config flag) h = updated-IsSound m r bk config flag h

  -- From a pool where the lists partition the backends into enabled and disabled ones, and distinct
  -- backends have distinct IDs and one entry of the configuration each: behind every history of
  -- dials, whatever the world answers, calls that disable, enable and delete backends, resets,
  -- additions of backends with new IDs, and what the backends' own routines do, all this is so again.
  -- Every further call that disables, enables or deletes a backend then returns, and does to its ID,
  -- and to no other, what the command does on a map from IDs to absent, enabled or disabled.
  pub Reachable-IsSound :
      (start m : Manager C)
      → IsSound start
      → Reachable start m
      → IsSound m × ((c : Command) (id : Text) → Returns (Moves c id m) (call c id m))
  Reachable-IsSound start m h r =
      let kept = along m r in (kept, λ c id. call-Moves c id m kept.0 kept.1)
    where
      along : (m' : Manager C) → Reachable start m' → IsSound m'
      along _ here = h
      along m' (onward {m = before} r' step) = Step-IsSound before m' step (along before r')
