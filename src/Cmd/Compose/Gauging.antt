-- ===== src/Cmd/Compose/Gauging.antt =====
-- The gauge of the sessions of a balancer that runs with instrumentation.
use wsbalancer.Prelude.{
  ℕ, ◌∙◌, [], ◌∷◌, count-append, ◌+◌, false, All, length, Returns, Returns-bind, returns, ◌≡◌, refl,
  Bool, true, Option, none, some, Text, arith, ==_iff,
}
use wsbalancer.In.Inc.{Socket, Inc}
use wsbalancer.In.Sessions.{Backends, Manager}
use wsbalancer.In.Sessions.Setup.{new_manager, add_valve_provider, add_session_listener}
use wsbalancer.In.Sessions.Listeners.{increments, decrements, sessions}
use wsbalancer.In.Sessions.Gauge.{IsOff, IsUntold}
use wsbalancer.In.Sessions.History.{Reachable, Reachable-IsOff, Reachable-IsUntold}
use wsbalancer.Inst.{InstrumentValve}
use wsbalancer.Out.Backend.{Circuit, Backend}
use wsbalancer.Out.Manager.Invariant.{IsWellFormed}
use wsbalancer.Out
use wsbalancer.Out.Config.Sanitized.{IsGiven, IsMatched}
use wsbalancer.Out.Manager.Setup.Started.{IsStarted, new_manager-IsStarted}
use wsbalancer.Cmd.Compose.{Config, Balancer, build_admin_server, compose, start}

module _ {K B W C V : Type 0} (backends : Backends B K W)
    (observe : Text → InstrumentValve → ℕ → W → W) (breaker : Circuit C V) where
  compose-IsUntold :
      (p : B → Bool) (blank : ℕ → Inc K) (pp : ℕ) (cfg : Config)
      → IsUntold p pp (new_manager {B = B} {W = W} blank cfg.server)
  unfolding new_manager
  compose-IsUntold p blank pp cfg = record {
    absent = refl;
    no_increments = refl;
    no_decrements = refl;
  }

  -- The listener is registered, and misses the sessions there are.
  build_admin_server-IsOff :
      (p : B → Bool) (pp : ℕ) (cfg : Config) (m : Manager K B W)
      → cfg.server.enable_instrumentation ≡ true
      → IsUntold p pp m
      → IsOff p pp (sessions p m.clients) (build_admin_server backends observe pp cfg.server m).1
  unfolding build_admin_server add_session_listener add_valve_provider
  build_admin_server-IsOff p pp cfg m e u =
      rw (e, build_admin_server)
        (record {
          once =
              count-append pp m.session_listeners (pp ∷ [])
              ∙ rw (u.absent) (ground (arith, ==_iff pp pp));
          off_by = omega (arith, u.no_increments, u.no_decrements);
        })

  -- What a balancer over `n` backends does from then on; without one it is not started.
  abbrev pub IsInstrumented : Socket K → ℕ → ℕ → Config → Option (Balancer K B W C) → Type 0
  IsInstrumented ws pp n cfg none = n ≡ 0
  IsInstrumented ws pp n cfg (some b) =
      IsWellFormed b.pool
      × (length b.pool.backends ≡ n)
      × ((p : B → Bool) (early m : Manager K B W)
          → Reachable ws backends b.manager early
          → Reachable ws backends (build_admin_server backends observe pp cfg.server early).1 m
          → increments p pp m.told + sessions p early.clients
            ≡ decrements p pp m.told + sessions p m.clients)

  started :
      (ws : Socket K) (blank : ℕ → Inc K) (pp n : ℕ) (cfg : Config)
      → cfg.server.enable_instrumentation ≡ true
      → (made : Option (Out.Manager.Manager C)) → IsStarted breaker n made
      → Returns (IsInstrumented ws pp n cfg) (
          returns (elim made [
            | none ↦ none
            | some pool ↦ some (compose backends observe breaker blank pp cfg pool)
          ]))
  unfolding compose
  started ws blank pp n cfg e none h = h
  started ws blank pp n cfg e (some pool) h = (
    h.0,
    h.1,
    λ p early m r r'.
        let untold =
          Reachable-IsUntold ws backends p pp _ early (compose-IsUntold p blank pp cfg) r in
        (Reachable-IsOff ws backends p pp _ _ m (build_admin_server-IsOff p pp cfg early e untold)
          r').off_by,
  )

  -- With instrumentation, and with a configuration of the backends that was not sanitized before, has
  -- no nil backend, and gives either no IDs or as many as URLs, `main` starts the balancer, unless
  -- there is neither a backend nor a URL. The pool has a backend for each of them, all enabled and
  -- distinct. Both servers start at once, so there may be a history of requests, registrations,
  -- unregistrations, aborts, pauses, and changes that the clients' own routines make before the
  -- administrative server registers its listener, and another one behind it. However they go, the gauge
  -- of the active sessions for the backend connections of any label has then gone up, less how often it
  -- has gone down, by the number of the sessions over such connections that there are, less those that
  -- there were when the listener was registered: it is right exactly if there was none.
  pub start-IsInstrumented :
      (ws : Socket K) (blank_backend : Backend C) (blank : ℕ → Inc K) (pp : ℕ) (cfg : Config)
      → cfg.server.enable_instrumentation ≡ true
      → cfg.upstream.sanitized ≡ false
      → All IsGiven cfg.upstream.backends
      → IsMatched cfg.upstream.urls cfg.upstream.ids
      → Returns
          (IsInstrumented ws pp (length cfg.upstream.backends + length cfg.upstream.urls) cfg)
          (start backends observe breaker blank_backend blank pp cfg)
  unfolding start
  start-IsInstrumented ws blank_backend blank pp cfg e fresh given matched =
      let n = length cfg.upstream.backends + length cfg.upstream.urls in
      Returns-bind (IsStarted breaker n) (IsInstrumented ws pp n cfg)
        (Out.Manager.Setup.new_manager breaker blank_backend cfg.upstream) _
        (new_manager-IsStarted breaker blank_backend cfg.upstream fresh given matched)
        (started ws blank pp n cfg e)
