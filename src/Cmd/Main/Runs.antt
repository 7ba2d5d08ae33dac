-- ===== src/Cmd/Main/Runs.antt =====
-- How the process of main.go ends, or what it serves.
use wsbalancer.Prelude.{
  ℕ, ◌+◌, ◌≤◌, ◌≡◌, refl, true, false, [], ◌++◌, Option, none, some, Text, ◌⊎◌, inl, inr, All,
  length, Returns, Returns-bind, Bool-cases, Option-cases,
}
use wsbalancer.In.Inc.{Inc}
use wsbalancer.In.Sessions.{Backends}
use wsbalancer.In.Sessions.Setup.{new_manager, add_valve_provider, add_session_listener}
use wsbalancer.Inst.{InstrumentValve}
use wsbalancer.Out.Backend.{Circuit, Backend}
use wsbalancer.Out.Config.Sanitized.{IsGiven, IsMatched}
use wsbalancer.Out
use wsbalancer.Out.Manager.Invariant.{IsWellFormed}
use wsbalancer.Out.Manager.Setup.Started.{IsStarted, new_manager-IsStarted}
use wsbalancer.Cmd.Compose.{
  Config, Balancer, start, compose, build_admin_server, build_frontend_server,
}
use wsbalancer.Cmd.Main.{
  Flags, Environment, Outcome, exits, serves, println, no_backend, configuration, usage, print_help,
  composed, configured, main,
}

module _ {K B W C V : Type 0} (backends : Backends B K W)
    (observe : Text → InstrumentValve → ℕ → W → W) (breaker : Circuit C V) (env : Environment)
    (blank_backend : Backend C) (blank : ℕ → Inc K) (pp : ℕ) where
  abbrev entries : Config → ℕ
  entries cfg = length cfg.upstream.backends + length cfg.upstream.urls

  -- What is served for a configuration.
  abbrev pub IsServed : Config → Option (Balancer K B W C) → Type 0
  IsServed cfg none = entries cfg ≡ 0
  IsServed cfg (some b) =
      IsWellFormed b.pool
      × (length b.pool.backends ≡ entries cfg)
      × (1 ≤ entries cfg)
      × (b.manager.clients ≡ [])
      × (b.manager.paused ≡ false)
      × (b.frontend_server.metrics ≡ false)
      × (b.admin_server.metrics ≡ cfg.server.enable_instrumentation)

  compose-IsServed :
      (cfg : Config) (made : Option (Out.Manager.Manager C))
      → IsStarted breaker (entries cfg) made
      → IsServed cfg (elim made [
        | none ↦ none
        | some pool ↦ some (compose backends observe breaker blank pp cfg pool)
      ])
  unfolding compose build_admin_server build_frontend_server add_valve_provider add_session_listener
      new_manager
  compose-IsServed cfg none h = h
  compose-IsServed cfg (some pool) (w, n, some_entry) =
      elim (Bool-cases cfg.server.enable_instrumentation) [
        | inl e ↦ rw (e, compose, build_admin_server) (w, n, some_entry, refl, refl, refl, refl)
        | inr e ↦ rw (e, compose, build_admin_server) (w, n, some_entry, refl, refl, refl, refl)
      ]

  start-IsServed :
      (cfg : Config)
      → cfg.upstream.sanitized ≡ false
      → All IsGiven cfg.upstream.backends
      → IsMatched cfg.upstream.urls cfg.upstream.ids
      → Returns (IsServed cfg) (start backends observe breaker blank_backend blank pp cfg)
  unfolding start
  start-IsServed cfg fresh given matched =
      Returns-bind (IsStarted breaker (entries cfg)) (IsServed cfg)
        (Out.Manager.Setup.new_manager breaker blank_backend cfg.upstream) _
        (new_manager-IsStarted breaker blank_backend cfg.upstream fresh given matched)
        (compose-IsServed cfg)

  -- Why the process ends, and with which code.
  abbrev pub IsEnding : Flags → ℕ → Type 0
  IsEnding flags code =
      ((flags.help ≡ true) × (code ≡ 0))
      ⊎ ((flags.help ≡ false)
          × (code ≡ 1)
          × (((err : Text) × ((configuration env flags.config_file).1 ≡ some err))
              ⊎ (entries (configuration env flags.config_file).0 ≡ 0)))

  -- What `main` comes to.
  abbrev pub IsRun : Flags → Outcome K B W C → Type 0
  IsRun flags (exits code printed) =
      IsEnding flags code × ((before : Text) × (printed ≡ before ++ usage env))
  IsRun flags (serves level b) =
      (flags.help ≡ false)
      × ((configuration env flags.config_file).1 ≡ none)
      × IsServed (configuration env flags.config_file).0 (some b)

  composed-IsRun :
      (file : Text)
      → (configuration env file).1 ≡ none
      → (made : Option (Balancer K B W C)) → IsServed (configuration env file).0 made
      → IsRun
          (record { help = false; config_file = file })
          (composed backends observe breaker env blank_backend blank pp
            (configuration env file).0
            made)
  unfolding composed print_help
  composed-IsRun file read none h = (inr (refl, refl, inr h), (println no_backend, refl))
  composed-IsRun file read (some b) h = (refl, read, h)

  configured-IsRun :
      (file : Text)
      → (configuration env file).0.upstream.sanitized ≡ false
      → All IsGiven (configuration env file).0.upstream.backends
      → IsMatched (configuration env file).0.upstream.urls (configuration env file).0.upstream.ids
      → Returns
          (IsRun (record { help = false; config_file = file }))
          (configured backends observe breaker env blank_backend blank pp (configuration env file))
  unfolding configured print_help
  configured-IsRun file fresh given matched =
      let (cfg, er) = configuration env file in
      elim (Option-cases er) [
        | inr (err, f) ↦ rw (configured, f) (inr (refl, refl, inl (err, f)), (println err, refl))
        | inl f ↦
            rw (configured, f)
              (Returns-bind (IsServed cfg) (IsRun (record { help = false; config_file = file }))
                (start backends observe breaker blank_backend blank pp cfg) _
                (start-IsServed cfg fresh given matched) (composed-IsRun file f))
      ]

  -- Where the configuration that is read was not sanitized before, has no nil backend, and gives
  -- either no IDs or as many as URLs, `main` does not panic. It ends with code 0 where the help is
  -- asked for; with code 1 where the configuration is not read without an error, or has neither a
  -- backend nor a URL; and what it prints then ends in the usage. Otherwise it serves: over a pool
  -- with a backend for each of them, all enabled and distinct, with sessions that are not paused and
  -- no client yet; only the administrative server has metrics, and only with instrumentation.
  pub main-IsRun :
      (flags : Flags)
      → (configuration env flags.config_file).0.upstream.sanitized ≡ false
      → All IsGiven (configuration env flags.config_file).0.upstream.backends
      → IsMatched
          (configuration env flags.config_file).0.upstream.urls
          (configuration env flags.config_file).0.upstream.ids
      → Returns (IsRun flags) (main backends observe breaker env blank_backend blank pp flags)
  unfolding main print_help
  main-IsRun flags fresh given matched = elim (Bool-cases flags.help) [
    | inl e ↦ rw (main, e, print_help) (inl (refl, refl), ([], refl))
    | inr e ↦ rw (main, e) (configured-IsRun flags.config_file fresh given matched)
  ]
