-- ===== src/Cmd/Compose.antt =====
-- cmd/compose.go and main.go: the two HTTP servers, the logging level, and what is put together when the
-- balancer starts.
pub mod Gauging
use wsbalancer.Prelude.{
  ℕ, ◌≡◌, refl, ◌-◌, Bool, true, false, ◌&&◌, List, [], ◌∷◌, Option, none, some, Text, codes, same,
  leb, ◌==◌, ℤ, Exec, returns, ◌>>=◌, if◌then◌else◌,
}
use wsbalancer.In.Inc.{Inc}
use wsbalancer.In.Request.{HttpConfig, ServerConfig}
use wsbalancer.In.Sessions.{Backends, Provider, Manager}
use wsbalancer.In.Sessions.Setup.{new_manager, add_valve_provider, add_session_listener}
use wsbalancer.Inst.{InstrumentValve, add_valves}
use wsbalancer.Out.Config.{UpstreamConfig}
use wsbalancer.Out.Backend.{Circuit, Backend}
use wsbalancer.Out

-- `cmd.Config`
pub record Config : Type 0 where
  pub server : ServerConfig
  pub upstream : UpstreamConfig

-- An `http.Server`, and whether its mux has the endpoint `/metrics`.
pub record HttpServer : Type 0 where
  pub http : HttpConfig
  pub metrics : Bool

-- The levels of the logging library.
pub data Level : Type 0 where
  trace debug info warn panic fatal : Level

-- `strings.ToUpper`, as far as its result is ASCII: the letters, and the two other characters whose
-- upper case is an ASCII letter (the dotless i and the long s).
abbrev to_upper_char : ℕ → ℕ
to_upper_char c =
    if leb b'a' c && leb c b'z'
    then c - 32
    else if c == 0x131
    then b'I'
    else if c == 0x17f
    then b'S'
    else c

to_upper : Text → Text
to_upper [] = []
to_upper (c ∷ s) = to_upper_char c ∷ to_upper s

-- The switch of `SetLogLevel`.
level_of : Text → Level
level_of name =
    if same name (codes "TRACE")
    then trace
    else if same name (codes "DEBUG")
    then debug
    else if same name (codes "INFO")
    then info
    else if same name (codes "WARN")
    then warn
    else if same name (codes "PANIC")
    then panic
    else if same name (codes "FATAL")
    then fatal
    else panic

-- `SetLogLevel`, through `logLevelOnce`: the level is set by the first call.
unfoldable pub set_log_level : Text → Option Level → Option Level
unfolding level_of to_upper
set_log_level level (some set) = some set
set_log_level level none = some (level_of (to_upper level))

error_level : set_log_level (codes "error") none ≡ some panic
unfolding set_log_level same
error_level = refl

unfoldable pub build_frontend_server : ServerConfig → HttpServer
build_frontend_server cfg = record { http = cfg.frontend_http; metrics = false }

module _ {K B W : Type 0} (backends : Backends B K W)
    (observe : Text → InstrumentValve → ℕ → W → W) where
  -- The `PrometheusProvider` as a provider of valves, for the sessions of a frontend.
  abbrev provider : Text → Provider B W
  provider frontend a us = add_valves observe frontend (backends.backend_id us)

  -- `BuildAdminServer`, where `pp` is the new `PrometheusProvider` as a listener.
  unfoldable pub build_admin_server : ℕ → ServerConfig → Manager K B W → HttpServer × Manager K B W
  build_admin_server pp cfg m =
      if cfg.enable_instrumentation
      then (
        record { http = cfg.admin_http; metrics = true },
        add_valve_provider (provider m.id) (add_session_listener pp m),
      )
      else (record { http = cfg.admin_http; metrics = false }, m)

-- What `main` starts: the pool, the manager of the sessions as it is then, and the two servers. The
-- goroutine of the administrative server registers the listener and the valves by
-- `build_admin_server` while the frontend may serve already.
pub record Balancer (K B W C : Type 0) : Type 0 where
  pub pool : Out.Manager.Manager C
  pub manager : Manager K B W
  pub frontend_server : HttpServer
  pub admin_server : HttpServer

module _ {K B W C V : Type 0} (backends : Backends B K W)
    (observe : Text → InstrumentValve → ℕ → W → W) (breaker : Circuit C V) where
  -- What `main` puts together over the pool.
  unfoldable pub compose : (ℕ → Inc K) → ℕ → Config → Out.Manager.Manager C → Balancer K B W C
  compose blank pp cfg pool =
      let m = new_manager blank cfg.server in
      record {
        pool = pool;
        manager = m;
        frontend_server = build_frontend_server cfg.server;
        admin_server = (build_admin_server backends observe pp cfg.server m).0;
      }

  -- `main`: without a backend it ends, which is `none`.
  unfoldable pub start : Backend C → (ℕ → Inc K) → ℕ → Config → Exec (Option (Balancer K B W C))
  start blank_backend blank pp cfg = do
    made ← Out.Manager.Setup.new_manager breaker blank_backend cfg.upstream
    returns (elim made [ none ↦ none | some pool ↦ some (compose blank pp cfg pool) ])
