-- ===== src/In/Sessions/Setup.antt =====
-- in/inc_manager.go: a new manager, and what is registered with it before it serves.
use wsbalancer.Prelude.{ℕ, false, [], ◌∷◌, ◌++◌}
use wsbalancer.In.Inc.{Inc}
use wsbalancer.In.Names.{normalize_for_id}
use wsbalancer.In.Request.{ServerConfig}
use wsbalancer.In.Sessions.{Provider, Manager}

module _ {K B W : Type 0} where
  -- `NewManager`; `blank` is what the addresses hold before clients come to stand at them.
  unfoldable pub new_manager : (ℕ → Inc K) → ServerConfig → Manager K B W
  new_manager blank config = record {
    clients = [];
    store = blank;
    valves = λ a. [];
    register = [];
    valve_provider = [];
    session_listeners = [];
    told = [];
    config = config;
    paused = false;
    done = 0;
    id = normalize_for_id config.frontend_http.addr;
  }

  unfoldable pub add_valve_provider : Provider B W → Manager K B W → Manager K B W
  add_valve_provider vp m = record m { valve_provider = m.valve_provider ++ vp ∷ [] }

  unfoldable pub add_session_listener : ℕ → Manager K B W → Manager K B W
  add_session_listener l m = record m { session_listeners = m.session_listeners ++ l ∷ [] }
