-- ===== src/In/Sessions.antt =====
-- in/inc_manager.go: the sessions. A client is an object behind a pointer: `store` holds them, and
-- `clients` is the map from their addresses to the connections to backends, whose iteration order
-- is any. `B` is a backend connection and `W` the world its calls and the valves work on. `register`
-- is the channel of that name. Every function is atomic, as the lock makes the accesses to the map.
pub mod Keys
pub mod Serving
pub mod Listeners
pub mod Gauge
pub mod Setup
pub mod History
pub mod Overtaking
pub mod Reconnect
use wsbalancer.Prelude.{
  ℕ, ◌≡◌, Bool, true, false, not, List, [], ◌∷◌, ◌++◌, map, Option, none, some, Text, codes, same,
  Exec, returns, panics, ◌>>=◌, ltb, ◌==◌, if◌then◌else◌, ◌⊎◌, inl, inr,
}
use wsbalancer.Common.{DialError, Result, success, no_action_reqd, failed}
use wsbalancer.Common.Header.{Header, put}
use wsbalancer.In.Request.{
  Request, ServerConfig, is_websocket_request, get_upstream_headers, error_status,
}
use wsbalancer.In.Inc.{Socket, Valve, Inc, new_inc, is_client_active, resume, abort_backend, close}

-- What the manager is built on: `BackendDialer.DialUpstream` with the URI, the headers and the old
-- connection, the calls of a `BackendConnection`, and the upgrade of a request to a websocket for a
-- subprotocol, which gives nothing where it fails.
pub record Backends (B K W : Type 0) : Type 0 where
  pub dial_upstream : Text → Header → Option B → W → (B ⊎ DialError) × W
  pub backend_id : B → Text
  pub subprotocol : B → Text
  pub additional_headers : B → Header
  pub start : B → W → W
  pub close_backend : B → W → W
  pub upgrade : Request → List Text → Header → W → Option K × W

-- What a listener is told of a session.
pub data Notice (B : Type 0) : Type 0 where
  session_created : ℕ → B → Notice B
  session_terminated : ℕ → B → Notice B

-- A `ValveProvider` makes a new chain of the one it gets, for a client and its connection.
abbrev pub Provider : Type 0 → Type 0 → Type 0
Provider B W = ℕ → B → List (Valve W) → List (Valve W)

-- `told` is what the listeners, by their place, were told in turn; `valves` holds the clients';
-- `done` counts the signals that end the loop of `Start`.
pub record Manager (K B W : Type 0) : Type 0 where
  pub clients : List (ℕ × B)
  pub store : ℕ → Inc K
  pub valves : ℕ → List (Valve W)
  pub register : List (ℕ × B)
  pub valve_provider : List (Provider B W)
  pub session_listeners : List ℕ
  pub told : List (ℕ × Notice B)
  pub config : ServerConfig
  pub paused : Bool
  pub done : ℕ
  pub id : Text

-- The answer to a request: an error with its status, a connection that was closed again, or a
-- session with the client at its address.
pub data Answer : Type 0 where
  http_error : ℕ → Answer
  not_upgraded : Answer
  serving : ℕ → Answer

module _ {A : Type 0} where
  -- A function changed at one address.
  pub at_address : ℕ → A → (ℕ → A) → ℕ → A
  at_address a x f b = if b == a then x else f b

  unfoldable pub find : ℕ → List (ℕ × A) → Option A
  find a [] = none
  find a ((b, x) ∷ xs) = if b == a then some x else find a xs

  -- `delete` of a map, which has a key once.
  unfoldable pub drop_key : ℕ → List (ℕ × A) → List (ℕ × A)
  drop_key a [] = []
  drop_key a ((b, x) ∷ xs) = let rest = drop_key a xs in if b == a then xs else (b, x) ∷ rest

  -- An assignment to a map's key.
  unfoldable pub put_key : ℕ → A → List (ℕ × A) → List (ℕ × A)
  put_key a x [] = (a, x) ∷ []
  put_key a x ((b, y) ∷ xs) =
      let rest = put_key a x xs in if b == a then (b, x) ∷ xs else (b, y) ∷ rest

module _ {B : Type 0} where
  -- What `addClient` says to each listener.
  unfoldable pub creation : ℕ → Option B → B → List ℕ → List (ℕ × Notice B)
  creation a old us [] = []
  creation a none us (l ∷ ls) = (l, session_created a us) ∷ creation a none us ls
  creation a (some old) us (l ∷ ls) =
      (l, session_terminated a old) ∷ (l, session_created a us) ∷ creation a (some old) us ls

  unfoldable pub termination : ℕ → B → List ℕ → List (ℕ × Notice B)
  termination a us [] = []
  termination a us (l ∷ ls) = (l, session_terminated a us) ∷ termination a us ls

module _ {B W : Type 0} where
  make_valves : ℕ → B → List (Provider B W) → List (Valve W) → List (Valve W)
  make_valves a us [] valves = valves
  make_valves a us (vp ∷ providers) valves = make_valves a us providers (vp a us valves)

module _ {K B : Type 0} where
  -- The last client of the iteration that has the id.
  unfoldable pub matching_session : Text → (ℕ → Inc K) → List (ℕ × B) → Option ℕ
  matching_session sid store [] = none
  matching_session sid store ((a, us) ∷ clients) = elim (matching_session sid store clients) [
    | some b ↦ some b
    | none ↦ if same (store a).id sid then some a else none
  ]

module _ {K B W : Type 0} where
  unfoldable pub put_client : ℕ → Inc K → Manager K B W → Manager K B W
  unfolding at_address
  put_client a inc m = record m { store = at_address a inc m.store }

  unfoldable pub client_exists : ℕ → Manager K B W → Bool
  unfolding find
  client_exists a m = elim (find a m.clients) [ none ↦ false | some us ↦ true ]

  unfoldable pub add_client : ℕ → B → Manager K B W → Manager K B W
  unfolding creation find put_key
  add_client a us m = record m {
    told = m.told ++ creation a (find a m.clients) us m.session_listeners;
    clients = put_key a us m.clients;
  }

  unfoldable pub remove_client : ℕ → Manager K B W → Manager K B W
  unfolding termination find drop_key
  remove_client a m = elim (find a m.clients) [
    | none ↦ m
    | some us ↦ record m {
      told = m.told ++ termination a us m.session_listeners;
      clients = drop_key a m.clients;
    }
  ]

  -- The registration in the loop of `Start`.
  unfoldable pub take_session : Manager K B W → Manager K B W
  take_session m = elim m.register [
    | [] ↦ m
    | (a, us) ∷ sessions ↦ add_client a us (record m { register = sessions })
  ]

  unfoldable pub add_valves : ℕ → B → Manager K B W → Manager K B W
  unfolding make_valves at_address
  add_valves a us m = elim m.valve_provider [
    | [] ↦ m
    | vp ∷ providers ↦ record m {
      valves = at_address a (make_valves a us (vp ∷ providers) []) m.valves;
    }
  ]

  unfoldable pub pause_frontend : Text → Manager K B W → Result × Manager K B W
  pause_frontend fid m =
      if not (same m.id fid)
      then (failed, m)
      else if m.paused
      then (no_action_reqd, m)
      else (success, record m { paused = true })

  unfoldable pub resume_frontend : Text → Manager K B W → Result × Manager K B W
  resume_frontend fid m =
      if not (same m.id fid)
      then (failed, m)
      else if not m.paused
      then (no_action_reqd, m)
      else (success, record m { paused = false })
