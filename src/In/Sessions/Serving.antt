-- ===== src/In/Sessions/Serving.antt =====
-- in/inc_manager.go: what serves a request, resumes a session, and ends one.
pub mod Kept
pub mod Aborting
pub mod Opened
use wsbalancer.Prelude.{
  ◌+◌, ℕ, true, false, not, List, [], ◌∷◌, ◌++◌, Option, none, some, Text, codes, same, Exec,
  returns, ◌>>=◌, if◌then◌else◌, ◌⊎◌, inl, inr,
}
use wsbalancer.Common.{DialError, Result, success, no_action_reqd, failed}
use wsbalancer.Common.Header.{Header, put}
use wsbalancer.In.Request.{Request, is_websocket_request, get_upstream_headers, error_status}
use wsbalancer.In.Inc.{Socket, new_inc, is_client_active, resume, abort_backend, close}
use wsbalancer.In.Sessions.{
  Backends, Manager, Answer, http_error, not_upgraded, serving, find, put_client, client_exists,
  add_client, remove_client, add_valves, matching_session,
}

module _ {K B W : Type 0} (ws : Socket K) (backends : Backends B K W) where
  open backends use {
    dial_upstream, backend_id, subprotocol, additional_headers, start, close_backend, upgrade,
  }

  -- `upgraderForSubprotocol`: the subprotocols of the upgrader.
  subprotocols_for : Text → List Text
  subprotocols_for [] = []
  subprotocols_for (c ∷ proto) = (c ∷ proto) ∷ []

  pub upgraded :
      Request → Header → B → ℕ → Text → Option K → W → Manager K B W → Answer × (W × Manager K B W)
  unfolding put_client
  upgraded r hdr us a id none w m = (not_upgraded, (close_backend us w, m))
  upgraded r hdr us a id (some con) w m =
      let m = put_client a (new_inc con hdr m.id r.request_uri id) m in
      let m = add_valves a us m in
      (serving a, (start us w, record m { register = m.register ++ (a, us) ∷ [] }))

  -- `ServeWs`, where the new client comes to stand at the address `a` with the text `id`.
  unfoldable pub serve_ws : Request → ℕ → Text → W → Manager K B W → Answer × (W × Manager K B W)
  unfolding upgraded subprotocols_for
  serve_ws r a id w m =
      if m.paused
      then (http_error 503, (w, m))
      else if not (is_websocket_request r)
      then (http_error 400, (w, m))
      else let hdr = get_upstream_headers m.config r in
        let (dialled, w) = dial_upstream r.request_uri hdr none w in
        elim dialled [
          | inr err ↦ (http_error (error_status err), (w, m))
          | inl us ↦
              let (con, w) =
                upgrade r (subprotocols_for (subprotocol us)) (additional_headers us) w in
              upgraded r hdr us a id con w m
        ]

  unfoldable pub close_client : ℕ → Manager K B W → Exec (Manager K B W)
  unfolding put_client
  close_client a m = do inc ← close ws (m.store a); returns (put_client a inc m)

  pub close_all : List (ℕ × B) → Manager K B W → Exec (Manager K B W)
  unfolding close_client
  close_all [] m = returns m
  close_all ((a, us) ∷ clients) m = do m' ← close_client a m; close_all clients m'

  unfoldable pub stop : Manager K B W → Exec (Manager K B W)
  unfolding close_all
  stop m = do m' ← close_all m.clients m; returns (record m' { done = m'.done + 1 })

  -- The end of a session whose client is gone, or for which there is no backend.
  unfoldable pub end_session : ℕ → W → Manager K B W → Exec (W × Manager K B W)
  unfolding close_client
  end_session a w m = do m' ← close_client a m; returns (w, remove_client a m')

  -- Behind the dial of another backend.
  unfoldable pub resumed : ℕ → B ⊎ DialError → W → Manager K B W → Exec (W × Manager K B W)
  unfolding end_session put_client
  resumed a (inr err) w m = end_session a w m
  resumed a (inl us) w m = do
    let m = add_client a us m
    inc ← resume (m.store a)
    returns (start us w, put_client a inc m)

  unfoldable pub handle_unregistration : ℕ → W → Manager K B W → Exec (W × Manager K B W)
  unfolding resumed find
  handle_unregistration a w m = elim (client_exists a m) [
    | false ↦ returns (w, m)
    | true ↦ elim (is_client_active (m.store a)) [
      | false ↦ end_session a w m
      | true ↦
          let inc = m.store a in
          let hdr = put inc.header m.config.reconnect_header (codes "1") in
          let (dialled, w) = dial_upstream inc.request_uri hdr (find a m.clients) w in
          resumed a dialled w (put_client a (record inc { header = hdr }) m)
    ]
  ]

  -- The clients whose backend has the id.
  pub matching_sessions : Text → List (ℕ × B) → List ℕ
  matching_sessions bid [] = []
  matching_sessions bid ((a, us) ∷ clients) =
      let rest = matching_sessions bid clients in
      if same (backend_id us) bid then a ∷ rest else rest

  pub abort_client : ℕ → W → Manager K B W → Exec (W × Manager K B W)
  unfolding put_client
  abort_client a w m = do
    (inc, w') ← abort_backend (m.valves a) (m.store a) w
    returns (w', put_client a inc m)

  pub abort_each : List ℕ → W → Manager K B W → Exec (W × Manager K B W)
  unfolding abort_client
  abort_each [] w m = returns (w, m)
  abort_each (a ∷ sessions) w m = do (w', m') ← abort_client a w m; abort_each sessions w' m'

  some_of : List ℕ → Result
  some_of [] = no_action_reqd
  some_of (a ∷ sessions) = success

  unfoldable pub abort_all_backend_connections :
      Text → W → Manager K B W → Exec (Result × (W × Manager K B W))
  unfolding abort_each matching_sessions some_of
  abort_all_backend_connections bid w m = do
    let sessions = matching_sessions bid m.clients
    changed ← abort_each sessions w m
    returns (some_of sessions, changed)

  unfoldable pub abort_frontend_connection : Text → Manager K B W → Exec (Result × Manager K B W)
  unfolding close_client matching_session
  abort_frontend_connection sid m = elim (matching_session sid m.store m.clients) [
    | none ↦ returns (no_action_reqd, m)
    | some a ↦ do m' ← close_client a m; returns (success, m')
  ]

  unfoldable pub abort_backend_connection :
      Text → W → Manager K B W → Exec (Result × (W × Manager K B W))
  unfolding abort_client matching_session
  abort_backend_connection sid w m = elim (matching_session sid m.store m.clients) [
    | none ↦ returns (failed, (w, m))
    | some a ↦ do changed ← abort_client a w m; returns (success, changed)
  ]
