-- ===== src/In/Sessions/Serving/Kept.antt =====
-- The calls of in/inc_manager.go that leave the map of the clients, and what the listeners know, as
-- they are.
use wsbalancer.Prelude.{
  ℕ, ◌≡◌, refl, ◌∙◌, List, [], ◌∷◌, Option, none, some, Text, inl, inr, UnlessPanics,
  UnlessPanics-bind, UnlessPanics-any, Option-cases, List-cases, Sum-cases, if-both,
  UnlessPanics-mono, arith, not,
}
use wsbalancer.Common.Header.{Header}
use wsbalancer.In.Inc.{Socket, Inc, new_inc, close, abort_backend}
use wsbalancer.In.Request.{Request, is_websocket_request, get_upstream_headers}
use wsbalancer.In.Sessions.{
  Backends, Manager, Answer, put_client, add_valves, pause_frontend, resume_frontend,
  matching_session,
}
use wsbalancer.In.Sessions.Serving.{
  upgraded, serve_ws, close_client, abort_client, abort_each, matching_sessions,
  abort_all_backend_connections, abort_frontend_connection, abort_backend_connection,
}

-- The same sessions, and the same listeners, who were told the same.
pub record SameSessions {K B W : Type 0} (m m' : Manager K B W) : Type 0 where
  pub clients : m'.clients ≡ m.clients
  pub session_listeners : m'.session_listeners ≡ m.session_listeners
  pub told : m'.told ≡ m.told

module _ {K B W : Type 0} where
  pub SameSessions-refl : (m : Manager K B W) → SameSessions m m
  SameSessions-refl m = record { clients = refl; session_listeners = refl; told = refl }

  SameSessions-trans :
      (m m' m'' : Manager K B W) → SameSessions m m' → SameSessions m' m'' → SameSessions m m''
  SameSessions-trans m m' m'' h g = record {
    clients = g.clients ∙ h.clients;
    session_listeners = g.session_listeners ∙ h.session_listeners;
    told = g.told ∙ h.told;
  }

  pub put_client-SameSessions :
      (a : ℕ) (inc : Inc K) (m : Manager K B W) → SameSessions m (put_client a inc m)
  unfolding put_client
  put_client-SameSessions a inc m = record { clients = refl; session_listeners = refl; told = refl }

  add_valves-SameSessions :
      (a : ℕ) (us : B) (m : Manager K B W) → SameSessions m (add_valves a us m)
  unfolding add_valves
  add_valves-SameSessions a us m = elim (List-cases m.valve_provider) [
    | inl e ↦ rw (e, add_valves) (record { clients = refl; session_listeners = refl; told = refl })
    | inr (vp, providers, e) ↦
        rw (e, add_valves) (record { clients = refl; session_listeners = refl; told = refl })
  ]

  pub pause_frontend-SameSessions :
      (fid : Text) (m : Manager K B W) → SameSessions m (pause_frontend fid m).1
  unfolding pause_frontend
  pause_frontend-SameSessions fid m = ground arith

  pub resume_frontend-SameSessions :
      (fid : Text) (m : Manager K B W) → SameSessions m (resume_frontend fid m).1
  unfolding resume_frontend
  resume_frontend-SameSessions fid m = ground arith

module _ {K B W : Type 0} (ws : Socket K) (backends : Backends B K W) where
  upgraded-SameSessions :
      (r : Request) (hdr : Header) (us : B) (a : ℕ) (id : Text) (con : Option K) (w : W)
      (m : Manager K B W)
      → SameSessions m (upgraded ws backends r hdr us a id con w m).1.1
  unfolding upgraded
  upgraded-SameSessions r hdr us a id none w m = SameSessions-refl m
  upgraded-SameSessions r hdr us a id (some con) w m =
      let m' = put_client a (new_inc con hdr m.id r.request_uri id) m in
      let h =
        SameSessions-trans m m' (add_valves a us m')
          (put_client-SameSessions a (new_inc con hdr m.id r.request_uri id) m)
          (add_valves-SameSessions a us m') in
      record { clients = h.clients; session_listeners = h.session_listeners; told = h.told }

  pub serve_ws-SameSessions :
      (r : Request) (a : ℕ) (id : Text) (w : W) (m : Manager K B W)
      → SameSessions m (serve_ws ws backends r a id w m).1.1
  unfolding serve_ws
  serve_ws-SameSessions r a id w m =
      let hdr = get_upstream_headers m.config r in
      let d = backends.dial_upstream r.request_uri hdr none w in
      let kept : Answer × (W × Manager K B W) → Type 0 = λ t. SameSessions m t.1.1 in
      if-both kept m.paused (SameSessions-refl m) (
        if-both kept (not (is_websocket_request r)) (SameSessions-refl m) (elim (Sum-cases d.0) [
          | inr (err, e) ↦ rw (e) (SameSessions-refl m)
          | inl (us, e) ↦ rw (e) (upgraded-SameSessions r hdr us a id _ _ m)
        ]))

  -- A call that keeps the sessions, unless it panics.
  pub close_client-SameSessions :
      (a : ℕ) (m : Manager K B W) → UnlessPanics (SameSessions m) (close_client ws backends a m)
  unfolding close_client
  close_client-SameSessions a m =
      UnlessPanics-bind (λ inc. Unit) (SameSessions m) (close ws (m.store a)) _
        (UnlessPanics-any (close ws (m.store a))) (λ inc u. put_client-SameSessions a inc m)

  abort_client-SameSessions :
      (a : ℕ) (w : W) (m : Manager K B W)
      → UnlessPanics (λ t. SameSessions m t.1) (abort_client ws backends a w m)
  unfolding abort_client
  abort_client-SameSessions a w m =
      UnlessPanics-bind (λ t. Unit) (λ t. SameSessions m t.1)
        (abort_backend (m.valves a) (m.store a) w) _
        (UnlessPanics-any (abort_backend (m.valves a) (m.store a) w))
        (λ t u. put_client-SameSessions a t.0 m)

  abort_each-SameSessions :
      (sessions : List ℕ) (w : W) (m : Manager K B W)
      → UnlessPanics (λ t. SameSessions m t.1) (abort_each ws backends sessions w m)
  unfolding abort_each
  abort_each-SameSessions [] w m = SameSessions-refl m
  abort_each-SameSessions (a ∷ rest) w m =
      UnlessPanics-bind (λ t. SameSessions m t.1) (λ t. SameSessions m t.1)
        (abort_client ws backends a w m) _ (abort_client-SameSessions a w m)
        (λ t h.
          UnlessPanics-mono (abort_each ws backends rest t.0 t.1)
            (λ u g. SameSessions-trans m t.1 u.1 h g) (abort_each-SameSessions rest t.0 t.1))

  pub abort_all-SameSessions :
      (bid : Text) (w : W) (m : Manager K B W)
      → UnlessPanics (λ t. SameSessions m t.1.1) (abort_all_backend_connections ws backends bid w m)
  unfolding abort_all_backend_connections
  abort_all-SameSessions bid w m =
      let sessions = matching_sessions ws backends bid m.clients in
      UnlessPanics-bind (λ t. SameSessions m t.1) (λ t. SameSessions m t.1.1)
        (abort_each ws backends sessions w m) _ (abort_each-SameSessions sessions w m) (λ t h. h)

  pub abort_frontend-SameSessions :
      (sid : Text) (m : Manager K B W)
      → UnlessPanics (λ t. SameSessions m t.1) (abort_frontend_connection ws backends sid m)
  unfolding abort_frontend_connection
  abort_frontend-SameSessions sid m = elim (Option-cases (matching_session sid m.store m.clients)) [
    | inl e ↦ rw (e, abort_frontend_connection) (SameSessions-refl m)
    | inr (a, e) ↦
        rw (e, abort_frontend_connection)
          (UnlessPanics-bind (SameSessions m) (λ t. SameSessions m t.1)
            (close_client ws backends a m) _ (close_client-SameSessions a m) (λ m' h. h))
  ]

  pub abort_session-SameSessions :
      (sid : Text) (w : W) (m : Manager K B W)
      → UnlessPanics (λ t. SameSessions m t.1.1) (abort_backend_connection ws backends sid w m)
  unfolding abort_backend_connection
  abort_session-SameSessions sid w m =
      elim (Option-cases (matching_session sid m.store m.clients)) [
        | inl e ↦ rw (e, abort_backend_connection) (SameSessions-refl m)
        | inr (a, e) ↦
            rw (e, abort_backend_connection)
              (UnlessPanics-bind (λ t. SameSessions m t.1) (λ t. SameSessions m t.1.1)
                (abort_client ws backends a w m) _ (abort_client-SameSessions a w m) (λ t h. h))
      ]
