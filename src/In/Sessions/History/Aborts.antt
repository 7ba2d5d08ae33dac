-- ===== src/In/Sessions/History/Aborts.antt =====
-- `abortAllBackendConnections` of in/inc_manager.go on the managers that a history makes.
use wsbalancer.Prelude.{ℕ, ◌≡◌, [], ◌++◌, Text, All, Returns}
use wsbalancer.In.Inc.{Socket}
use wsbalancer.In.Inc.Aborted.{IsSteady}
use wsbalancer.In.Sessions.{Backends, Manager, find}
use wsbalancer.In.Sessions.Keys.{Keyed}
use wsbalancer.In.Sessions.Serving.{abort_all_backend_connections}
use wsbalancer.In.Sessions.Serving.Aborting.{told_to, IsAnswered, abort_all-told_to}
use wsbalancer.In.Sessions.History.{Reachable, Reachable-Keyed}

module _ {K B W : Type 0} (ws : Socket K) (backends : Backends B K W) where
  -- After every history of requests, registrations, unregistrations, aborts, pauses, and changes that
  -- the clients' own routines make, from a manager without clients on: where every valve's
  -- `BeforeTransmit` returns, whatever it gets, aborting the backend connections of an ID returns. A
  -- client whose backend has that ID is then told once more to get another backend, every other
  -- client is told as often as before, and the result is a success where there is such a client, and
  -- otherwise that there was nothing to do.
  pub abort_all_backend_connections_lem :
      (start m : Manager K B W) (bid : Text) (w : W)
      → start.clients ≡ []
      → Reachable ws backends start m
      → ((a : ℕ) → All IsSteady (m.valves a))
      → Returns
          (λ t.
            IsAnswered ws backends bid m.clients t.0
            × ((b : ℕ)
                → (t.1.1.store b).done
                  ≡ (m.store b).done ++ told_to ws backends bid (find b m.clients)))
          (abort_all_backend_connections ws backends bid w m)
  unfolding Keyed
  abort_all_backend_connections_lem start m bid w fresh reached steady =
      let keyed : Keyed start.clients = rw (fresh) tt in
      abort_all-told_to ws backends bid w m (Reachable-Keyed ws backends start m keyed reached)
        steady
