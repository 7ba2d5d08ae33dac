-- ===== src/Tests/Sessions.antt =====
-- Sessions that end, or lose their backend, in their manager.
use wsbalancer.Prelude.{ℕ, ◌≡◌, refl, true, false, [], ◌∷◌, ◌++◌, codes, returns, Returns}
use wsbalancer.In.Inc.{new_inc, is_client_active}
use wsbalancer.In.Sessions.{Manager, find, client_exists, add_client, take_session}
use wsbalancer.In.Sessions.Overtaking.{orders_lem}
use wsbalancer.In.Sessions.Serving.{handle_unregistration, abort_all_backend_connections}
use wsbalancer.In.Inc.Aborted.{IsSteady}
use wsbalancer.In.Sessions.History.{Reachable, here, onward, registering}
use wsbalancer.In.Sessions.History.Aborts.{abort_all_backend_connections_lem}
use wsbalancer.In.Sessions.Serving.Aborting.{told_to, IsAnswered}
use wsbalancer.Tests.Clients.{socket, numbered, manager, plain}

-- A client that left before its session was registered.
abbrev early : Manager Unit ℕ ℕ
early = record manager {
  clients = [];
  store = λ a. record (new_inc tt [] (codes "-8080") (codes "/chat") (codes "c001")) {
    closed = true;
    shutting_down = true;
  };
}

orders_example :
    Returns
      (λ t. client_exists 8 t.1 ≡ false)
      (handle_unregistration socket numbered 8 0 (take_session early))
    × (handle_unregistration socket numbered 8 0 early ≡ returns (0, early))
    × (client_exists 8 (take_session early) ≡ true)
    × (is_client_active ((take_session early).store 8) ≡ false)
unfolding find
orders_example =
    orders_lem socket numbered 8 6 [] 0 early
      (record { unknown = refl; waits = refl; closed = refl; shutting_down = refl })

-- Two clients on the backend 5 and one on the backend 6 wait, and a valve keeps each message.
abbrev waiting : Manager Unit ℕ ℕ
waiting = record manager {
  clients = [];
  register = (7, 5) ∷ (8, 6) ∷ (9, 5) ∷ [];
  valves = λ a. plain ∷ [];
}

abbrev registered : Manager Unit ℕ ℕ
registered = take_session (take_session (take_session waiting))

registered-Reachable : Reachable socket numbered waiting registered
registered-Reachable = onward (onward (onward here registering) registering) registering

plain-IsSteady : IsSteady plain
unfolding IsSteady
plain-IsSteady msg s = tt

aborting_example :
    Returns
      (λ t.
        IsAnswered socket numbered (5 ∷ []) registered.clients t.0
        × ((b : ℕ)
            → (t.1.1.store b).done
              ≡ (registered.store b).done
                ++ told_to socket numbered (5 ∷ []) (find b registered.clients)))
      (abort_all_backend_connections socket numbered (5 ∷ []) 0 registered)
unfolding take_session add_client
aborting_example =
    abort_all_backend_connections_lem socket numbered waiting registered (5 ∷ []) 0 refl
      registered-Reachable (λ a. (plain-IsSteady, tt))
