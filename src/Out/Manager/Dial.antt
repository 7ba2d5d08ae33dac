-- ===== src/Out/Manager/Dial.antt =====
-- `DialUpstream` of out/outc_manager.go.
pub mod Outcome
pub mod Counts
pub mod Made
pub mod Turns
use wsbalancer.Prelude.{ℕ, Bool, List, [], ◌∷◌, Option, Text, codes, Exec, returns, ◌>>=◌}
use wsbalancer.Common.{
  DialError, system_unavailable, connection_declined, new_system_unavailable_error,
}
use wsbalancer.Out.Connection.{Outc}
use wsbalancer.Out.Backend.{
  Circuit, Backend, BackendDialContext, DialRequest, DialReply, DialResult, connected, refused,
  Dialed, dial_backend,
}
use wsbalancer.Out.Manager.{Manager, update, next_backend_list}

-- What a dial over the backends returns and leaves.
pub record Upstream (C K W : Type 0) : Type 0 where
  pub result : DialResult K
  pub store : ℕ → Backend C
  pub old_connection : Option (Outc K)
  pub world : W

-- Only where the backend is unavailable the loop goes on.
pub choose : {K A : Type 0} → DialResult K → A → A → A
choose (connected oc) here rest = here
choose (refused (connection_declined e)) here rest = here
choose (refused (system_unavailable e)) here rest = rest

module _ {C K W : Type 0} (breaker : Circuit C W) (dial : DialRequest → W → DialReply K × W)
    (ctx : BackendDialContext K) where
  exhausted : (ℕ → Backend C) → W → Upstream C K W
  exhausted store w = record {
    result =
        refused (new_system_unavailable_error (codes "system") (codes "All backend exhausted!"));
    store = store;
    old_connection = ctx.old_connection;
    world = w;
  }

  -- The dial of one backend, with the backend written back.
  stop_at : (ℕ → Backend C) → ℕ → Dialed C K W → Upstream C K W
  stop_at store r d = record {
    result = d.result;
    store = update store r d.backend;
    old_connection = d.old_connection;
    world = d.world;
  }

  -- The loop over the backends: on to the next one only where one is unavailable.
  dial_each : List ℕ → (ℕ → Backend C) → W → Upstream C K W
  unfolding exhausted stop_at choose
  dial_each [] store w = exhausted store w
  dial_each (r ∷ rs) store w =
      let d = dial_backend breaker dial ctx (store r) w in
      let rest = dial_each rs (update store r d.backend) d.world in
      choose d.result (stop_at store r d) rest

  unfoldable pub dial_upstream : Manager C → W → Exec (Upstream C K W × Manager C)
  unfolding dial_each
  dial_upstream m w = do
    (picked, m') ← next_backend_list m
    let up = dial_each picked m'.store w
    returns (up, record m' { store = up.store })
