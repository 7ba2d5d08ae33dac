-- ===== src/Out/Backend/Lifecycle/Census.antt =====
-- The count of the active connections of a backend of out/backend.go under dials, closed connections
-- and the goroutine that counts them down.
use wsbalancer.Prelude.{ℕ, suc, ◌+◌, ◌%◌, ◌≤◌, ◌<◌, ◌≡◌, Bool, true, false}
use wsbalancer.Out.Config.{BackendConfig}
use wsbalancer.Out.Backend.{
  Circuit, Backend, BackendDialContext, DialRequest, DialReply, DialResult, connected, refused,
  new_backend, reset, dial_backend,
}
use wsbalancer.Out.Backend.Lifecycle.{count_done}

-- A backend, the number of its connections that are open, and the number of those that were closed
-- before their routines ran, which never signal their end.
pub record Census (C : Type 0) : Type 0 where
  pub backend : Backend C
  pub live : ℕ
  pub leaked : ℕ

abbrev pub opened : {K : Type 0} → DialResult K → ℕ
opened (connected oc) = 1
opened (refused e) = 0

module _ {C K W : Type 0} (breaker : Circuit C W) (dial : DialRequest → W → DialReply K × W) where
  -- What happens to a backend: a dial, whatever the world answers; a connection that signals its end
  -- through the channel, which takes 100 signals; a connection
  -- that `ServeWs` closes without a start, as the upgrade has failed; the count of one signal; a change of the flag, the
  -- breaker or the goroutine.
  pub data Step : Census C → Census C → Type 0 where
    dialling :
        {bk : Backend C} {n x : ℕ} (ctx : BackendDialContext K) (w : W)
        → Step
            (record { backend = bk; live = n; leaked = x })
            (record {
              backend = (dial_backend breaker dial ctx bk w).backend;
              live = n + opened (dial_backend breaker dial ctx bk w).result;
              leaked = x;
            })
    closing :
        {bk : Backend C} {n x : ℕ}
        → bk.con_done < 100
        → Step
            (record { backend = bk; live = suc n; leaked = x })
            (record { backend = record bk { con_done = bk.con_done + 1 }; live = n; leaked = x })
    abandoning :
        {bk : Backend C} {n x : ℕ}
        → Step
            (record { backend = bk; live = suc n; leaked = x })
            (record { backend = bk; live = n; leaked = suc x })
    counting :
        {bk : Backend C} {n x k : ℕ}
        → bk.listening ≡ true
        → bk.con_done ≡ suc k
        → Step
            (record { backend = bk; live = n; leaked = x })
            (record { backend = count_done bk; live = n; leaked = x })
    switching :
        {bk : Backend C} {n x : ℕ} (b : Bool)
        → Step
            (record { backend = bk; live = n; leaked = x })
            (record { backend = record bk { enabled = b }; live = n; leaked = x })
    resetting :
        {bk : Backend C} {n x : ℕ} (w : W)
        → Step
            (record { backend = bk; live = n; leaked = x })
            (record { backend = reset breaker w bk; live = n; leaked = x })
    ending :
        {bk : Backend C} {n x : ℕ}
        → Step
            (record { backend = bk; live = n; leaked = x })
            (record { backend = record bk { listening = false }; live = n; leaked = x })

  pub data Reachable (config : BackendConfig) : Census C → Type 0 where
    made : Reachable config (record { backend = new_backend breaker config; live = 0; leaked = 0 })
    onward : {s s' : Census C} → Reachable config s → Step s s' → Reachable config s'

  -- The count is of the open connections, of those that never signal, and of those whose signals were
  -- not taken yet; the channel holds its signals.
  abbrev pub IsCounted : Census C → Type 0
  IsCounted s =
      (s.backend.active_connections ≡ (s.live + s.leaked + s.backend.con_done) % 4294967296)
      × (s.backend.con_done ≤ 100)
