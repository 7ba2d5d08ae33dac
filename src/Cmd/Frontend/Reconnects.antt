-- ===== src/Cmd/Frontend/Reconnects.antt =====
-- A session that goes on over another backend, through in/inc_manager.go, out/outc_manager.go,
-- out/backend.go and out/outc.go.
use wsbalancer.Prelude.{
  ℕ, codes, ◌<◌, ◌≡◌, sym, ap, ◌≢◌, false, List, [], ◌∷◌, ◌++◌, Option, Text, Returns, Returns-mono,
  ◌⊎◌, inl, inr,
}
use mathlib.Core.Path.{subst}
use wsbalancer.Common.{DialError}
use wsbalancer.Common.Header.{Header, put}
use wsbalancer.In.Inc.{Socket}
use wsbalancer.In.Request.{Request}
use wsbalancer.In.Sessions.{Manager}
use wsbalancer.In.Sessions.Serving.{handle_unregistration}
use wsbalancer.In.Sessions.Reconnect.{
  HasAsked, GoesOn, HasEnded, Unregistered, redial, handle_unregistration-Unregistered,
}
use wsbalancer.Out.Connection.Loops.{Websocket}
use wsbalancer.Out.Backend.{Circuit, DialRequest, DialReply, connected, refused}
use wsbalancer.Out.Manager.Invariant.{IsWellFormed}
use wsbalancer.Cmd.Frontend.{Handle, Running, start, over_pool}
use wsbalancer.Cmd.Frontend.Redial.{
  IsRunning, TakesOver, Redialled, DialledInTurn, backend_connection-Redialled,
}
use wsbalancer.Out.Backend.Made.{GivesCon, AnswersWell}

module _ {C F K W : Type 0} (breaker : Circuit C W) (dial : DialRequest → W → DialReply K × W)
    (ws : Websocket K) (subprotocol : K → Text)
    (upgrade : Request → List Text → Header → W → Option F × W) (gives : GivesCon dial)
    (well : AnswersWell dial) where
  -- What the unregistration of a client leaves: its session goes on over another connection, or has
  -- ended.
  abbrev pub Reconnects :
      Text
      → Header
      → ℕ
      → Handle
      → Running C K W
      → Running C K W × Manager F Handle (Running C K W)
      → Type 0
  Reconnects uri hdr a us w t =
      (t.0.panicked ≡ false)
      × IsWellFormed t.0.pool
      × ((b : ℕ) → b < w.next → b ≢ us.address → t.0.connections b ≡ w.connections b)
      × (((us' : Handle) × GoesOn a us' t.1
            × TakesOver us us' w t.0
            × DialledInTurn breaker dial ws subprotocol upgrade gives well uri hdr us w
                (connected (t.0.connections us'.address))
            × (t.0.started ≡ w.started ++ us'.address ∷ []))
          ⊎ (HasEnded a t.1
              × (t.0.connections us.address ≡ w.connections us.address)
              × ((err : DialError) × DialledInTurn breaker dial ws subprotocol upgrade gives well
                    uri hdr us w (refused err))
              × (t.0.started ≡ w.started)))

  gone_on :
      (fe : Socket F) (uri : Text) (hdr : Header) (a : ℕ) (us : Handle) (w : Running C K W)
      (d : (Handle ⊎ DialError) × Running C K W)
      (t : Running C K W × Manager F Handle (Running C K W))
      → Redialled breaker dial ws subprotocol upgrade gives well uri hdr us w d
      → Unregistered fe (over_pool breaker dial ws subprotocol upgrade) a d.0 d.1 t
      → Reconnects uri hdr a us w t
  unfolding Unregistered over_pool start
  gone_on fe uri hdr a us w (inl us', w') (x, m') (r, over, asked) (e, on) =
      subst (λ y. Reconnects uri hdr a us w (y, m')) (sym e)
        (
          r.running,
          r.pool,
          r.others,
          inl (
            us',
            on,
            record {
              backend = over.backend;
              enabled = over.enabled;
              named = over.named;
              new = over.new;
              cached = over.cached;
              emptied = over.emptied;
            },
            asked,
            ap (λ l. l ++ us'.address ∷ []) r.started,
          ),
        )
  gone_on fe uri hdr a us w (inr err, w') (x, m') (r, same, asked) (e, off) =
      subst (λ y. Reconnects uri hdr a us w (y, m')) (sym e)
        (r.running, r.pool, r.others, inr (off, same, (err, asked), r.started))

  -- Where the dialer gives a connection with every reply that is no error, and no backend replies with a
  -- status from 100 to 299 that is an error of the dialer: for every client of the manager that is active
  -- and has asked for another backend, over a pool that is well formed, and while the counter of the
  -- pool is far from 2^63, the unregistration returns, and nothing has panicked on the way. The enabled
  -- backends are dialled in turn for the client's URI and headers, with the reconnect header. Where the
  -- first of them that is available connects, the session goes on: the client is in the map with this
  -- connection, whose routines were started; the connection has exactly the messages that the old one
  -- could not send, and the old one has none; and the client is active, with its messages no more held
  -- back. Where it declines, or all were dialled and unavailable, the client is closed and out of the
  -- map, and the old connection as it was. Every other connection is as it was, and the pool well
  -- formed.
  pub handle_unregistration-Reconnects :
      (fe : Socket F) (a : ℕ) (us : Handle) (w : Running C K W)
      (m : Manager F Handle (Running C K W))
      → HasAsked a us m
      → IsRunning us w
      → Returns
          (Reconnects
            (m.store a).request_uri
            (put (m.store a).header m.config.reconnect_header (codes "1"))
            a
            us
            w)
          (handle_unregistration fe (over_pool breaker dial ws subprotocol upgrade) a w m)
  unfolding over_pool
  handle_unregistration-Reconnects fe a us w m h running =
      let backends = over_pool breaker dial ws subprotocol upgrade in
      Returns-mono (handle_unregistration fe backends a w m)
        (λ t u.
          gone_on fe _ _ a us w (redial fe backends a us w m) t
            (backend_connection-Redialled breaker dial ws subprotocol upgrade gives well _ _ us w
              running)
            u)
        (handle_unregistration-Unregistered fe backends a us w m h)
