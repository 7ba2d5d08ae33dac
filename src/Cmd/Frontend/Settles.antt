-- ===== src/Cmd/Frontend/Settles.antt =====
-- The connections that a request opens, through in/inc_manager.go, out/outc_manager.go, out/backend.go
-- and out/outc.go.
use wsbalancer.Prelude.{ℕ, ◌≡◌, true, false, List, Option, Text, ◌⊎◌}
use wsbalancer.Common.Header.{Header}
use wsbalancer.In.Request.{Request}
use wsbalancer.In.Sessions.{Manager, Answer}
use wsbalancer.In.Sessions.Serving.Opened.{IsSettled}
use wsbalancer.In.Request.{get_upstream_headers}
use wsbalancer.Out.Connection.Loops.{Websocket}
use wsbalancer.Out.Backend.{Circuit, DialRequest, DialReply}
use wsbalancer.Cmd.Frontend.{Handle, Running}
use wsbalancer.Cmd.Frontend.Opens.{opened, WhyPanics}

module _ {C F K W : Type 0} (breaker : Circuit C W) (dial : DialRequest → W → DialReply K × W)
    (ws : Websocket K) (subprotocol : K → Text)
    (upgrade : Request → List Text → Header → W → Option F × W) where
  -- Settled, and nothing has panicked; or it is known what has.
  abbrev pub SettlesOrPanics :
      ℕ
      → Request
      → Running C K W
      → Manager F Handle (Running C K W)
      → Answer × (Running C K W × Manager F Handle (Running C K W))
      → Type 0
  SettlesOrPanics a r w m t =
      ((t.1.0.panicked ≡ false) × IsSettled opened a w m t)
      ⊎ ((t.1.0.panicked ≡ true)
          × WhyPanics breaker dial ws subprotocol upgrade r.request_uri
              (get_upstream_headers m.config r) w)
