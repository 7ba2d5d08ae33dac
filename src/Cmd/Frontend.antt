-- ===== src/Cmd/Frontend.antt =====
-- The sessions of in/inc_manager.go over the pool of out/outc_manager.go and the connections of
-- out/outc.go: what `main` passes to the frontend's manager as its dialer.
pub mod Redial
pub mod Reconnects
pub mod Opens
pub mod Settles
use wsbalancer.Prelude.{
  ℕ, suc, Bool, true, false, List, [], ◌∷◌, ◌++◌, Option, none, some, Text, codes, Exec, returns,
  panics, ◌⊎◌, inl, inr, if◌then◌else◌, ◌==◌,
}
use wsbalancer.Common.{DialError, new_system_unavailable_error}
use wsbalancer.Common.Header.{Header}
use wsbalancer.In.Request.{Request}
use wsbalancer.In.Sessions.{Backends}
use wsbalancer.Out.Connection.{Outc}
use wsbalancer.Out.Connection.Loops.{Websocket, close}
use wsbalancer.Out.Backend.{
  Circuit, BackendDialContext, DialRequest, DialReply, DialResult, connected, refused,
}
use wsbalancer.Out
use wsbalancer.Out.Manager.Dial.{Upstream, dial_upstream}

-- A connection to a backend: its address, and what the frontend asks it for.
pub record Handle : Type 0 where
  pub address : ℕ
  pub id : Text
  pub subprotocol : Text
  pub headers : Header

-- The pool, the connections that it has made, and those of them whose routines run. The flag says that
-- a call has panicked, which ends the routine that made it: for an unregistration, the program.
pub record Running (C K W : Type 0) : Type 0 where
  pub pool : Out.Manager.Manager C
  pub connections : ℕ → Outc K
  pub next : ℕ
  pub started : List ℕ
  pub world : W
  pub panicked : Bool

module _ {K : Type 0} where
  abbrev pub is_nil : Option K → Bool
  is_nil none = true
  is_nil (some k) = false

  abbrev pub put_at : ℕ → Outc K → (ℕ → Outc K) → ℕ → Outc K
  put_at a oc f b = if b == a then oc else f b

  -- The connection to replace, before the dial and behind it.
  abbrev pub old_of : Option Handle → (ℕ → Outc K) → Option (Outc K)
  old_of none f = none
  old_of (some h) f = some (f h.address)

  abbrev pub put_old : Option Handle → Option (Outc K) → (ℕ → Outc K) → ℕ → Outc K
  put_old none oc f = f
  put_old (some h) none f = f
  put_old (some h) (some oc) f = put_at h.address oc f

-- `Subprotocol` of a websocket, and the upgrade of a client's request, are the library's.
module _ {C F K W : Type 0} (breaker : Circuit C W) (dial : DialRequest → W → DialReply K × W)
    (ws : Websocket K) (subprotocol : K → Text)
    (upgrade : Request → List Text → Header → W → Option F × W) where
  -- The methods of a nil websocket panic.
  subprotocol_of : Option K → Text
  subprotocol_of none = []
  subprotocol_of (some k) = subprotocol k

  handle_of : ℕ → Outc K → Handle
  unfolding subprotocol_of
  handle_of a oc = record {
    address = a;
    id = oc.backend_id;
    subprotocol = subprotocol_of oc.con;
    headers = oc.pass_headers;
  }

  -- The answer of a dial. A nil websocket behind it panics at once: in `Subprotocol`, which `ServeWs`
  -- calls, or in the read of the routine that is started after a redial.
  answer :
      Option Handle
      → Running C K W
      → DialResult K
      → Option (Outc K)
      → (Handle ⊎ DialError) × Running C K W
  unfolding handle_of
  answer old w (connected oc) old' = (
    inl (handle_of w.next oc),
    record w {
      connections = put_at w.next oc (put_old old old' w.connections);
      next = suc w.next;
      panicked = if is_nil oc.con then true else w.panicked;
    },
  )
  answer old w (refused err) old' =
      (inr err, record w { connections = put_old old old' w.connections })

  behind_dial :
      Option Handle
      → Running C K W
      → Exec (Upstream C K W × Out.Manager.Manager C)
      → (Handle ⊎ DialError) × Running C K W
  unfolding answer
  behind_dial old w panics =
      (inr (new_system_unavailable_error [] (codes "panic")), record w { panicked = true })
  behind_dial old w (returns (up, pool)) =
      answer old (record w { pool = pool; world = up.world }) up.result up.old_connection

  -- `backendConnection`: the dial over the pool, with the connection to replace.
  unfoldable pub backend_connection :
      Text → Header → Option Handle → Running C K W → (Handle ⊎ DialError) × Running C K W
  unfolding behind_dial
  backend_connection uri hdr old w =
      let ctx : BackendDialContext K = record {
        request_uri = uri;
        dest_headers = hdr;
        old_connection = old_of old w.connections;
      } in
      behind_dial old w (dial_upstream breaker dial ctx w.pool w.world)

  -- `Start` of a connection runs its two routines.
  unfoldable pub start : Handle → Running C K W → Running C K W
  start h w = record w { started = w.started ++ h.address ∷ [] }

  pub closed_at : ℕ → Running C K W → Exec (Outc K) → Running C K W
  closed_at a w (returns oc) = record w { connections = put_at a oc w.connections }
  closed_at a w panics = record w { panicked = true }

  pub upgraded_by : Running C K W → Option F × W → Option F × Running C K W
  upgraded_by w (con, world) = (con, record w { world = world })

  -- The pool and its connections, as the manager of the sessions calls them.
  unfoldable pub over_pool : Backends Handle F (Running C K W)
  unfolding backend_connection start closed_at upgraded_by
  over_pool = record {
    dial_upstream = backend_connection;
    backend_id = λ h. h.id;
    subprotocol = λ h. h.subprotocol;
    additional_headers = λ h. h.headers;
    start = start;
    close_backend = λ h w. closed_at h.address w (close ws (w.connections h.address));
    upgrade = λ r protos hdr w. upgraded_by w (upgrade r protos hdr w.world);
  }
