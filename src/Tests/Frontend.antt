-- ===== src/Tests/Frontend.antt =====
-- A client over the pool of the tests, whose connection is broken.
use wsbalancer.Prelude.{
  Bool, List, ℕ, ◌≡◌, refl, true, false, [], ◌∷◌, ◌++◌, Option, none, some, Text, codes, Returns,
  arith,
}
use wsbalancer.Common.{WsMessage}
use wsbalancer.Common.Header.{Header, put}
use wsbalancer.In.Inc.{new_inc, is_client_active}
use wsbalancer.In.Request.{Request}
use wsbalancer.In.Sessions.{Manager, find}
use wsbalancer.In.Sessions.Keys.{Keyed}
use wsbalancer.In.Sessions.Serving.{handle_unregistration}
use wsbalancer.In.Sessions.Reconnect.{HasAsked}
use wsbalancer.Out.Connection.Loops.{Websocket, WsError}
use wsbalancer.Cmd.Frontend.{Handle, Running, over_pool}
use wsbalancer.Cmd.Frontend.Redial.{IsRunning}
use wsbalancer.Cmd.Frontend.Reconnects.{Reconnects, handle_unregistration-Reconnects}
use wsbalancer.Tests.Pool.{brittle, pool, first_id, pool-IsWellFormed}
use wsbalancer.Tests.Dials.{broken, dial, dial-GivesCon, dial-AnswersWell}
use wsbalancer.Tests.Connections.{gone_away}
use wsbalancer.Tests.Clients.{socket, server, request}

never_ok :
    (m : WsMessage) (k : Unit {0})
    → ◌≡◌ {A = Option WsError} (some gone_away) none
    → ◌≡◌ {A = List WsMessage} [] ([] ++ m ∷ [])
never_ok m k e = absurd cc

-- A socket that takes no message.
abbrev deaf : Websocket Unit
deaf = record {
  write_message = λ m k. (some gone_away, k);
  write_ping = λ k. (none, k);
  close = λ k. k;
  delivered = λ k. [];
  write_ok = never_ok;
  write_failed = λ m k e h. refl;
  delivered-ping = λ k. refl;
  delivered-close = λ k. refl;
}

abbrev lost : Handle
lost = record { address = 0; id = first_id; subprotocol = []; headers = [] }

abbrev running : Running Bool Unit ℕ
running = record {
  pool = pool;
  connections = λ a. broken;
  next = 1;
  started = 0 ∷ [];
  world = 1;
  panicked = false;
}

abbrev no_subprotocol : Unit {0} → Text
no_subprotocol con = []

abbrev upgrade : Request → List Text → Header → ℕ → Option (Unit {0}) × ℕ
upgrade r protos hdr w = (some tt, w)

abbrev frontend : Manager Unit Handle (Running Bool Unit ℕ)
frontend = record {
  clients = (7, lost) ∷ [];
  store = λ a. record (new_inc tt [] (codes "-8080") (codes "/chat") (codes "c000")) {
    reinitializing = true;
    locked = true;
    unregistered = 1;
  };
  valves = λ a. [];
  register = [];
  valve_provider = [];
  session_listeners = [];
  told = [];
  config = server;
  paused = false;
  done = 0;
  id = codes "-8080";
}

frontend-HasAsked : HasAsked 7 lost frontend
unfolding new_inc Keyed find is_client_active
frontend-HasAsked = record {
  keyed = (refl, tt);
  known = refl;
  lock = record { flagged = λ e. refl; held = λ e f. refl; agrees = refl };
  active = refl;
  asked = refl;
}

running-IsRunning : IsRunning lost running
running-IsRunning = record {
  running = refl;
  pool = pool-IsWellFormed;
  made = omega arith;
  small = omega arith;
}

reconnect_example :
    Returns
      (Reconnects brittle dial deaf no_subprotocol upgrade dial-GivesCon dial-AnswersWell
        (frontend.store 7).request_uri
        (put (frontend.store 7).header frontend.config.reconnect_header (codes "1"))
        7
        lost
        running)
      (handle_unregistration socket
        (over_pool brittle dial deaf no_subprotocol upgrade)
        7
        running
        frontend)
reconnect_example =
    handle_unregistration-Reconnects brittle dial deaf no_subprotocol upgrade dial-GivesCon
      dial-AnswersWell socket 7 lost running frontend frontend-HasAsked running-IsRunning

abbrev upgrading : Request
upgrading = record request {
  header =
      (codes "Connection", codes "Upgrade" ∷ []) ∷ (codes "Upgrade", codes "websocket" ∷ []) ∷ [];
}

-- No client is upgraded.
abbrev no_upgrade : Request → List Text → Header → ℕ → Option (Unit {0}) × ℕ
no_upgrade r protos hdr w = (none, w)
