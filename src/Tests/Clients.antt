-- ===== src/Tests/Clients.antt =====
-- A request, a client and its manager.
use wsbalancer.Prelude.{
  ℕ, ◌+◌, ◌≡◌, refl, Bool, true, false, List, [], ◌∷◌, ◌++◌, map, none, some, Text, codes, same,
  pos, All, returns, panics, Returns, if◌then◌else◌, inl, arith,
}
use wsbalancer.Common.{WsMessage}
use wsbalancer.Common.Header.{canonical, values}
use wsbalancer.In.Names.{normalize_for_id, hyphenate}
use wsbalancer.In.Names.Laws.{
  IsIdChar, until_slash, normalize_for_id-IsIdChar, normalize_for_id_lem,
}
use wsbalancer.In.Request.{
  Request, HttpConfig, ServerConfig, forwarded_for_header, get_forwarded_for, get_upstream_headers,
}
use wsbalancer.In.Request.Headers.{names, blocked, values-get_upstream_headers}
use wsbalancer.In.Inc.{
  Socket, Valve, passed, Inc, new_inc, is_client_active, reinit_upstream, resume, close,
  on_receive_from_upstream,
}
use wsbalancer.In.Inc.Lock.{
  here, onward, requesting, IsLockHeld, Reachable-CanClose, Reachable-CanResume,
  resume-close-Panics,
}
use wsbalancer.In.Inc.Passing.{read, read_error, error_message, start_reading}
use wsbalancer.In.Inc.Passing.Order.{IsForwarded, start_reading-IsForwarded}
use wsbalancer.In.Sessions.{Backends, Manager, session_created}
use wsbalancer.In.Sessions.Serving.{handle_unregistration}
use wsbalancer.In.Sessions.Gauge.{IsGauged, handle_unregistration-IsGauged}
use wsbalancer.Inst.{InstrumentValve, add_valves}
use wsbalancer.Inst.Chain.{on_receive-add_valves}
use wsbalancer.Out.Connection.Loops.Reading.{data_only}

normalize_for_id-IsIdChar_example :
    All IsIdChar (normalize_for_id (codes "ws://host:90/x"))
    × (normalize_for_id (normalize_for_id (codes "ws://host:90/x"))
        ≡ normalize_for_id (codes "ws://host:90/x"))
normalize_for_id-IsIdChar_example = normalize_for_id-IsIdChar (codes "ws://host:90/x")

id_example :
    normalize_for_id (codes "ws" ++ codes "://" ++ codes "host:90/x")
    ≡ hyphenate (b'h' ∷ until_slash (codes "ost:90/x"))
id_example =
    normalize_for_id_lem (codes "ws") b'h' (codes "ost:90/x") (omega arith, (omega arith, tt))
      (
        omega arith,
        (
          omega arith,
          (
            omega arith,
            (
              omega arith,
              (omega arith, (omega arith, (omega arith, (omega arith, (omega arith, tt))))),
            ),
          ),
        ),
      )

abbrev http_on : Text → HttpConfig
http_on addr = record {
  addr = addr;
  read_timeout = pos 10;
  write_timeout = pos 10;
  max_header_bytes = pos 524288;
}

abbrev pub server : ServerConfig
server = record {
  frontend_http = http_on (codes ":8080");
  admin_http = http_on (codes ":8081");
  read_buffer_size = pos 1024;
  write_buffer_size = pos 1024;
  enable_instrumentation = true;
  logging_level = codes "WARN";
  trust_received_xff = true;
  ignore_headers = codes "Cookie" ∷ [];
  reconnect_header = codes "X-Balancer-Reconnect";
}

abbrev pub request : Request
request = record {
  method = codes "GET";
  header = (codes "X-Balancer-Reconnect", codes "1" ∷ []) ∷ (codes "Cookie", codes "a=b" ∷ []) ∷ [];
  remote_addr = codes "10.0.0.1:5000";
  request_uri = codes "/chat";
}

headers_example : values (get_upstream_headers server request) (codes "x-balancer-reconnect") ≡ (
    if names (blocked server) (codes "x-balancer-reconnect")
    then []
    else if same (canonical forwarded_for_header) (canonical (codes "x-balancer-reconnect"))
    then get_forwarded_for server request ∷ []
    else values request.header (codes "x-balancer-reconnect"))
headers_example = values-get_upstream_headers server request (codes "x-balancer-reconnect")

abbrev pub socket : Socket Unit
socket = record { write_message = λ m k. (none, k); write_close = λ k. k; close = λ k. k }

abbrev client : Inc Unit
client = new_inc tt [] (codes "-8080") (codes "/chat") (codes "c000")

closing_example :
    Returns (λ shut. (shut.closed ≡ true) × (is_client_active shut ≡ false)) (close socket client)
closing_example =
    Reachable-CanClose socket tt [] (codes "-8080") (codes "/chat") (codes "c000") client here

resuming_example :
    Returns
      (λ back.
        (is_client_active back ≡ true) × (back.locked ≡ false) × (back.reinitializing ≡ false))
      (resume (reinit_upstream client))
unfolding new_inc is_client_active reinit_upstream
resuming_example =
    Reachable-CanResume socket tt [] (codes "-8080") (codes "/chat") (codes "c000")
      (reinit_upstream client) (onward here requesting) refl refl

leaving_example :
    (is_client_active (reinit_upstream client) ≡ true)
    × Returns (λ shut. resume shut ≡ panics) (close socket (reinit_upstream client))
unfolding new_inc is_client_active
leaving_example =
    resume-close-Panics socket tt [] (codes "-8080") (codes "/chat") (codes "c000") client here refl
      refl

abbrev said : List WsMessage
said =
    record { message_type = 1; payload = codes "a" }
    ∷ record { message_type = 10; payload = [] }
    ∷ record { message_type = 2; payload = codes "b" }
    ∷ []

forwarding_example :
    Returns
      (IsForwarded client tt (data_only said ++ error_message (codes "gone") ∷ []) [])
      (start_reading socket [] (map read said ++ read_error (codes "gone") ∷ []) client tt)
unfolding new_inc
forwarding_example =
    start_reading-IsForwarded socket said (codes "gone") [] client tt
      (record { unlocked = refl; open_still = refl; active = refl; settled = refl })

-- Backends named by a number; every dial is for the next one.
abbrev pub numbered : Backends ℕ Unit ℕ
numbered = record {
  dial_upstream = λ uri hdr old w. (inl w, w);
  backend_id = λ us. us ∷ [];
  subprotocol = λ us. [];
  additional_headers = λ us. [];
  start = λ us w. w;
  close_backend = λ us w. w;
  upgrade = λ r protos hdr w. (some tt, w);
}

-- One session, which the listener 3 knows of, whose client has lost the backend 5.
abbrev pub manager : Manager Unit ℕ ℕ
manager = record {
  clients = (7, 5) ∷ [];
  store = λ a. record (new_inc tt [] (codes "-8080") (codes "/chat") (codes "c000")) {
    reinitializing = true;
    locked = true;
    unregistered = 1;
  };
  valves = λ a. [];
  register = (8, 6) ∷ [];
  valve_provider = [];
  session_listeners = 3 ∷ [];
  told = (3, session_created 7 5) ∷ [];
  config = server;
  paused = false;
  done = 0;
  id = codes "-8080";
}

abbrev every : ℕ → Bool
every us = true

manager-IsGauged : IsGauged every 3 manager
manager-IsGauged = record { once = refl; balanced = refl }

manager-IsLockHeld : IsLockHeld (manager.store 7)
unfolding new_inc
manager-IsLockHeld = record { flagged = λ e. refl; held = λ e f. refl; agrees = refl }

unregistration_example :
    Returns (λ t. IsGauged every 3 t.1) (handle_unregistration socket numbered 7 6 manager)
unregistration_example =
    handle_unregistration-IsGauged every 3 socket numbered 7 6 manager manager-IsGauged
      manager-IsLockHeld (λ e. refl)

abbrev pub silent : Text → InstrumentValve → ℕ → ℕ → ℕ
silent dir inst size s = s + size

-- A valve that passes everything on.
abbrev pub plain : Valve ℕ
plain = record {
  before_transmit = λ msg s. returns (passed msg, s);
  after_receive = λ msg s. returns (passed msg, s);
}

chain_example :
    on_receive_from_upstream
      (add_valves silent (codes "-8080") (codes "one") (plain ∷ []))
      (record { message_type = 1; payload = codes "a" })
      client
      0
    ≡ panics
chain_example =
    on_receive-add_valves silent (codes "-8080") (codes "one") plain []
      (record { message_type = 1; payload = codes "a" }) client 0
