-- ===== src/Out/Backend.antt =====
-- out/backend.go: one backend. The circuit breaker of the library is the parameter `Circuit`, the
-- websocket dialer a parameter of the dial. `W` is what the outside world, its clock included, is
-- at a call. The 32-bit counters are bit patterns.
pub mod Accounting
pub mod Exact
pub mod Made
pub mod Lifecycle
use wsbalancer.Prelude.{
  ℕ, zero, suc, ◌+◌, ◌-◌, ◌%◌, ◌≡◌, refl, Bool, true, false, ◌&&◌, ◌||◌, List, [], ◌∷◌, ◌++◌,
  Option, none, some, Text, codes, ℤ, pos, is_pos, to_nat, leb, ltb, ◌==◌, if◌then◌else◌,
}
use wsbalancer.Common.{
  DialError, new_system_unavailable_error_with_code, new_connection_declined_error,
}
use wsbalancer.Common.Header.{Header, del, values, add}
use wsbalancer.Out.Config.{BackendConfig}
use wsbalancer.Out.Connection.{Outc, new_outc}

-- github.com/rubyist/circuitbreaker: what the balancer calls, and the documented effect of
-- `Reset`: "After Reset() is called, Tripped() will return false".
pub record Circuit (C W : Type 0) : Type 0 where
  pub new_consecutive_breaker : ℕ → C
  pub tripped : C → Bool
  pub ready : W → C → Bool × C
  pub reset : W → C → C
  pub success : W → C → C
  pub fail : W → C → C
  pub tripped-reset : (w : W) (c : C) → tripped (reset w c) ≡ false

-- The interface `breaker` and its two implementations.
pub data Breaker (C : Type 0) : Type 0 where
  dummy_breaker : Breaker C
  circuit_breaker : C → Breaker C

abbrev pub u32 : ℕ → ℕ
u32 n = n % 4294967296

-- `listening` says that the management goroutine still runs, `con_done` how many signals wait in
-- its channel.
pub record Backend (C : Type 0) : Type 0 where
  pub config : BackendConfig
  pub total_connections : ℕ
  pub active_connections : ℕ
  pub total_failures : ℕ
  pub enabled : Bool
  pub con_done : ℕ
  pub listening : Bool
  pub breaker : Breaker C

-- `BackendDialContext`: the request URI, the headers, and the connection to replace. The two
-- channels belong to the frontend connection.
pub record BackendDialContext (K : Type 0) : Type 0 where
  pub request_uri : Text
  pub dest_headers : Header
  pub old_connection : Option (Outc K)

-- What the dialer is set up with, and asked for.
pub record DialRequest : Type 0 where
  pub url : Text
  pub header : Header
  pub subprotocols : List Text
  pub handshake_timeout : ℤ
  pub read_buffer_size : ℤ
  pub write_buffer_size : ℤ

pub record Response : Type 0 where
  pub status_code : ℕ
  pub header : Header

-- `Dial` returns a connection, a response and an error, each of which may be nil.
pub record DialReply (K : Type 0) : Type 0 where
  pub con : Option K
  pub res : Option Response
  pub er : Option Text

pub data DialResult (K : Type 0) : Type 0 where
  connected : Outc K → DialResult K
  refused : DialError → DialResult K

-- What a dial returns and leaves: the backend, the replaced connection, and the world.
pub record Dialed (C K W : Type 0) : Type 0 where
  pub result : DialResult K
  pub backend : Backend C
  pub old_connection : Option (Outc K)
  pub world : W

abbrev subprotocol_header : Text
subprotocol_header = codes "Sec-WebSocket-Protocol"

-- The inner loop of `filterPassHeaders`, over the values of one header.
add_values : Text → List Text → Header → Header
add_values ah [] headers = headers
add_values ah (av ∷ hv) headers = add_values ah hv (add headers ah av)

pass_values : Header → List Text → Header → Header
unfolding add_values
pass_values received [] headers = headers
pass_values received (ah ∷ names) headers =
    pass_values received names (add_values ah (values received ah) headers)

unfoldable pub filter_pass_headers : BackendConfig → Response → Header
unfolding pass_values
filter_pass_headers config res = pass_values res.header config.pass_headers []

pass_headers_of : BackendConfig → Option Response → Header
pass_headers_of config none = []
pass_headers_of config (some res) = filter_pass_headers config res

-- `dialerForConnection` and the dialer of `newBackend`.
unfoldable pub dialer_for_connection : BackendConfig → Header → Text → Header → DialRequest
dialer_for_connection config dest_headers be_url req_headers = record {
  url = be_url;
  header = req_headers;
  subprotocols = values dest_headers subprotocol_header;
  handshake_timeout = config.handshake_timeout;
  read_buffer_size = config.read_buffer_size;
  write_buffer_size = config.write_buffer_size;
}

pub status_of : Option Response → ℕ
status_of none = 0
status_of (some res) = res.status_code

text_of : Option Text → Text
text_of none = codes "connection error"
text_of (some er) = er

-- `res != nil && res.StatusCode >= 100 && res.StatusCode < 300`
unfoldable pub is_success : Option Response → Bool
is_success none = false
is_success (some res) = leb 100 res.status_code && ltb res.status_code 300

module _ {K : Type 0} where
  -- The subprotocols go to the dialer, and not with the other headers.
  unfoldable pub request_for : BackendDialContext K → BackendConfig → DialRequest
  request_for ctx config =
      dialer_for_connection config ctx.dest_headers (config.url ++ ctx.request_uri)
        (del ctx.dest_headers subprotocol_header)

  -- The connection of a dial that succeeded, and the one it replaces.
  connection : BackendDialContext K → BackendConfig → DialReply K → Outc K × Option (Outc K)
  unfolding pass_headers_of
  connection ctx config reply =
      new_outc reply.con config.ping_time config.id (pass_headers_of config reply.res)
        ctx.old_connection

module _ {C K W : Type 0} where
  circuit_tripped : BackendDialContext K → Backend C → W → Dialed C K W
  circuit_tripped ctx bk w = record {
    result =
        refused (new_system_unavailable_error_with_code bk.config.id (codes "CircuitTripped") 0);
    backend = bk;
    old_connection = ctx.old_connection;
    world = w;
  }

module _ {C W : Type 0} (breaker : Circuit C W) where
  open breaker use {new_consecutive_breaker}

  new_breaker : ℤ → Breaker C
  new_breaker threshold =
      if is_pos threshold
      then circuit_breaker (new_consecutive_breaker (to_nat threshold))
      else dummy_breaker

  unfoldable pub new_backend : BackendConfig → Backend C
  unfolding new_breaker
  new_backend config = record {
    config = config;
    total_connections = 0;
    active_connections = 0;
    total_failures = 0;
    enabled = true;
    con_done = 0;
    listening = true;
    breaker = new_breaker config.breaker_threshold;
  }

  unfoldable pub is_tripped : Backend C → Bool
  is_tripped bk = elim bk.breaker [ dummy_breaker ↦ false | circuit_breaker c ↦ breaker.tripped c ]

  pub on_circuit : (C → C) → Breaker C → Breaker C
  on_circuit f dummy_breaker = dummy_breaker
  on_circuit f (circuit_breaker c) = circuit_breaker (f c)

  unfoldable pub reset : W → Backend C → Backend C
  unfolding on_circuit
  reset w bk = record bk { breaker = on_circuit (breaker.reset w) bk.breaker }

  pub breaker_ready : W → Breaker C → Bool × Breaker C
  breaker_ready w dummy_breaker = (true, dummy_breaker)
  breaker_ready w (circuit_breaker c) =
      let (ready, c') = breaker.ready w c in (ready, circuit_breaker c')

  -- `error`: the error of a dial that failed, and the backend behind it.
  error : W → Backend C → Option Response → Option Text → DialError × Backend C
  unfolding status_of text_of on_circuit
  error w bk res er =
      if leb 300 (status_of res) && ltb (status_of res) 500
      then (new_connection_declined_error bk.config.id (text_of er) (status_of res), bk)
      else (
        new_system_unavailable_error_with_code bk.config.id (text_of er) (status_of res),
        record bk {
          breaker = on_circuit (breaker.fail w) bk.breaker;
          total_failures = u32 (bk.total_failures + 1);
        },
      )

  module _ {K : Type 0} (dial : DialRequest → W → DialReply K × W) where
    -- Behind the reply of the dialer.
    on_reply : BackendDialContext K → Backend C → DialReply K × W → Dialed C K W
    unfolding error is_success on_circuit connection
    on_reply ctx bk (reply, w) = elim (is_success reply.res) [
      | true ↦ record {
        result = connected (connection ctx bk.config reply).0;
        backend = record bk {
          breaker = on_circuit (breaker.success w) bk.breaker;
          active_connections = u32 (bk.active_connections + 1);
          total_connections = u32 (bk.total_connections + 1);
        };
        old_connection = (connection ctx bk.config reply).1;
        world = w;
      }
      | false ↦ record {
        result = refused (error w bk reply.res reply.er).0;
        backend = (error w bk reply.res reply.er).1;
        old_connection = ctx.old_connection;
        world = w;
      }
    ]

    -- The dial of a backend whose breaker has said whether it is ready.
    attempt : Bool → BackendDialContext K → Backend C → W → Dialed C K W
    unfolding on_reply circuit_tripped
    attempt false ctx bk w = circuit_tripped ctx bk w
    attempt true ctx bk w = on_reply ctx bk (dial (request_for ctx bk.config) w)

    unfoldable pub dial_backend : BackendDialContext K → Backend C → W → Dialed C K W
    unfolding attempt breaker_ready
    dial_backend ctx bk w =
        let (ready, br) = breaker_ready w bk.breaker in
        attempt ready ctx (record bk { breaker = br }) w
