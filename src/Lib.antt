-- ===== src/Lib.antt =====
-- wsbalancer, a load balancer for websockets, in Go. A client connects to the frontend; the balancer
-- dials a backend for it and passes the messages on both ways. Where the connection to the backend
-- breaks, the client is kept, its messages are held back, and the session goes on with the next
-- backend, which gets the messages that the broken connection could not send.
--
-- The parts, and the files that model them:
-- - common/contract.go: Common. Messages, dial errors and results. Common.Header is `http.Header` of
--   the standard library, as an association list of canonical names.
-- - in/common.go: In.Names. IDs of frontends and backends, with the regular expressions as matchers.
--   In.Escape is `jsonEscape`.
-- - in/inc_manager.go, the request: In.Request, which says what is a websocket request, and which
--   headers go to the backend.
-- - in/inc.go, a client: In.Inc has the connection, its valves, its counters and its lock; In.Inc.Lock
--   the steps that touch the lock; In.Inc.Passing the reading and writing routines.
-- - in/inc_manager.go, the sessions: In.Sessions has the map of the clients and the listeners,
--   In.Sessions.Serving the handlers `ServeWs`, `handleUnregistration` and the aborts,
--   In.Sessions.Setup a new manager, In.Sessions.History all that happens to a manager as one relation.
-- - in/admin.go: In.Admin. In.Admin.Replies has what is written, In.Admin.Routes the endpoints and the
--   pattern for the ID, In.Admin.Handlers and In.Admin.Actions the handlers, over any
--   `BackendAdministrator`.
-- - inst/prometheus.go: Inst, with the valve that measures messages; In.Sessions.Listeners counts
--   what a session gauge is told.
-- - out/config.go: Out.Config, from `sanitize` down.
-- - out/outc.go, a connection to a backend: Out.Connection has the cache of the unsent messages,
--   Out.Connection.Loops the routines; Out.Connection.Handover interleaves the writing routine of
--   a connection with that of the next one, and with the two accesses by which `newOutc` takes over
--   the cache.
-- - out/backend.go, one backend: Out.Backend, with the dial, the breaker and the counters;
--   Out.Backend.Lifecycle has the goroutines that count its connections down and drain it.
-- - out/outc_manager.go, the pool: Out.Manager has the lists and the administrative calls, its child
--   Setup the calls that make backends, its child Dial the dial over the pool, its child Listing the
--   texts for the administration, its child History all calls of the pool as one relation. Registry is
--   the abstract view: a map from IDs to absent, enabled or disabled, and commands on it.
-- - cmd/compose.go and main.go: Cmd.Main has `main` with the flags, the reading of the configuration
--   and the help, Cmd.Compose the servers and what is started, Cmd.Admin the requests
--   to the administrative server over the pool, Cmd.Frontend the sessions over the pool: a handle of
--   the frontend is the address of a connection in a store, and the flag `panicked` says that a call
--   of the pool has panicked.
-- Functions keep the names of the source, in lower case with underscores. Structs are records; an
-- object behind a pointer stands in a store under an address; a nil pointer is `none`, a panic is the
-- value `panics`. A routine is a function of the list of the events that its channels and its socket
-- give it, so it needs no fuel: each event is taken once, and the end of the list leaves it waiting.
-- Loops are recursion on the list they run over; the loop that drains a backend has its 600 rounds, and
-- decimal numbers have twenty digits, which are enough for 64 bits. Counters are bit patterns of 32 or 64 bits.
-- Tests has the development at concrete inputs.
--
-- Parameters, which stand for code of others: `Websocket` and `Socket` (github.com/gorilla/websocket),
-- `Circuit` (github.com/rubyist/circuitbreaker), the dialer, the JSON decoder and encoder of whole
-- objects, the parser and printer of durations, the histogram of the metrics, the valves, for the
-- sessions the pool itself, which they know as an interface (`Backends`); in Cmd.Frontend the upgrade of
-- a request and the subprotocol of a connection; in Cmd.Main what the library for the configuration
-- returns, and the text of the flags' defaults.
--
-- Not modelled: the parsing of the flags and the listening of the servers (main.go), the
-- redirects of `ServeMux`, the registry of the metrics, logging, the pauses between the polls of a
-- drain, and the bounds of the channels but that for closed connections. Each call is atomic; what
-- happens between calls is modelled where a list of events or a step relation says so: in
-- Cmd.Compose.Gauging the sessions from before the listener is registered, in Out.Connection.Handover the
-- accesses to a cache. The requests of Cmd.Admin are for IDs of digits, letters and hyphens, which a
-- URL does not escape.
pub mod Prelude
pub mod Common
pub mod In
pub mod Out
pub mod Cmd
pub mod Inst
mod Tests
