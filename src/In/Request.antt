-- ===== src/In/Request.antt =====
-- The handling of the incoming HTTP request in in/inc_manager.go: its admission, the headers that
-- go to the backend, and the status of an error.
pub mod Headers
use wsbalancer.Prelude.{
  ℕ, ◌+◌, ◌≡◌, refl, Bool, true, false, not, ◌&&◌, List, [], ◌∷◌, ◌++◌, Option, none, some, Text,
  codes, same, leb, ℤ, ◌==◌, if◌then◌else◌,
}
use wsbalancer.Common.{DialError, system_unavailable, connection_declined}
use wsbalancer.Common.Header.{Header, get, put, del}

pub record Request : Type 0 where
  pub method : Text
  pub header : Header
  pub remote_addr : Text
  pub request_uri : Text

-- The settings of an HTTP server, `FrontendHTTPConfig` and `AdminHTTPConfig`.
pub record HttpConfig : Type 0 where
  pub addr : Text
  pub read_timeout : ℤ
  pub write_timeout : ℤ
  pub max_header_bytes : ℤ

pub record ServerConfig : Type 0 where
  pub frontend_http : HttpConfig
  pub admin_http : HttpConfig
  pub read_buffer_size : ℤ
  pub write_buffer_size : ℤ
  pub trust_received_xff : Bool
  pub ignore_headers : List Text
  pub reconnect_header : Text
  pub enable_instrumentation : Bool
  pub logging_level : Text

-- `strings.ToLower`, as far as its result is ASCII: the letters, and the two other characters whose
-- lower case is an ASCII letter (the Kelvin sign and the dotted capital I).
abbrev to_lower_char : ℕ → ℕ
to_lower_char c =
    if leb b'A' c && leb c b'Z'
    then c + 32
    else if c == 0x212a
    then b'k'
    else if c == 0x130
    then b'i'
    else c

unfoldable pub to_lower : Text → Text
to_lower [] = []
to_lower (c ∷ s) = to_lower_char c ∷ to_lower s

unfoldable pub is_websocket_request : Request → Bool
is_websocket_request r =
    if not (same r.method (codes "GET"))
    then false
    else if not (same (to_lower (get r.header (codes "Connection"))) (codes "upgrade"))
    then false
    else if not (same (to_lower (get r.header (codes "Upgrade"))) (codes "websocket"))
    then false
    else true

-- The text before the last colon, if there is one.
before_last_colon : Text → Option Text
before_last_colon [] = none
before_last_colon (c ∷ s) = elim (before_last_colon s) [
  | some t ↦ some (c ∷ t)
  | none ↦ if c == b':' then some [] else none
]

unfoldable pub get_remote_ip : Request → Text
unfolding before_last_colon
get_remote_ip r = elim (before_last_colon r.remote_addr) [ none ↦ r.remote_addr | some t ↦ t ]

abbrev pub forwarded_for_header : Text
forwarded_for_header = codes "X-Forwarded-For"

forwarded : Text → Text → Text
forwarded [] ip = ip
forwarded (c ∷ s) ip = (c ∷ s) ++ codes ", " ++ ip

unfoldable pub get_forwarded_for : ServerConfig → Request → Text
unfolding forwarded
get_forwarded_for config r =
    if config.trust_received_xff
    then forwarded (get r.header forwarded_for_header) (get_remote_ip r)
    else get_remote_ip r

-- The loop over the ignored headers.
unfoldable pub del_all : Header → List Text → Header
del_all h [] = h
del_all h (k ∷ ks) = del_all (del h k) ks

del_unless_empty : Header → Text → Header
del_unless_empty h [] = h
del_unless_empty h (c ∷ k) = del h (c ∷ k)

-- The headers of the handshake with the client, which the dialer writes anew.
abbrev pub handshake_headers : List Text
handshake_headers =
    codes "Connection"
    ∷ codes "Upgrade"
    ∷ codes "Sec-Websocket-Key"
    ∷ codes "Sec-Websocket-Version"
    ∷ []

unfoldable pub get_upstream_headers : ServerConfig → Request → Header
unfolding del_all del_unless_empty
get_upstream_headers config r =
    let h = put r.header forwarded_for_header (get_forwarded_for config r) in
    let h = del_all h handshake_headers in
    let h = del_all h config.ignore_headers in del_unless_empty h config.reconnect_header

-- The status of the response to a client whose backend could not be dialled: Bad Gateway, or the
-- status of the backend that declined.
unfoldable pub error_status : DialError → ℕ
error_status (system_unavailable e) = 502
error_status (connection_declined e) = e.code
