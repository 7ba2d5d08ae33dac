-- ===== src/In/Request/Headers.antt =====
-- Which headers `getUpstreamHeaders` of in/inc_manager.go keeps for the backend.
use wsbalancer.Prelude.{
  ◌≡◌, refl, Bool, true, false, List, [], ◌∷◌, ◌++◌, Text, same, same_iff, arith, if◌then◌else◌,
  ◌∙◌,
}
use wsbalancer.Common.Header.{Header, canonical, values, put, del, values-put, values-del}
use wsbalancer.In.Request.{
  Request, ServerConfig, get_forwarded_for, forwarded_for_header, del_all, del_unless_empty,
  handshake_headers, get_upstream_headers,
}

-- Some name of the list is this one, up to the canonical form.
unfoldable pub names : List Text → Text → Bool
names [] k = false
names (j ∷ js) k = if same (canonical j) (canonical k) then true else names js k

values-del_all :
    (h : Header) (ks : List Text) (k : Text)
    → values (del_all h ks) k ≡ (if names ks k then [] else values h k)
unfolding del_all names
values-del_all h [] k = refl
values-del_all h (j ∷ ks) k =
    ground
      (arith, values-del_all (del h j) ks k, values-del h j k, same_iff (canonical j) (canonical k))

names-append :
    (xs ys : List Text) (k : Text) → names (xs ++ ys) k ≡ (if names xs k then true else names ys k)
unfolding names
names-append [] ys k = refl
names-append (x ∷ xs) ys k = ground (arith, names-append xs ys k)

abbrev unless_empty : Text → List Text
unless_empty [] = []
unless_empty (c ∷ k) = (c ∷ k) ∷ []

-- What is not passed on: the handshake's headers, the ignored ones, and the reconnect header.
abbrev pub blocked : ServerConfig → List Text
blocked config =
    handshake_headers ++ (config.ignore_headers ++ unless_empty config.reconnect_header)

values-del_unless_empty :
    (h : Header) (j k : Text)
    → values (del_unless_empty h j) k ≡ (if names (unless_empty j) k then [] else values h k)
unfolding del_unless_empty names
values-del_unless_empty h [] k = refl
values-del_unless_empty h (c ∷ j) k = ground (arith, values-del h (c ∷ j) k)

-- What `getUpstreamHeaders` makes of a request, before the dialer writes the headers of its own
-- handshake and before a later reconnection sets the reconnect header: nothing under a blocked name,
-- in any spelling; under X-Forwarded-For, if that is not blocked, the one value that the balancer
-- computes; and under any other name what the client sent.
pub values-get_upstream_headers :
    (config : ServerConfig) (r : Request) (k : Text)
    → values (get_upstream_headers config r) k ≡ (
        if names (blocked config) k
        then []
        else if same (canonical forwarded_for_header) (canonical k)
        then get_forwarded_for config r ∷ []
        else values r.header k)
unfolding get_upstream_headers
values-get_upstream_headers config r k =
    let ignore = config.ignore_headers in
    let reconnect = config.reconnect_header in
    let h0 = put r.header forwarded_for_header (get_forwarded_for config r) in
    let h1 = del_all h0 handshake_headers in
    values-del_unless_empty (del_all h1 ignore) reconnect k
    ∙ rw
        (
          values-del_all h1 ignore k,
          values-del_all h0 handshake_headers k,
          values-put r.header forwarded_for_header (get_forwarded_for config r) k,
          names-append handshake_headers (ignore ++ unless_empty reconnect) k,
          names-append ignore (unless_empty reconnect) k,
        )
        (ground arith)
