-- ===== src/In/Admin/Handlers.antt =====
-- The handlers of in/admin.go that list sessions, frontends and backends, add a backend and show its
-- configuration, and the handling of a call on an ID.
use wsbalancer.Prelude.{
  ℕ, not, List, [], ◌∷◌, ◌++◌, Option, none, some, Text, codes, Exec, returns, deref, ◌>>=◌,
  if◌then◌else◌, signed, ◌^◌,
}
use wsbalancer.Common.{Result}
use wsbalancer.In.Escape.{json_escape}
use wsbalancer.In.Inc.{Inc}
use wsbalancer.In.Sessions.{Backends}
use wsbalancer.In.Admin.{BackendAdministrator, System, AdminRequest}
use wsbalancer.In.Admin.Replies.{
  Writer, set_content_type, print, error, json, is_http_post, send_not_implemented_response,
  send_result,
}
use wsbalancer.In.Admin.Routes.{find_id}

-- One entry of the list of the sessions.
session_text : {K : Type 0} → Inc K → Text → Text
session_text inc backend_id =
    codes "{\"id\":\""
    ++ inc.id
    ++ codes "\",\"uri\":\""
    ++ json_escape inc.request_uri
    ++ codes "\",\"backendId\":\""
    ++ backend_id
    ++ codes "\",\"reconnects\":"
    ++ signed (2 ^ 63) inc.total_reconnects
    ++ codes ",\"msgsReceived\":"
    ++ signed (2 ^ 63) inc.total_received
    ++ codes ",\"msgsSent\":"
    ++ signed (2 ^ 63) inc.total_sent
    ++ codes "}"

-- A call on an ID, with its result and its error.
abbrev pub Actor : Type 0 → Type 0
Actor Y = Text → Y → Exec ((Result × Option Text) × Y)

-- `processBkActionRequest`, with the ID and the result that it returns.
unfoldable pub process_bk_action_request :
    {Y : Type 0} → AdminRequest → Actor Y → Writer → Y → Exec ((Writer × (Text × Result)) × Y)
process_bk_action_request r actor w y = do
  bid ← deref (find_id r.request_uri)
  let w = set_content_type json w
  ((resp, err), y') ← actor bid y
  returns ((send_result resp err w, (bid, resp)), y')

module _ {K B W : Type 0} (backends : Backends B K W) where
  sessions_text : (ℕ → Inc K) → List (ℕ × B) → Text
  unfolding session_text
  sessions_text store [] = []
  sessions_text store ((a, us) ∷ []) = session_text (store a) (backends.backend_id us)
  sessions_text store ((a, us) ∷ b ∷ clients) =
      session_text (store a) (backends.backend_id us)
      ++ codes ","
      ++ sessions_text store (b ∷ clients)

  unfoldable pub list_session_handler : {S : Type 0} → Writer → System K B W S → Writer
  unfolding sessions_text
  list_session_handler w sys =
      print (codes "[" ++ sessions_text sys.manager.store sys.manager.clients ++ codes "]")
        (set_content_type json w)

module _ {K B W S : Type 0} where
  unfoldable pub list_frontend_handler : Writer → System K B W S → Writer
  list_frontend_handler w sys =
      print (codes "[{\"id\":\"" ++ sys.manager.id ++ codes "\"}]") (set_content_type json w)

module _ {K B W S : Type 0} (backend_admin : Option (BackendAdministrator S)) where
  unfoldable pub list_backend_handler : Writer → System K B W S → Writer
  list_backend_handler w sys = elim backend_admin [
    | none ↦ send_not_implemented_response w
    | some adm ↦ print (adm.list_backends sys.backends) (set_content_type json w)
  ]

  -- Reading a body that fails is answered with 400.
  add_body :
      BackendAdministrator S
      → Option (List ℕ)
      → Writer
      → System K B W S
      → Exec (Writer × System K B W S)
  add_body adm none w sys = returns (error (codes "Bad Request") 400 w, sys)
  add_body adm (some body) w sys = do
    (resp, bks) ← adm.add_backend body sys.backends
    returns (print resp (set_content_type json w), record sys { backends = bks })

  unfoldable pub add_backend_handler :
      AdminRequest → Writer → System K B W S → Exec (Writer × System K B W S)
  unfolding add_body
  add_backend_handler r w sys = elim backend_admin [
    | none ↦ returns (send_not_implemented_response w, sys)
    | some adm ↦
        let (posted, w) = is_http_post w r in
        if not posted then returns (w, sys) else add_body adm r.body w sys
  ]

  unfoldable pub backend_config_handler :
      AdminRequest → Writer → System K B W S → Exec (Writer × System K B W S)
  backend_config_handler r w sys = elim backend_admin [
    | none ↦ returns (send_not_implemented_response w, sys)
    | some adm ↦ do
      let w = set_content_type json w
      bid ← deref (find_id r.request_uri)
      text ← adm.backend_config bid sys.backends
      returns (print text w, sys)
  ]
