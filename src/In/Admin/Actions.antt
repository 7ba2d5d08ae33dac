-- ===== src/In/Admin/Actions.antt =====
-- The handlers of in/admin.go for the calls on an ID, and the service of a request by its endpoint. A
-- call that a handler starts in a goroutine of its own is added to `aborting`, and `run_aborting` is
-- one such goroutine.
use wsbalancer.Prelude.{
  Bool, true, false, not, ◌&&◌, [], ◌∷◌, ◌++◌, Option, none, some, Text, codes, same, Exec, returns,
  ◌>>=◌, if◌then◌else◌,
}
use wsbalancer.Common.{Result, success, no_action_reqd, failed}
use wsbalancer.In.Inc.{Socket}
use wsbalancer.In.Sessions.{Backends, pause_frontend, resume_frontend}
use wsbalancer.In.Sessions.Serving.{
  abort_all_backend_connections, abort_frontend_connection, abort_backend_connection,
}
use wsbalancer.In.Admin.{BackendAdministrator, System, AdminRequest}
use wsbalancer.In.Admin.Replies.{
  Writer, new_writer, error, is_http_post, send_not_implemented_response,
}
use wsbalancer.In.Admin.Routes.{
  Action, disable_backend, enable_backend, reset_backend, delete_backend, failover_backend,
  abort_session, failover_session, Route, act, list_backend, add_backend, backend_config,
  list_session, list_frontend, route,
}
use wsbalancer.In.Admin.Handlers.{
  Actor, process_bk_action_request, list_session_handler, list_frontend_handler,
  list_backend_handler, add_backend_handler, backend_config_handler,
}

-- A handler that takes a POST only, for a call on an ID.
unfoldable pub post_action : {Y : Type 0} → AdminRequest → Actor Y → Writer → Y → Exec (Writer × Y)
post_action r actor w y =
    let (posted, w) = is_http_post w r in
    if not posted
    then returns (w, y)
    else do ((w', answer), y') ← process_bk_action_request r actor w y; returns (w', y')

-- `res == common.ResultSuccess`
abbrev is_success : Result → Bool
is_success success = true
is_success no_action_reqd = false
is_success failed = false

module _ {K B W S : Type 0} where
  -- A call of the administrator.
  abbrev pub on_backends : Actor S → Actor (System K B W S)
  on_backends call id sys = do
    (answer, bks) ← call id sys.backends
    returns (answer, record sys { backends = bks })

  -- The calls that pause and resume the frontend.
  abbrev pub pause : Actor (System K B W S)
  pause id sys =
      let (resp, m) = pause_frontend id sys.manager in
      returns ((resp, none), record sys { manager = m })

  abbrev pub resume : Actor (System K B W S)
  resume id sys =
      let (resp, m) = resume_frontend id sys.manager in
      returns ((resp, none), record sys { manager = m })

  unfoldable pub pause_frontend_handler :
      AdminRequest → Writer → System K B W S → Exec (Writer × System K B W S)
  unfolding post_action
  pause_frontend_handler r w sys = post_action r pause w sys

  unfoldable pub resume_frontend_handler :
      AdminRequest → Writer → System K B W S → Exec (Writer × System K B W S)
  unfolding post_action
  resume_frontend_handler r w sys = post_action r resume w sys

  -- The goroutine that `deleteBackendHandler` starts.
  unfoldable pub go_abort : Text → Result → System K B W S → System K B W S
  go_abort bid res sys =
      if not (same bid []) && is_success res
      then record sys { aborting = sys.aborting ++ bid ∷ [] }
      else sys

module _ {K B W S : Type 0} (backend_admin : Option (BackendAdministrator S)) where
  unfoldable pub disable_backend_handler :
      AdminRequest → Writer → System K B W S → Exec (Writer × System K B W S)
  unfolding post_action
  disable_backend_handler r w sys = elim backend_admin [
    | none ↦ returns (send_not_implemented_response w, sys)
    | some adm ↦ post_action r (on_backends adm.disable_backend) w sys
  ]

  unfoldable pub enable_backend_handler :
      AdminRequest → Writer → System K B W S → Exec (Writer × System K B W S)
  unfolding post_action
  enable_backend_handler r w sys = elim backend_admin [
    | none ↦ returns (send_not_implemented_response w, sys)
    | some adm ↦ post_action r (on_backends adm.enable_backend) w sys
  ]

  unfoldable pub reset_backend_handler :
      AdminRequest → Writer → System K B W S → Exec (Writer × System K B W S)
  unfolding post_action
  reset_backend_handler r w sys = elim backend_admin [
    | none ↦ returns (send_not_implemented_response w, sys)
    | some adm ↦ post_action r (on_backends adm.reset_backend) w sys
  ]

  unfoldable pub delete_backend_handler :
      AdminRequest → Writer → System K B W S → Exec (Writer × System K B W S)
  unfolding go_abort
  delete_backend_handler r w sys = elim backend_admin [
    | none ↦ returns (send_not_implemented_response w, sys)
    | some adm ↦
        let (posted, w) = is_http_post w r in
        if not posted then returns (w, sys) else do
          ((w', (bid, res)), sys') ←
              process_bk_action_request r (on_backends adm.delete_backend) w sys
          returns (w', go_abort bid res sys')
  ]

module _ {K B W S : Type 0} (ws : Socket K) (backends : Backends B K W) where
  -- A call of the manager, none of which has an error.
  abbrev pub abort_all : Actor (System K B W S)
  abort_all id sys = do
    (resp, (w, m)) ← abort_all_backend_connections ws backends id sys.world sys.manager
    returns ((resp, none), record sys { world = w; manager = m })

  abbrev pub abort_frontend : Actor (System K B W S)
  abort_frontend id sys = do
    (resp, m) ← abort_frontend_connection ws backends id sys.manager
    returns ((resp, none), record sys { manager = m })

  abbrev pub abort_backend : Actor (System K B W S)
  abort_backend id sys = do
    (resp, (w, m)) ← abort_backend_connection ws backends id sys.world sys.manager
    returns ((resp, none), record sys { world = w; manager = m })

  unfoldable pub failover_backend_handler :
      AdminRequest → Writer → System K B W S → Exec (Writer × System K B W S)
  unfolding post_action
  failover_backend_handler r w sys = post_action r abort_all w sys

  unfoldable pub abort_session_handler :
      AdminRequest → Writer → System K B W S → Exec (Writer × System K B W S)
  unfolding post_action
  abort_session_handler r w sys = post_action r abort_frontend w sys

  unfoldable pub failover_session_handler :
      AdminRequest → Writer → System K B W S → Exec (Writer × System K B W S)
  unfolding post_action
  failover_session_handler r w sys = post_action r abort_backend w sys

  unfoldable pub run_aborting : System K B W S → Exec (System K B W S)
  run_aborting sys = elim sys.aborting [
    | [] ↦ returns sys
    | bid ∷ rest ↦ do (answer, sys') ← abort_all bid sys; returns (record sys' { aborting = rest })
  ]

module _ {K B W S : Type 0} (ws : Socket K) (backends : Backends B K W)
    (backend_admin : Option (BackendAdministrator S)) where
  unfoldable pub handle_action :
      Action → AdminRequest → Writer → System K B W S → Exec (Writer × System K B W S)
  handle_action disable_backend = disable_backend_handler backend_admin
  handle_action enable_backend = enable_backend_handler backend_admin
  handle_action reset_backend = reset_backend_handler backend_admin
  handle_action delete_backend = delete_backend_handler backend_admin
  handle_action failover_backend = failover_backend_handler ws backends
  handle_action abort_session = abort_session_handler ws backends
  handle_action failover_session = failover_session_handler ws backends
  handle_action Action.pause_frontend = pause_frontend_handler
  handle_action Action.resume_frontend = resume_frontend_handler

  -- The handler that `registerHTTPHandlers` gives to an endpoint.
  unfoldable pub handle :
      Route → AdminRequest → Writer → System K B W S → Exec (Writer × System K B W S)
  handle (act a) r w sys = handle_action a r w sys
  handle list_backend r w sys = returns (list_backend_handler backend_admin w sys, sys)
  handle add_backend r w sys = add_backend_handler backend_admin r w sys
  handle backend_config r w sys = backend_config_handler backend_admin r w sys
  handle list_session r w sys = returns (list_session_handler backends w sys, sys)
  handle list_frontend r w sys = returns (list_frontend_handler w sys, sys)

  -- A request: the mux answers a path that has no handler itself.
  unfoldable pub serve : AdminRequest → System K B W S → Exec (Writer × System K B W S)
  serve r sys = elim (route r.path) [
    | none ↦ returns (error (codes "404 page not found") 404 new_writer, sys)
    | some rt ↦ handle rt r new_writer sys
  ]
