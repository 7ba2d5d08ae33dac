-- ===== src/In/Admin/Posting.antt =====
-- The requests to in/admin.go that change nothing.
use wsbalancer.Prelude.{
  ◌≡◌, refl, ◌⊎◌, inl, inr, false, Option, none, some, codes, same, Exec, panics, Returns,
  Returns-bind, Option-cases, Text,
}
use wsbalancer.In.Inc.{Socket}
use wsbalancer.In.Sessions.{Backends}
use wsbalancer.In.Admin.{BackendAdministrator, System, AdminRequest}
use wsbalancer.In.Admin.Replies.{Writer, new_writer, is_http_post}
use wsbalancer.In.Admin.Routes.{
  Action, disable_backend, enable_backend, reset_backend, delete_backend, failover_backend,
  abort_session, failover_session, act, list_backend, add_backend, backend_config, list_session,
  list_frontend, route, find_id,
}
use wsbalancer.In.Admin.Handlers.{Actor, add_backend_handler, backend_config_handler}
use wsbalancer.In.Admin.Actions.{
  post_action, handle_action, handle, serve, disable_backend_handler, enable_backend_handler,
  reset_backend_handler, delete_backend_handler, failover_backend_handler, abort_session_handler,
  failover_session_handler, pause_frontend_handler, resume_frontend_handler,
}

-- The call returns with what it was given unchanged.
abbrev Unchanged : {Y : Type 0} → Y → Exec (Writer × Y) → Type 0
Unchanged y = Returns (λ t. t.1 ≡ y)

post_action-Unchanged :
    {Y : Type 0} (r : AdminRequest) (actor : Actor Y) (w : Writer) (y : Y)
    → same r.method (codes "POST") ≡ false
    → Unchanged y (post_action r actor w y)
unfolding post_action is_http_post
post_action-Unchanged r actor w y h = rw (h) refl

module _ {K B W S : Type 0} (ws : Socket K) (backends : Backends B K W) where
  handle_action-Unchanged :
      (adm : Option (BackendAdministrator S)) (a : Action) (r : AdminRequest) (w : Writer)
      (sys : System K B W S)
      → same r.method (codes "POST") ≡ false
      → Unchanged sys (handle_action ws backends adm a r w sys)
  unfolding handle_action disable_backend_handler enable_backend_handler reset_backend_handler
      delete_backend_handler failover_backend_handler abort_session_handler failover_session_handler
      pause_frontend_handler resume_frontend_handler is_http_post
  handle_action-Unchanged none disable_backend r w sys h = refl
  handle_action-Unchanged none enable_backend r w sys h = refl
  handle_action-Unchanged none reset_backend r w sys h = refl
  handle_action-Unchanged none delete_backend r w sys h = refl
  handle_action-Unchanged (some adm) disable_backend r w sys h = post_action-Unchanged r _ w sys h
  handle_action-Unchanged (some adm) enable_backend r w sys h = post_action-Unchanged r _ w sys h
  handle_action-Unchanged (some adm) reset_backend r w sys h = post_action-Unchanged r _ w sys h
  handle_action-Unchanged (some adm) delete_backend r w sys h = rw (h) refl
  handle_action-Unchanged adm failover_backend r w sys h = post_action-Unchanged r _ w sys h
  handle_action-Unchanged adm abort_session r w sys h = post_action-Unchanged r _ w sys h
  handle_action-Unchanged adm failover_session r w sys h = post_action-Unchanged r _ w sys h
  handle_action-Unchanged adm Action.pause_frontend r w sys h = post_action-Unchanged r _ w sys h
  handle_action-Unchanged adm Action.resume_frontend r w sys h = post_action-Unchanged r _ w sys h

  -- An administrator that answers every request for a configuration.
  abbrev pub AnswersConfig : Option (BackendAdministrator S) → Type 0
  AnswersConfig none = Unit
  AnswersConfig (some adm) = (id : Text) (s : S) → Returns (λ text. Unit) (adm.backend_config id s)

  config-Unchanged :
      (adm : Option (BackendAdministrator S)) (r : AdminRequest) (w : Writer) (sys : System K B W S)
      → AnswersConfig adm
      → Unchanged sys (backend_config_handler adm r w sys)
        ⊎ ((find_id r.request_uri ≡ none) × (backend_config_handler adm r w sys ≡ panics))
  unfolding backend_config_handler
  config-Unchanged none r w sys answers = inl refl
  config-Unchanged (some adm) r w sys answers = elim (Option-cases (find_id r.request_uri)) [
    | inl e ↦ inr (e, rw (e) refl)
    | inr (id, e) ↦ inl (
        rw (e) (
          Returns-bind (λ text. Unit) (λ t. t.1 ≡ sys) (adm.backend_config id sys.backends) _
            (answers id sys.backends) (λ text u. refl)))
  ]

  add-Unchanged :
      (adm : Option (BackendAdministrator S)) (r : AdminRequest) (w : Writer) (sys : System K B W S)
      → same r.method (codes "POST") ≡ false
      → Unchanged sys (add_backend_handler adm r w sys)
  unfolding add_backend_handler is_http_post
  add-Unchanged none r w sys h = refl
  add-Unchanged (some adm) r w sys h = rw (h) refl

  -- Where the administrator of the backends, if there is one, answers for the configuration of every
  -- ID, a request that is not a POST changes nothing, at whatever endpoint: it is answered, or it asks
  -- for a configuration with a URI that has no ID, and then its handler panics.
  pub serve-Unchanged :
      (adm : Option (BackendAdministrator S)) (r : AdminRequest) (sys : System K B W S)
      → AnswersConfig adm
      → same r.method (codes "POST") ≡ false
      → Returns (λ t. t.1 ≡ sys) (serve ws backends adm r sys)
        ⊎ ((route r.path ≡ some backend_config)
            × (find_id r.request_uri ≡ none)
            × (serve ws backends adm r sys ≡ panics))
  unfolding serve handle
  serve-Unchanged adm r sys answers h = elim (Option-cases (route r.path)) [
    | inl e ↦ inl (rw (e, serve) refl)
    | inr (act a, e) ↦ inl (rw (e, serve) (handle_action-Unchanged adm a r new_writer sys h))
    | inr (list_backend, e) ↦ inl (rw (e, serve) refl)
    | inr (add_backend, e) ↦ inl (rw (e, serve) (add-Unchanged adm r new_writer sys h))
    | inr (list_session, e) ↦ inl (rw (e, serve) refl)
    | inr (list_frontend, e) ↦ inl (rw (e, serve) refl)
    | inr (backend_config, e) ↦ elim (config-Unchanged adm r new_writer sys answers) [
      | inl u ↦ inl (rw (e, serve) u)
      | inr (n, p) ↦ inr (e, n, rw (e, serve) p)
    ]
  ]
