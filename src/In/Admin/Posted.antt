-- ===== src/In/Admin/Posted.antt =====
-- A POST to in/admin.go on the ID of a backend, where the administrator has a result and no error.
use mathlib.Core.List.{append-nil}
use wsbalancer.Prelude.{
  ◌≡◌, refl, ap, true, false, List, [], ◌∷◌, ◌++◌, Option, none, some, Text, codes, same, returns,
}
use wsbalancer.Common.{Result, success, no_action_reqd, failed}
use wsbalancer.In.Inc.{Socket}
use wsbalancer.In.Sessions.{Backends}
use wsbalancer.In.Admin.{BackendAdministrator, System, AdminRequest}
use wsbalancer.In.Admin.Replies.{
  Writer, new_writer, json, result_text, is_http_post, set_content_type, send_result, print,
  write_header,
}
use wsbalancer.In.Admin.Routes.{Route, route, find_id}
use wsbalancer.In.Admin.Handlers.{Actor, process_bk_action_request}
use wsbalancer.In.Admin.Actions.{
  post_action, serve, handle, on_backends, go_abort, disable_backend_handler,
  enable_backend_handler, delete_backend_handler,
}

-- The answer that tells a result.
abbrev pub answer : Result → Writer
answer res = record {
  content_type = json;
  no_sniff = false;
  status = some 200;
  body = result_text res;
}

send_result-answer :
    (res : Result) → send_result res none (set_content_type json new_writer) ≡ answer res
unfolding send_result set_content_type print write_header
send_result-answer res = refl

process_lem :
    {Y : Type 0} (r : AdminRequest) (actor : Actor Y) (y : Y) (id : Text) (res : Result) (y' : Y)
    → find_id r.request_uri ≡ some id
    → actor id y ≡ returns ((res, none), y')
    → process_bk_action_request r actor new_writer y ≡ returns ((answer res, (id, res)), y')
unfolding process_bk_action_request
process_lem r actor y id res y' e a = rw (e, a, send_result-answer res) refl

post_action_lem :
    {Y : Type 0} (r : AdminRequest) (actor : Actor Y) (y : Y) (id : Text) (res : Result) (y' : Y)
    → same r.method (codes "POST") ≡ true
    → find_id r.request_uri ≡ some id
    → actor id y ≡ returns ((res, none), y')
    → post_action r actor new_writer y ≡ returns (answer res, y')
unfolding post_action is_http_post
post_action_lem r actor y id res y' p e a = rw (p, process_lem r actor y id res y' e a) refl

-- The ID of a backend that was deleted just now.
abbrev pub deleted : Text → Result → List Text
deleted id success = id ∷ []
deleted id no_action_reqd = []
deleted id failed = []

go_abort_lem :
    {K B W S : Type 0} (id : Text) (res : Result) (sys : System K B W S)
    → same id [] ≡ false
    → go_abort id res sys ≡ record sys { aborting = sys.aborting ++ deleted id res }
unfolding go_abort
go_abort_lem id success sys n = rw (n) refl
go_abort_lem id no_action_reqd sys n = rw (n, append-nil sys.aborting) refl
go_abort_lem id failed sys n = rw (n, append-nil sys.aborting) refl

module _ {K B W S : Type 0} (adm : BackendAdministrator S) where
  pub disable_backend_handler_lem :
      (r : AdminRequest) (sys : System K B W S) (id : Text) (res : Result) (s : S)
      → same r.method (codes "POST") ≡ true
      → find_id r.request_uri ≡ some id
      → adm.disable_backend id sys.backends ≡ returns ((res, none), s)
      → disable_backend_handler (some adm) r new_writer sys
        ≡ returns (answer res, record sys { backends = s })
  unfolding disable_backend_handler
  disable_backend_handler_lem r sys id res s p e a =
      post_action_lem r _ sys id res (record sys { backends = s }) p e (rw (a) refl)

  pub enable_backend_handler_lem :
      (r : AdminRequest) (sys : System K B W S) (id : Text) (res : Result) (s : S)
      → same r.method (codes "POST") ≡ true
      → find_id r.request_uri ≡ some id
      → adm.enable_backend id sys.backends ≡ returns ((res, none), s)
      → enable_backend_handler (some adm) r new_writer sys
        ≡ returns (answer res, record sys { backends = s })
  unfolding enable_backend_handler
  enable_backend_handler_lem r sys id res s p e a =
      post_action_lem r _ sys id res (record sys { backends = s }) p e (rw (a) refl)

  -- Behind a deletion, the goroutine is started for an ID that is not empty.
  pub delete_backend_handler_lem :
      (r : AdminRequest) (sys : System K B W S) (id : Text) (res : Result) (s : S)
      → same r.method (codes "POST") ≡ true
      → find_id r.request_uri ≡ some id
      → same id [] ≡ false
      → adm.delete_backend id sys.backends ≡ returns ((res, none), s)
      → delete_backend_handler (some adm) r new_writer sys
        ≡ returns
            (answer res, record sys { backends = s; aborting = sys.aborting ++ deleted id res })
  unfolding delete_backend_handler is_http_post
  delete_backend_handler_lem r sys id res s p e n a =
      let deleting : on_backends adm.delete_backend id sys
          ≡ returns ((res, none), record sys { backends = s }) =
        rw (a) refl in
      rw (p, process_lem r (on_backends adm.delete_backend) sys id res _ e deleting)
        (ap (λ sys'. returns (answer res, sys'))
          (go_abort_lem id res (record sys { backends = s }) n))

module _ {K B W S : Type 0} (ws : Socket K) (backends : Backends B K W)
    (adm : Option (BackendAdministrator S)) where
  pub serve_lem :
      (r : AdminRequest) (rt : Route) (sys : System K B W S)
      → route r.path ≡ some rt
      → serve ws backends adm r sys ≡ handle ws backends adm rt r new_writer sys
  unfolding serve
  serve_lem r rt sys e = rw (e, serve) refl
