-- ===== src/In/Admin.antt =====
-- in/admin.go: the administrative endpoints, on the manager of the sessions and, where the dialer is a
-- `BackendAdministrator`, on the backends. `Replies` has the answers that are written, `Routes` the
-- endpoints and the IDs in their URIs, `Handlers` and
-- `Actions` what each endpoint does.
pub mod Replies
pub mod Routes
pub mod Handlers
pub mod Actions
pub mod Posting
pub mod Posted
use wsbalancer.Prelude.{ℕ, List, Option, Text, Exec}
use wsbalancer.Common.{Result}
use wsbalancer.In.Sessions.{Manager}

-- `BackendAdministrator` of common/contract.go: what it keeps is `S`. Each of the four calls on an ID
-- gives its result and an error, which may be nil.
pub record BackendAdministrator (S : Type 0) : Type 0 where
  pub list_backends : S → Text
  pub add_backend : List ℕ → S → Exec (Text × S)
  pub backend_config : Text → S → Exec Text
  pub disable_backend : Text → S → Exec ((Result × Option Text) × S)
  pub enable_backend : Text → S → Exec ((Result × Option Text) × S)
  pub delete_backend : Text → S → Exec ((Result × Option Text) × S)
  pub reset_backend : Text → S → Exec ((Result × Option Text) × S)

-- What the handlers work on: the manager and its world, what the administrator keeps, and the IDs of
-- the backends for whose connections a goroutine was started and has not run yet.
pub record System (K B W S : Type 0) : Type 0 where
  pub manager : Manager K B W
  pub world : W
  pub backends : S
  pub aborting : List Text

-- An HTTP request: `path` is `r.URL.Path`, `request_uri` is `r.URL.RequestURI()`, and `body` is nothing
-- where reading it fails.
pub record AdminRequest : Type 0 where
  pub method : Text
  pub path : Text
  pub request_uri : Text
  pub body : Option (List ℕ)
