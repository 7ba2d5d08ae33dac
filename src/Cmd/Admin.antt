-- ===== src/Cmd/Admin.antt =====
-- The administrative server of cmd/compose.go over the pool of out/outc_manager.go: requests that
-- disable, enable and delete backends.
pub mod Replay
use wsbalancer.Prelude.{
  ℕ, ◌≡◌, List, [], ◌∷◌, ◌++◌, Option, none, some, Text, codes, Exec, returns, ◌>>=◌, ℤ,
}
use wsbalancer.Common.{Result, success, no_action_reqd, failed}
use wsbalancer.In.Inc.{Socket}
use wsbalancer.In.Sessions.{Backends}
use wsbalancer.In.Admin.{BackendAdministrator, System, AdminRequest}
use wsbalancer.In.Admin.Replies.{Writer}
use wsbalancer.In.Admin.Posted.{deleted}
use wsbalancer.In.Admin.Routes.{
  Action, disable_backend, enable_backend, delete_backend, action_path,
}
use wsbalancer.In.Admin.Actions.{serve}
use wsbalancer.Out.Manager.Registry.{Standing, Command, disable, enable, promise, set}

-- The POST request for a command. The ID is one that a URL holds as it is.
abbrev pub command_action : Command → Action
command_action disable = disable_backend
command_action enable = enable_backend
command_action Command.delete = delete_backend

abbrev pub request : Command × Text → AdminRequest
request (c, id) = record {
  method = codes "POST";
  path = action_path (command_action c) ++ id;
  request_uri = action_path (command_action c) ++ id;
  body = some [];
}

-- The ID whose sessions are aborted behind a command.
abbrev pub aborted : Command → Text → Result → List Text
aborted disable id res = []
aborted enable id res = []
aborted Command.delete id res = deleted id res

-- The IDs that a sequence of commands deletes from a registry, in turn.
abbrev pub deletions : List (Command × Text) → (Text → Standing) → List Text
deletions [] registry = []
deletions ((c, id) ∷ calls) registry =
    let now = promise c (registry id) in
    aborted c id now.0 ++ deletions calls (set id now.1 registry)

module _ {K B W S : Type 0} (ws : Socket K) (backends : Backends B K W)
    (adm : Option (BackendAdministrator S)) where
  -- Requests served in turn.
  unfoldable pub serve_all :
      List AdminRequest → System K B W S → Exec (List Writer × System K B W S)
  serve_all [] sys = returns ([], sys)
  serve_all (r ∷ rs) sys = do
    (w, sys') ← serve ws backends adm r sys
    (ws', sys'') ← serve_all rs sys'
    returns (w ∷ ws', sys'')
