-- ===== src/Tests/Admin.antt =====
-- Requests to the administrative server, over the pool of the tests, and texts in JSON.
use wsbalancer.Prelude.{
  ℕ, ◌≡◌, refl, ◌⊎◌, Bool, List, [], ◌∷◌, ◌++◌, map, none, some, Text, codes, same, panics, Returns,
  ℤ, arith,
}
use wsbalancer.In.Escape.{json_escape}
use wsbalancer.In.Escape.Decoding.{decode, plain, decode-json_escape}
use wsbalancer.In.Admin.{System, AdminRequest}
use wsbalancer.In.Admin.Routes.{Route, act, disable_backend, action_path, route, find_id}
use wsbalancer.In.Admin.Routes.Ids.{action_path-read_back}
use wsbalancer.In.Admin.Posting.{serve-Unchanged}
use wsbalancer.In.Admin.Actions.{serve}
use wsbalancer.Out.Manager.{Manager, NewBackendDef}
use wsbalancer.Out.Manager.Listing.{administrator, backend_config, backend_config-Returns}
use wsbalancer.Out.Manager.Invariant.{IsWellFormed}
use wsbalancer.Out.Manager.Coherence.{IsCoherent}
use wsbalancer.Out.Manager.Registry.{Command, disable, enable, standing, replay, call_all}
use wsbalancer.Out.Manager.Registry.Refinement.{call_all-replay}
use wsbalancer.Cmd.Admin.{request, serve_all}
use wsbalancer.Cmd.Admin.Replay.{IsId, Replayed, serve_all-replay}
use wsbalancer.Tests.Pool.{
  brittle, decode_def, seconds, pool, first_id, second_id, pool-IsWellFormed, pool-IsCoherent,
}
use wsbalancer.Tests.Clients.{socket, numbered, manager}

abbrev calls : List (Command × Text)
calls =
    (disable, second_id)
    ∷ (Command.delete, first_id)
    ∷ (enable, second_id)
    ∷ (enable, first_id)
    ∷ []

replay_example :
    Returns
      (λ t.
        IsWellFormed t.1
        × IsCoherent t.1
        × (t.0 ≡ (replay calls (standing pool)).0)
        × (standing t.1 ≡ (replay calls (standing pool)).1))
      (call_all calls pool)
replay_example = call_all-replay calls pool pool-IsWellFormed pool-IsCoherent

first_IsId : IsId first_id
first_IsId = (λ e. absurd (cc), (omega arith, (omega arith, (omega arith, tt))))

second_IsId : IsId second_id
second_IsId = (λ e. absurd (cc), (omega arith, (omega arith, (omega arith, tt))))

abbrev system : System Unit ℕ ℕ (ℕ × Manager Bool)
system = record { manager = manager; world = 6; backends = (0, pool); aborting = [] }

abbrev no_text : NewBackendDef → Text
no_text d = d.id

abbrev no_duration : ℤ → Text
no_duration d = []

serving_example : Returns (Replayed calls system) (
    serve_all socket numbered
      (some (administrator brittle decode_def seconds no_text no_duration))
      (map request calls)
      system)
serving_example =
    serve_all-replay brittle decode_def seconds no_text no_duration socket numbered calls system
      (second_IsId, (first_IsId, (second_IsId, (first_IsId, tt)))) pool-IsWellFormed pool-IsCoherent

-- A GET request at an endpoint that takes a POST.
abbrev get_disable : AdminRequest
get_disable = record {
  method = codes "GET";
  path = action_path disable_backend ++ second_id;
  request_uri = action_path disable_backend ++ second_id;
  body = some [];
}

unchanged_example :
    Returns
      (λ t. t.1 ≡ system)
      (serve socket numbered
        (some (administrator brittle decode_def seconds no_text no_duration))
        get_disable
        system)
    ⊎ ((route get_disable.path ≡ some Route.backend_config)
        × (find_id get_disable.request_uri ≡ none)
        × (serve socket numbered
              (some (administrator brittle decode_def seconds no_text no_duration))
              get_disable
              system
            ≡ panics))
unfolding same administrator backend_config
unchanged_example =
    serve-Unchanged socket numbered
      (some (administrator brittle decode_def seconds no_text no_duration)) get_disable system
      (λ id s. backend_config-Returns no_text no_duration id s.1) refl

read_back_example :
    (route (action_path disable_backend ++ codes "a/session/b") ≡ some (act disable_backend))
    × (find_id (action_path disable_backend ++ codes "a/session/b") ≡ some (codes "a/session/b"))
read_back_example = action_path-read_back disable_backend b'a' (codes "/session/b") (
  omega arith,
  (
    omega arith,
    (
      omega arith,
      (
        omega arith,
        (
          omega arith,
          (
            omega arith,
            (omega arith, (omega arith, (omega arith, (omega arith, (omega arith, tt))))),
          ),
        ),
      ),
    ),
  ),
)

decode_example : decode plain (json_escape (codes "a\"<b>")) ≡ some (codes "a\"<b>")
decode_example = decode-json_escape (codes "a\"<b>")
